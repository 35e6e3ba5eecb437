-- ===== src/Runner/Once.antt =====
-- `vhdl_sources` names each file once and leaves none out.
use emac_zero.Base.{
  if◌then◌else◌, Bool, Bool-cases, List, Option, [], ap, ap₂, arith, false, inl, inr, refl, sym,
  true, ◌++◌, ◌||◌, ◌∙◌, ◌∷◌, ◌≡◌,
}
use emac_zero.Base.Predicates.{All}
use emac_zero.Base.Text.{Line, same_text, same_text_iff, same_text_self}
use emac_zero.Runner.{member}
use emac_zero.Runner.Sources.{Source, add_new, mapped_files, vhdl_sources}
use emac_zero.SerialMonitor.Ports.{or_default}

-- No text stands in the list twice.
abbrev pub IsDistinct : List Line → Type 0
IsDistinct [] = Unit {0}
IsDistinct (x ∷ xs) = (member x xs ≡ false) × IsDistinct xs

same_text_ne : (x y : Line) → same_text x y ≡ false → same_text y x ≡ false
same_text_ne x y e = elim (Bool-cases (same_text y x)) [
  | inr n ↦ n
  | inl h ↦
      let t : same_text x y ≡ true = (same_text_iff x y).1 (sym ((same_text_iff y x).0 h)) in
      h ∙ sym t ∙ e
]

or_assoc : (a b c : Bool) → (a || (b || c)) ≡ ((a || b) || c)
or_assoc true b c = refl
or_assoc false b c = refl

or_split : (a b : Bool) → (a || b) ≡ false → (a ≡ false) × (b ≡ false)
or_split a b h = (ground arith, ground arith)

or_keep : (a b : Bool) → a ≡ true → (a || b) ≡ true
or_keep a b h = ground arith

member-append : (x : Line) (ys zs : List Line) → member x (ys ++ zs) ≡ (member x ys || member x zs)
unfolding member
member-append x [] zs = refl
member-append x (y ∷ ys) zs =
    ap (λ b. same_text x y || b) (member-append x ys zs)
    ∙ or_assoc (same_text x y) (member x ys) (member x zs)

append-IsDistinct :
    (out : List Line) (f : Line)
    → IsDistinct out
    → member f out ≡ false
    → IsDistinct (out ++ (f ∷ []))
unfolding member
append-IsDistinct [] f d n = (refl, tt)
append-IsDistinct (x ∷ out) f d n =
    let (p, q) = or_split (same_text f x) (member f out) n in
    let g : member x (out ++ (f ∷ [])) ≡ false =
      member-append x out (f ∷ []) ∙ ap₂ (λ a b. a || (b || false)) d.0 (same_text_ne f x p) in
    (g, append-IsDistinct out f d.1 q)

add_new-IsDistinct : (files out : List Line) → IsDistinct out → IsDistinct (add_new out files)
unfolding add_new
add_new-IsDistinct [] out d = d
add_new-IsDistinct (f ∷ files) out d = elim (Bool-cases (member f out)) [
  | inl y ↦ rw y (add_new-IsDistinct files out d)
  | inr n ↦ rw n (add_new-IsDistinct files (out ++ (f ∷ [])) (append-IsDistinct out f d n))
]

-- What stands in the list stays.
member-add_new_kept :
    (x : Line) (files out : List Line) → member x out ≡ true → member x (add_new out files) ≡ true
unfolding add_new
member-add_new_kept x [] out h = h
member-add_new_kept x (f ∷ files) out h = elim (Bool-cases (member f out)) [
  | inl y ↦ rw y (member-add_new_kept x files out h)
  | inr n ↦ rw n (
      member-add_new_kept x files (out ++ (f ∷ []))
        (member-append x out (f ∷ []) ∙ or_keep (member x out) (member x (f ∷ [])) h))
]

member-last : (f : Line) (out : List Line) → member f (out ++ (f ∷ [])) ≡ true
unfolding member
member-last f [] = rw (same_text_self f) refl
member-last f (x ∷ out) = rw (member-last f out) (or_true (same_text f x))
  where
    or_true : (b : Bool) → (b || true) ≡ true
    or_true true = refl
    or_true false = refl

abbrev pub IsKept : List Line → Line → Type 0
IsKept kept f = member f kept ≡ true

-- The list that adding `f` leaves holds `f`.
member-added :
    (f : Line) (out : List Line) (b : Bool)
    → member f out ≡ b
    → member f (if b then out else out ++ (f ∷ [])) ≡ true
member-added f out true e = e
member-added f out false e = member-last f out

add_new-All : (files out : List Line) → All (IsKept (add_new out files)) files
unfolding add_new
add_new-All [] out = tt
add_new-All (f ∷ files) out =
    let out' = if member f out then out else out ++ (f ∷ []) in
    (
      member-add_new_kept f files out' (member-added f out (member f out) refl),
      add_new-All files out',
    )

-- No file stands twice in the VHDL sources of a suite, and every file that the suite gives, or that
-- its Verilog sources map to with what they need, stands in them.
pub vhdl_sources-IsDistinct :
    (target : Line) (given : Option (List Line)) (sources : List Source)
    → IsDistinct (vhdl_sources target given sources)
      × All (IsKept (vhdl_sources target given sources)) (or_default given (mapped_files sources))
unfolding vhdl_sources member same_text
vhdl_sources-IsDistinct target given sources = (
  add_new-IsDistinct (or_default given (mapped_files sources)) _ (refl, (refl, tt)),
  add_new-All (or_default given (mapped_files sources)) _,
)
