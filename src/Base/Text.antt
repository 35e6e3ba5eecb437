-- ===== src/Base/Text.antt =====
-- Python text as code points, and a dictionary from texts.
use Prim.Native.String.{String}
use Prim.Native.Char.{code}
use Prim.Native.Nat.{ℕ}
use mathlib.Core.Path.{◌≡◌, refl, sym, ap₂, subst}
use mathlib.Core.Logic.{◌↔◌, inl, inr}
use mathlib.Core.Bool.{Bool, true, false, ◌&&◌, ◌||◌}
use mathlib.Core.List.{List, [], ◌∷◌}
use mathlib.Core.Option.{Option, none, some}
use emac_zero.Base.Tests.{==-self, ==_iff, Bool-cases, both_true, if◌then◌else◌, leb, ◌==◌}

abbrev pub Line : Type 0
Line = List ℕ

abbrev pub codes : String → Line
codes String.[] = []
codes (String.◌∷◌ c s) = code c ∷ codes s

unfoldable pub same_text : Line → Line → Bool
same_text [] [] = true
same_text [] (y ∷ ys) = false
same_text (x ∷ xs) [] = false
same_text (x ∷ xs) (y ∷ ys) = (x == y) && same_text xs ys

unfoldable pub is_digit : ℕ → Bool
is_digit c = leb 48 c && leb c 57

-- s.isdigit(), for ASCII text
unfoldable pub all_digits : Line → Bool
all_digits [] = true
all_digits (c ∷ cs) = is_digit c && all_digits cs

unfoldable pub isdigit : Line → Bool
isdigit [] = false
isdigit (c ∷ cs) = all_digits (c ∷ cs)

-- str.isspace, for ASCII text
unfoldable pub is_space : ℕ → Bool
is_space c = (c == 32) || (leb 9 c && leb c 13) || (leb 28 c && leb c 31)

unfoldable pub lstrip : Line → Line
lstrip [] = []
lstrip (c ∷ cs) = if is_space c then lstrip cs else c ∷ cs

unfoldable pub rstrip : Line → Line
rstrip [] = []
rstrip (c ∷ cs) =
    let rest = rstrip cs in
    elim rest [ [] ↦ if is_space c then [] else c ∷ [] | (d ∷ ds) ↦ c ∷ d ∷ ds ]

unfoldable pub strip : Line → Line
strip line = rstrip (lstrip line)

-- A dictionary, in the order of insertion.
abbrev pub Dict : Type 0 → Type 0
Dict V = List (Line × V)

-- d.get(key)
unfoldable pub lookup : {V : Type 0} → Line → Dict V → Option V
lookup key [] = none
lookup key ((k, v) ∷ d) = if same_text key k then some v else lookup key d

-- d[key] = value
unfoldable pub insert : {V : Type 0} → Line → V → Dict V → Dict V
insert key v [] = (key, v) ∷ []
insert key v ((k, w) ∷ d) =
    let rest = insert key v d in if same_text key k then (k, v) ∷ d else (k, w) ∷ rest

pub same_text_self : (xs : Line) → same_text xs xs ≡ true
unfolding same_text
same_text_self [] = refl
same_text_self (x ∷ xs) = rw (==-self x, same_text_self xs) refl

-- Texts that test as the same are the same.
pub same_text_iff : (xs ys : Line) → (same_text xs ys ≡ true) ↔ (xs ≡ ys)
unfolding same_text
same_text_iff [] [] = (λ e. refl, λ e. refl)
same_text_iff [] (y ∷ ys) = (λ e. cc, λ e. cc)
same_text_iff (x ∷ xs) [] = (λ e. cc, λ e. cc)
same_text_iff (x ∷ xs) (y ∷ ys) = (
  λ e.
      let (p, q) = both_true (x == y) (same_text xs ys) e in
      ap₂ (◌∷◌) ((==_iff x y).0 p) ((same_text_iff xs ys).0 q),
  λ e. subst (λ z. same_text (x ∷ xs) z ≡ true) e (same_text_self (x ∷ xs)),
)

module _ {V : Type 0} where
  pub lookup-insert_self : (k : Line) (v : V) (d : Dict V) → lookup k (insert k v d) ≡ some v
  unfolding lookup insert
  lookup-insert_self k v [] = rw (same_text_self k) refl
  lookup-insert_self k v ((j, w) ∷ d) = elim (Bool-cases (same_text k j)) [
    | inl y ↦ rw (y, y) refl
    | inr n ↦ rw (n, n) (lookup-insert_self k v d)
  ]

  pub lookup-insert_ne :
      (k j : Line) (v : V) (d : Dict V)
      → same_text k j ≡ false
      → lookup k (insert j v d) ≡ lookup k d
  unfolding lookup insert
  lookup-insert_ne k j v [] h = rw h refl
  lookup-insert_ne k j v ((i, w) ∷ d) h = elim (Bool-cases (same_text j i)) [
    | inr n ↦ rw (n, lookup-insert_ne k j v d h) refl
    | inl y ↦ let e : i ≡ j = sym ((same_text_iff j i).0 y) in rw (y, e, h) refl
  ]
