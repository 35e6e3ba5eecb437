-- ===== src/Scoreboard/Verdict.antt =====
-- When a scoreboard passes.
use emac_zero.Base.{
  Bool-cases, List, [], ap₂, arith, inl, inr, length, refl, sym, true, ℕ, ◌++◌, ◌+◌, ◌↔◌, ◌∷◌, ◌≡◌,
}
use emac_zero.Base.Py.{Bytes}
use emac_zero.Scoreboard.{
  Message, Scoreboard, bytes_eq, check, count_errors, frame_errors, is_empty,
}

pub bytes_eq_iff : (a b : Bytes) → (bytes_eq a b ≡ true) ↔ (a ≡ b)
unfolding bytes_eq
bytes_eq_iff [] [] = (λ _. refl, λ _. refl)
bytes_eq_iff [] (y ∷ ys) = (λ h. cc, λ h. cc)
bytes_eq_iff (x ∷ xs) [] = (λ h. cc, λ h. cc)
bytes_eq_iff (x ∷ xs) (y ∷ ys) =
    (λ h. ground (arith, (bytes_eq_iff xs ys).0), λ h. ground (arith, (bytes_eq_iff xs ys).1))

frame_errors_self : (i : ℕ) (es : List Bytes) → frame_errors i es es ≡ []
unfolding frame_errors
frame_errors_self i [] = refl
frame_errors_self i (e ∷ es) = rw ((bytes_eq_iff e e).1 refl) (frame_errors_self (i + 1) es)

frame_errors-nil :
    (i : ℕ) (es os : List Bytes) → length os ≡ length es → frame_errors i es os ≡ [] → os ≡ es
unfolding frame_errors
frame_errors-nil i [] [] n h = refl
frame_errors-nil i [] (o ∷ os) n h = absurd (omega arith)
frame_errors-nil i (e ∷ es) [] n h = absurd (omega arith)
frame_errors-nil i (e ∷ es) (o ∷ os) n h = elim (Bool-cases (bytes_eq e o)) [
  | inl same ↦
      ap₂ ◌∷◌ (sym ((bytes_eq_iff e o).0 same))
        (frame_errors-nil (i + 1) es os (omega arith) (rw same at h))
  | inr other ↦ absurd (cc (rw other at h))
]

is_empty-append : (xs ys : List Message) → is_empty (xs ++ ys) ≡ true → (xs ≡ []) × (ys ≡ [])
is_empty-append [] [] h = (refl, refl)
is_empty-append [] (y ∷ ys) h = absurd (cc h)
is_empty-append (x ∷ xs) ys h = absurd (cc h)

count_errors-nil :
    (expected observed : List Bytes)
    → count_errors expected observed ≡ []
    → length observed ≡ length expected
unfolding count_errors
count_errors-nil expected observed h = ground arith

count_errors_self : (expected : List Bytes) → count_errors expected expected ≡ []
unfolding count_errors
count_errors_self expected = ground arith

no_errors :
    (old : List Message) (expected observed : List Bytes)
    → is_empty (old ++ (count_errors expected observed ++ frame_errors 0 expected observed)) ≡ true
    → (old ≡ []) × (observed ≡ expected)
no_errors old expected observed h =
    let (o, new) = is_empty-append old _ h in
    let (c, f) = is_empty-append (count_errors expected observed) _ (rw new refl) in
    (o, frame_errors-nil 0 expected observed (count_errors-nil expected observed c) f)

-- A check passes exactly if no earlier check left an error and the observed frames are the expected
-- ones, byte for byte and in order.
pub check_iff :
    (sb : Scoreboard) (observed : List Bytes)
    → ((check sb observed).1 ≡ true) ↔ ((sb.errors ≡ []) × (observed ≡ sb.expected))
unfolding check
check_iff sb observed = (
  no_errors sb.errors sb.expected observed,
  λ h. rw (h.0, h.1, count_errors_self sb.expected, frame_errors_self 0 sb.expected) refl,
)
