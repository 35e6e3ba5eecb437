-- ===== src/Csum/Opts/Grammar.antt =====
-- The IPv4 option list of RFC 791 as a grammar: which lists hold a source route or a broken length,
-- and what one round of the walk says of them.
use native.Mathlib.Decide.{ℕ_discrete, dec_lt}
use emac_zero.Base.{
  ==-ne, [], arith, drop, false, if◌then◌else◌, inl, inr, ltb, lt→ltb, refl, ℕ, ◌<◌, ◌==◌, ◌||◌,
  ◌↔◌, ◌∷◌, ◌≡◌, ◌≢◌, ◌≤◌, ◌⊎◌,
}
use emac_zero.Base.Py.{Bytes}
use emac_zero.Csum.Opts.{lsrr, ssrr}

abbrev pub IsRoute : ℕ → Type 0
IsRoute t = (t ≡ lsrr) ⊎ (t ≡ ssrr)

abbrev pub IsPlain : ℕ → Type 0
IsPlain t = (t ≢ 0) × (t ≢ 1) × (t ≢ lsrr) × (t ≢ ssrr)

-- A list with a source route before its end, or with an option whose length cannot be stepped over.
pub data Skip : Bytes → Type 0 where
  route : (t : ℕ) (rest : Bytes) → IsRoute t → Skip (t ∷ rest)
  nop : (t : ℕ) (rest : Bytes) → t ≡ 1 → Skip rest → Skip (t ∷ rest)
  broken : (t n : ℕ) (rest : Bytes) → IsPlain t → n < 2 → Skip (t ∷ n ∷ rest)
  option :
      (t n : ℕ) (rest : Bytes)
      → IsPlain t
      → 2 ≤ n
      → Skip (drop n (t ∷ n ∷ rest))
      → Skip (t ∷ n ∷ rest)

-- One round, seen from the rest of the list.
pub data Round : Type 0 where
  stop found : Round
  advance : ℕ → Round

unfoldable pub look : Bytes → Round
look [] = stop
look (t ∷ []) =
    if t == 0
    then stop
    else if t == 1
    then advance 1
    else if (t == lsrr) || (t == ssrr)
    then found
    else stop
look (t ∷ n ∷ rest) =
    if t == 0
    then stop
    else if t == 1
    then advance 1
    else if (t == lsrr) || (t == ssrr)
    then found
    else if ltb n 2
    then found
    else advance n

-- What each outcome of a round means for the rest of the list.
abbrev pub Means : Bytes → Round → Type 0
Means xs stop = ¬ Skip xs
Means xs found = Skip xs
Means xs (advance k) = (0 < k) × (Skip xs ↔ Skip (drop k xs))

data Kind (t : ℕ) : Type 0 where
  end : t ≡ 0 → Kind t
  filler : t ≡ 1 → Kind t
  source : IsRoute t → Kind t
  plain : IsPlain t → Kind t

kind : (t : ℕ) → Kind t
kind t = elim (ℕ_discrete t 0) [
  | yes a ↦ end a
  | no a ↦ elim (ℕ_discrete t 1) [
    | yes b ↦ filler b
    | no b ↦ elim (ℕ_discrete t lsrr) [
      | yes c ↦ source (inl c)
      | no c ↦ elim (ℕ_discrete t ssrr) [ yes d ↦ source (inr d) | no d ↦ plain (a, b, c, d) ]
    ]
  ]
]

-- A list that is skipped, by its first bytes.
abbrev pub Tail : ℕ → Bytes → Type 0
Tail t [] = ⊥
Tail t (n ∷ rest) = (n < 2) ⊎ ((2 ≤ n) × Skip (drop n (t ∷ n ∷ rest)))

abbrev pub Inv : Bytes → Type 0
Inv [] = ⊥
Inv (t ∷ rest) = IsRoute t ⊎ ((t ≡ 1) × Skip rest) ⊎ (IsPlain t × Tail t rest)

pub Skip-Inv : {xs : Bytes} → Skip xs → Inv xs
Skip-Inv (route t rest r) = inl r
Skip-Inv (nop t rest e s) = inr (inl (e, s))
Skip-Inv (broken t n rest p l) = inr (inr (p, inl l))
Skip-Inv (option t n rest p l s) = inr (inr (p, inr (l, s)))

route_not : {t : ℕ} → IsRoute t → (t ≢ 0) × (t ≢ 1)
route_not (inl e) = omega arith
route_not (inr e) = omega arith

end_not_Inv : (t : ℕ) (rest : Bytes) → t ≡ 0 → ¬ Skip (t ∷ rest)
end_not_Inv t rest e s = elim (Skip-Inv s) [
  | inl r ↦ (route_not r).0 e
  | inr (inl (f, _)) ↦ omega arith
  | inr (inr (p, _)) ↦ p.0 e
]

nop_down : (t : ℕ) (rest : Bytes) → t ≡ 1 → Skip (t ∷ rest) → Skip rest
nop_down t rest e s = elim (Skip-Inv s) [
  | inl r ↦ absurd ((route_not r).1 e)
  | inr (inl (_, k)) ↦ k
  | inr (inr (p, _)) ↦ absurd (p.1 e)
]

plain_down : (t : ℕ) (rest : Bytes) → IsPlain t → Skip (t ∷ rest) → Tail t rest
plain_down t rest p s = elim (Skip-Inv s) [
  | inl (inl r) ↦ absurd (p.2 r)
  | inl (inr r) ↦ absurd (p.3 r)
  | inr (inl (e, _)) ↦ absurd (p.1 e)
  | inr (inr (_, k)) ↦ k
]

option_down :
    (t n : ℕ) (rest : Bytes)
    → IsPlain t
    → 2 ≤ n
    → Skip (t ∷ n ∷ rest)
    → Skip (drop n (t ∷ n ∷ rest))
option_down t n rest p l s = elim (plain_down t (n ∷ rest) p s) [
  | inl k ↦ absurd (omega arith)
  | inr (_, k) ↦ k
]

pub look-Means : (xs : Bytes) → Means xs (look xs)
unfolding look
look-Means [] = Skip-Inv
look-Means (t ∷ []) = elim (kind t) [
  | end e ↦ rw e (end_not_Inv 0 [] refl)
  | filler e ↦ rw e (omega arith, (nop_down 1 [] refl, nop 1 [] refl))
  | source (inl e) ↦ rw e (route lsrr [] (inl refl))
  | source (inr e) ↦ rw e (route ssrr [] (inr refl))
  | plain (a, b, c, d) ↦
      rw (==-ne t 0 a, ==-ne t 1 b, ==-ne t lsrr c, ==-ne t ssrr d) (plain_down t [] (a, b, c, d))
]
look-Means (t ∷ n ∷ rest) = elim (kind t) [
  | end e ↦ rw e (end_not_Inv 0 (n ∷ rest) refl)
  | filler e ↦ rw e (omega arith, (nop_down 1 (n ∷ rest) refl, nop 1 (n ∷ rest) refl))
  | source (inl e) ↦ rw e (route lsrr (n ∷ rest) (inl refl))
  | source (inr e) ↦ rw e (route ssrr (n ∷ rest) (inr refl))
  | plain (a, b, c, d) ↦
      rw (==-ne t 0 a, ==-ne t 1 b, ==-ne t lsrr c, ==-ne t ssrr d)
        (elim (dec_lt n 2) [
          | yes l ↦ rw (lt→ltb n 2 l) (broken t n rest (a, b, c, d) l)
          | no l ↦
              let m : 2 ≤ n = omega arith in
              let f : ltb n 2 ≡ false = ground arith in
              rw f
                (omega arith, (option_down t n rest (a, b, c, d) m, option t n rest (a, b, c, d) m))
        ])
]
