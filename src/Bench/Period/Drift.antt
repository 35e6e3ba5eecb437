-- ===== src/Bench/Period/Drift.antt =====
-- That the clock of mac_sys_b.py does not drift.
use native.Mathlib.Nat.{div-add-mod, mod-lt}
use emac_zero.Base.{
  ◌∙◌, Bool-cases, ap, arith, get_elem?, inl, inr, ltb, ltb→lt, refl, some, suc, zero, ℕ, ◌%◌, ◌*◌,
  ◌+◌, ◌-◌, ◌/◌, ◌<◌, ◌==◌, ◌≡◌, ◌≤◌, ◌⊎◌,
}
use emac_zero.Bench.Period.{clock_edges, clock_loop, round_half_even}

-- Rounding to the quotient where the remainder is at most half, and to the next number where it is
-- at least half.
round_half_even-cases :
    (a den : ℕ)
    → ((round_half_even a den ≡ a / den) × (2 * (a % den) ≤ den))
      ⊎ ((round_half_even a den ≡ a / den + 1) × (den ≤ 2 * (a % den)))
unfolding round_half_even
round_half_even-cases a den = elim (Bool-cases (ltb (2 * (a % den)) den)) [
  | inl y ↦ rw y (inl (refl, omega (arith, ltb→lt (2 * (a % den)) den y)))
  | inr n ↦ rw n (elim (Bool-cases (ltb den (2 * (a % den)))) [
    | inl y ↦ rw y (inr (refl, omega (arith, ltb→lt den (2 * (a % den)) y)))
    | inr m ↦ rw m (elim (Bool-cases (a / den % 2 == 0)) [
      | inl y ↦ rw y (inl (refl, ground (arith, n, m)))
      | inr z ↦ rw z (inr (refl, ground (arith, n, m)))
    ])
  ])
]

-- Nearer than half a step.
round_half_even-near :
    (a den : ℕ)
    → 0 < den
    → (2 * (den * round_half_even a den) ≤ 2 * a + den)
      × (2 * a ≤ 2 * (den * round_half_even a den) + den)
round_half_even-near a den d =
    let parts = div-add-mod a den in
    elim (round_half_even-cases a den) [
      | inl (e, l) ↦ rw e (omega (arith, parts, l), omega (arith, parts, l))
      | inr (e, l) ↦
          let whole : den * (a / den + 1) ≡ den * (a / den) + den = omega arith in
          let less : a % den < den = mod-lt a d in
          rw e (rw whole (omega (arith, parts, l, less), omega (arith, parts, l, less)))
    ]

not_swapped :
    (den x y a b : ℕ) → a < b → 2 * (den * x) ≤ 2 * a + den → 2 * b ≤ 2 * (den * y) + den → x ≤ y
not_swapped den x y a b l f g = elim (split x y) [
  | inl h ↦ h
  | inr (k, e) ↦
      let whole : den * (y + 1 + k) ≡ den * y + den + den * k = omega arith in
      let same : den * x ≡ den * (y + 1 + k) = ap (λ (t : ℕ). den * t) e in
      absurd (omega (arith, l, f, g, same, whole))
]
  where
    split : (x y : ℕ) → (x ≤ y) ⊎ ((k : ℕ) × (x ≡ y + 1 + k))
    split x y = elim (Bool-cases (ltb y x)) [
      | inl h ↦ inr (x - y - 1, omega (arith, ltb→lt y x h))
      | inr h ↦ inl (ground (arith, h))
    ]

round_half_even_mono :
    (a b den : ℕ) → 0 < den → a ≤ b → round_half_even a den ≤ round_half_even b den
round_half_even_mono a b den d l = elim (Bool-cases (ltb a b)) [
  | inl h ↦
      not_swapped den (round_half_even a den) (round_half_even b den) a b (ltb→lt a b h)
        (round_half_even-near a den d).0 (round_half_even-near b den d).1
  | inr h ↦
      let same : a ≡ b = ground (arith, h, l) in
      let e = ap (λ t. round_half_even t den) same in omega (arith, e)
]

none_left : (den x : ℕ) → 0 < den → 2 * (den * x) ≤ 2 * 0 + den → 0 ≡ x
none_left den zero d l = refl
none_left den (suc x) d l =
    let whole : den * suc x ≡ den * x + den = omega arith in absurd (omega (arith, d, l, whole))

waited_for :
    (num den n : ℕ) → 0 < den → round_half_even (n * num) den ≤ round_half_even ((n + 1) * num) den
waited_for num den n d =
    let more : n * num ≤ (n + 1) * num = grind arith in
    round_half_even_mono (n * num) ((n + 1) * num) den d more

-- The edges from the loop's `n` on, where the last one was on time.
clock_loop-at :
    (count num den n k : ℕ)
    → 0 < den
    → k < count
    → get_elem? (clock_loop count num den n (round_half_even (n * num) den)) k
      ≡ some (round_half_even ((n + k + 1) * num) den)
unfolding clock_loop
clock_loop-at zero num den n k d l = absurd (omega arith)
clock_loop-at (suc count) num den n zero d l =
    let ready = waited_for num den n d in
    let t = round_half_even (n * num) den in
    let nxt = round_half_even ((n + 1) * num) den in
    let waited : t + (nxt - t) ≡ nxt = omega (arith, ready) in
    let index : n + 1 ≡ n + 0 + 1 = omega arith in
    ap some (waited ∙ ap (λ (i : ℕ). round_half_even (i * num) den) index)
clock_loop-at (suc count) num den n (suc k) d l =
    let index : n + 1 + k + 1 ≡ n + suc k + 1 = omega arith in
    clock_loop-at count num den (n + 1) k d (omega (arith, l))
    ∙ ap (λ (i : ℕ). some (round_half_even (i * num) den)) index

-- Edge k of the clock, counted from 0, comes within half a simulator step of k + 1 half periods, for
-- every k: the rounding of an edge is not carried over to the next ones. Each edge waits from the one
-- before it.
pub clock_edges-near :
    (count num den k : ℕ)
    → 0 < den
    → k < count
    → (t : ℕ) × (get_elem? (clock_edges count num den) k ≡ some t)
      × (2 * (den * t) ≤ 2 * ((k + 1) * num) + den)
      × (2 * ((k + 1) * num) ≤ 2 * (den * t) + den)
unfolding clock_edges
clock_edges-near count num den k d l =
    let near = round_half_even-near ((k + 1) * num) den d in
    (
      round_half_even ((k + 1) * num) den,
      ap (λ (t : ℕ). get_elem? (clock_loop count num den 0 t) k) start
          ∙ clock_loop-at count num den 0 k d l
          ∙ ap (λ (i : ℕ). some (round_half_even (i * num) den)) index,
      near.0,
      near.1,
    )
  where
    start : 0 ≡ round_half_even (0 * num) den
    start =
        let zeroed : 0 * num ≡ 0 = omega arith in
        rw zeroed (none_left den (round_half_even 0 den) d (round_half_even-near 0 den d).0)

    index : 0 + k + 1 ≡ k + 1
    index = omega arith
