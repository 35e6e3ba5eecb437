-- ===== src/FrameGen/Sizes.antt =====
-- The corner sizes: each once, in order, and none but those of the list.
use emac_zero.Base.{
  Bool-cases, List, [], arith, false, inl, inr, leb, ◌*◌, ◌+◌, ltb, ℕ, ◌<◌, ◌==◌, ◌∷◌, ◌↔◌, ◌≡◌,
  ◌≤◌, ◌⊎◌,
}
use emac_zero.FrameGen.{boundary_sizes, corners, insert_sorted, sorted_sizes}

-- Strictly ascending, from above `low` on.
abbrev pub IsAbove : ℕ → List ℕ → Type 0
IsAbove low [] = Unit {0}
IsAbove low (x ∷ xs) = (low < x) × IsAbove x xs

abbrev pub Among : ℕ → List ℕ → Type 0
Among x [] = ⊥
Among x (y ∷ ys) = (x ≡ y) ⊎ Among x ys

insert_sorted-IsAbove :
    (low x : ℕ) (ys : List ℕ) → low < x → IsAbove low ys → IsAbove low (insert_sorted x ys)
unfolding insert_sorted
insert_sorted-IsAbove low x [] h a = (h, tt)
insert_sorted-IsAbove low x (y ∷ ys) h a = elim (Bool-cases (ltb x y)) [
  | inl l ↦ rw l (h, (ground arith, a.1))
  | inr n ↦ elim (Bool-cases (x == y)) [
    | inl e ↦ rw (n, e) a
    | inr m ↦ rw (n, m) (a.0, insert_sorted-IsAbove y x ys (ground arith) a.1)
  ]
]

insert_sorted-Among :
    (k x : ℕ) (ys : List ℕ) → Among k (insert_sorted x ys) ↔ ((k ≡ x) ⊎ Among k ys)
unfolding insert_sorted
insert_sorted-Among k x [] = ((λ h. h), (λ h. h))
insert_sorted-Among k x (y ∷ ys) = elim (Bool-cases (ltb x y)) [
  | inl l ↦ rw l ((λ h. h), (λ h. h))
  | inr n ↦ elim (Bool-cases (x == y)) [
    | inl e ↦
        let same : x ≡ y = ground arith in rw (n, e) ((λ h. inr h), (λ h. first k x y ys same h))
    | inr m ↦
        let ih = insert_sorted-Among k x ys in
        rw (n, m) ((λ h. swap k x y ys ih.0 h), (λ h. back k x y ys ih.1 h))
  ]
]
  where
    first :
        (k x y : ℕ) (ys : List ℕ) → x ≡ y → (k ≡ x) ⊎ ((k ≡ y) ⊎ Among k ys) → (k ≡ y) ⊎ Among k ys
    first k x y ys e (inl h) = inl (omega arith)
    first k x y ys e (inr h) = h

    swap :
        (k x y : ℕ) (ys : List ℕ) {B : Type 0}
        → (B → (k ≡ x) ⊎ Among k ys)
        → (k ≡ y) ⊎ B
        → (k ≡ x) ⊎ ((k ≡ y) ⊎ Among k ys)
    swap k x y ys f (inl h) = inr (inl h)
    swap k x y ys f (inr h) = elim (f h) [ inl a ↦ inl a | inr a ↦ inr (inr a) ]

    back :
        (k x y : ℕ) (ys : List ℕ) {B : Type 0}
        → ((k ≡ x) ⊎ Among k ys → B)
        → (k ≡ x) ⊎ ((k ≡ y) ⊎ Among k ys)
        → (k ≡ y) ⊎ B
    back k x y ys f (inl h) = inr (f (inl h))
    back k x y ys f (inr (inl h)) = inl h
    back k x y ys f (inr (inr h)) = inr (f (inr h))

sorted_sizes-IsAbove : (xs : List ℕ) → IsAbove 0 (sorted_sizes xs)
unfolding sorted_sizes
sorted_sizes-IsAbove [] = tt
sorted_sizes-IsAbove (x ∷ xs) = elim (Bool-cases (leb 1 x)) [
  | inl y ↦
      rw y (insert_sorted-IsAbove 0 x (sorted_sizes xs) (ground arith) (sorted_sizes-IsAbove xs))
  | inr n ↦ rw n (sorted_sizes-IsAbove xs)
]

sorted_sizes-Among : (k : ℕ) (xs : List ℕ) → 1 ≤ k → Among k (sorted_sizes xs) ↔ Among k xs
unfolding sorted_sizes
sorted_sizes-Among k [] h = ((λ a. a), (λ a. a))
sorted_sizes-Among k (x ∷ xs) h = elim (Bool-cases (leb 1 x)) [
  | inl y ↦
      let ih = sorted_sizes-Among k xs h in
      let i = insert_sorted-Among k x (sorted_sizes xs) in
      rw y ((λ a. either k x ih.0 (i.0 a)), (λ a. i.1 (either k x ih.1 a)))
  | inr n ↦
      let ih = sorted_sizes-Among k xs h in
      rw n ((λ a. inr (ih.0 a)), (λ a. ih.1 (not_first k x h n a)))
]
  where
    either : (k x : ℕ) {A B : Type 0} → (A → B) → (k ≡ x) ⊎ A → (k ≡ x) ⊎ B
    either k x f (inl e) = inl e
    either k x f (inr a) = inr (f a)

    not_first : (k x : ℕ) {A : Type 0} → 1 ≤ k → leb 1 x ≡ false → (k ≡ x) ⊎ A → A
    not_first k x h n (inl e) = absurd (ground arith)
    not_first k x h n (inr a) = a

-- The sizes at which boundary logic breaks: the least, those about the least frame and about 64, the
-- limit of a frame and its neighbours, twice the limit, and the depth of the FIFO and its neighbours.
abbrev pub IsCorner : ℕ → ℕ → ℕ → Type 0
IsCorner max_frame fifo_bytes k =
    ((1 ≤ k) × (k ≤ 2))
    ⊎ (((59 ≤ k) × (k ≤ 61))
        ⊎ (((63 ≤ k) × (k ≤ 65))
            ⊎ (((max_frame ≤ k + 1) × (k ≤ max_frame + 1))
                ⊎ ((k ≡ 2 * max_frame) ⊎ ((fifo_bytes ≤ k + 1) × (k ≤ fifo_bytes + 1))))))

corners_iff :
    (max_frame fifo_bytes k : ℕ)
    → 1 ≤ k
    → Among k (corners max_frame fifo_bytes) ↔ IsCorner max_frame fifo_bytes k
corners_iff max_frame fifo_bytes k h = ((λ a. ground (arith, a, h)), (λ a. ground (arith, a, h)))

-- The corner sizes stand in ascending order, each once and none 0, and a size of 1 or more stands
-- among them exactly if it is 1 or 2, from 59 to 61, from 63 to 65, next to or at the limit of a frame,
-- twice the limit, or next to or at the depth of the FIFO.
pub boundary_sizes-IsAbove :
    (max_frame fifo_bytes k : ℕ)
    → 1 ≤ k
    → IsAbove 0 (boundary_sizes max_frame fifo_bytes)
      × (Among k (boundary_sizes max_frame fifo_bytes) ↔ IsCorner max_frame fifo_bytes k)
unfolding boundary_sizes
boundary_sizes-IsAbove max_frame fifo_bytes k h =
    let sorted = sorted_sizes-Among k (corners max_frame fifo_bytes) h in
    let listed = corners_iff max_frame fifo_bytes k h in
    (
      sorted_sizes-IsAbove (corners max_frame fifo_bytes),
      ((λ a. listed.0 (sorted.0 a)), (λ a. sorted.1 (listed.1 a))),
    )
