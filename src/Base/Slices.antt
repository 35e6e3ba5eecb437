-- ===== src/Base/Slices.antt =====
-- Slices of a bytearray that was written to in one place.
use mathlib.Core.Bool.{true}
use mathlib.Core.Path.{◌≡◌, refl, sym, ap, ◌∙◌}
use mathlib.Core.List.{List, [], ◌∷◌, ◌++◌, append_assoc}
use Prim.Native.Nat.{ℕ, zero, suc, ◌+◌, ◌-◌, ◌≤◌, max}
use native.Mathlib.Omega.{arith}
use emac_zero.Base.Lists.{
  drop, drop-all, drop-append, length, length-append, length-drop, length-take, take, take-all,
  take-append,
}
use emac_zero.Base.Predicates.{All-append, All-drop, All-take, IsBytes}
use emac_zero.Base.Py.{Bytes, cut_end, slice, store_slice}
use emac_zero.Base.Tests.{leb}

module _ {A : Type 0} where
  pub take_within :
      (j k : ℕ) (xs r : List A) → j ≤ k → k ≤ length xs → take j (take k xs ++ r) ≡ take j xs
  take_within zero k xs r h l = refl
  take_within (suc j) zero xs r h l = absurd (omega arith)
  take_within (suc j) (suc k) [] r h l = absurd (omega arith)
  take_within (suc j) (suc k) (x ∷ xs) r h l =
      ap (◌∷◌ x) (take_within j k xs r (omega arith) (omega arith))

  pub slice_within :
      (n i k : ℕ) (xs r : List A)
      → i + n ≤ k
      → k ≤ length xs
      → take n (drop i (take k xs ++ r)) ≡ take n (drop i xs)
  slice_within n zero k xs r h l = take_within n k xs r (omega arith) l
  slice_within n (suc i) zero xs r h l = absurd (omega arith)
  slice_within n (suc i) (suc k) [] r h l = absurd (omega arith)
  slice_within n (suc i) (suc k) (x ∷ xs) r h l =
      slice_within n i k xs r (omega arith) (omega arith)

  pub length-take_le : (n : ℕ) (xs : List A) → n ≤ length xs → length (take n xs) ≡ n
  length-take_le n xs h = omega (arith, length-take n xs)

pub drop-drop : (n i : ℕ) (xs : Bytes) → drop n (drop i xs) ≡ drop (i + n) xs
drop-drop n zero xs = let e : 0 + n ≡ n = omega arith in rw e refl
drop-drop n (suc i) [] =
    let e : suc i + n ≡ suc (i + n) = omega arith in rw e (drop-all n [] (omega arith))
drop-drop n (suc i) (x ∷ xs) =
    let e : suc i + n ≡ suc (i + n) = omega arith in rw e (drop-drop n i xs)

module _ (xs : Bytes) (i j : ℕ) (low : i ≤ j) (high : j ≤ length xs) where
  pub length-store_slice :
      (ys : Bytes) → i + length ys ≡ j → length (store_slice xs i j ys) ≡ length xs
  length-store_slice ys e = omega (
    arith,
    length-append (take i xs) (ys ++ drop (max i j) xs),
    length-append ys (drop (max i j) xs),
    length-drop (max i j) xs,
    length-take i xs,
  )

  -- What was written is read back.
  pub slice-store_slice : (ys : Bytes) → i + length ys ≡ j → slice (store_slice xs i j ys) i j ≡ ys
  slice-store_slice ys e =
      rw (drop-append i (take i xs) (ys ++ drop (max i j) xs) (length-take_le i xs (omega arith)))
        (take-append (j - i) ys (drop (max i j) xs) (omega arith))

  -- A second write to the same place replaces the first.
  pub store_slice_twice :
      (ys zs : Bytes)
      → i + length ys ≡ j
      → store_slice (store_slice xs i j ys) i j zs ≡ store_slice xs i j zs
  store_slice_twice ys zs e =
      let l : length (take i xs) ≡ i = length-take_le i xs (omega arith) in
      let m : max i j ≡ j = omega arith in
      let a : take i (take i xs ++ (ys ++ drop j xs)) ≡ take i xs =
        take-append i (take i xs) (ys ++ drop j xs) l in
      let b : drop j (take i xs ++ (ys ++ drop j xs)) ≡ drop j xs =
        ap (drop j) (sym (append_assoc (take i xs) ys (drop j xs)))
        ∙ drop-append j (take i xs ++ ys) (drop j xs)
            (omega (arith, length-append (take i xs) ys)) in
      rw m (rw (a, b) refl)

  -- A slice that ends before the place of the write is as it was.
  pub slice_before :
      (a b : ℕ) (ys : Bytes) → a ≤ b → b ≤ i → slice (store_slice xs i j ys) a b ≡ slice xs a b
  slice_before a b ys h k =
      slice_within (b - a) a i xs (ys ++ drop (max i j) xs) (omega arith) (omega arith)

-- The middle of three parts.
pub slice_middle :
    (xs ys zs : Bytes) (i j : ℕ)
    → length xs ≡ i
    → i + length ys ≡ j
    → slice (xs ++ (ys ++ zs)) i j ≡ ys
slice_middle xs ys zs i j h k =
    rw (drop-append i xs (ys ++ zs) h) (take-append (j - i) ys zs (omega arith))

pub store_slice-IsBytes :
    (xs : Bytes) (i j : ℕ) (ys : Bytes) → IsBytes xs → IsBytes ys → IsBytes (store_slice xs i j ys)
store_slice-IsBytes xs i j ys hx hy =
    All-append _ (take i xs) (ys ++ drop (max i j) xs) (All-take _ i xs hx)
      (All-append _ ys (drop (max i j) xs) hy (All-drop _ (max i j) xs hx))

-- A slice inside the middle part.
pub slice_inside :
    (xs ys zs : Bytes) (i a n : ℕ)
    → length xs ≡ i
    → a + n ≤ length ys
    → slice (xs ++ (ys ++ zs)) (i + a) (i + (a + n)) ≡ slice ys a (a + n)
slice_inside xs ys zs i a n h k =
    let d : drop (i + a) (xs ++ (ys ++ zs)) ≡ drop a (ys ++ zs) =
      sym (drop-drop a i (xs ++ (ys ++ zs))) ∙ ap (drop a) (drop-append i xs (ys ++ zs) h) in
    let w : take n (drop a (take (length ys) ys ++ zs)) ≡ take n (drop a ys) =
      slice_within n a (length ys) ys zs k (omega arith) in
    let t : take (length ys) ys ≡ ys = take-all (length ys) ys (omega arith) in
    let e1 : i + (a + n) - (i + a) ≡ n = omega arith in
    let e2 : a + n - a ≡ n = omega arith in rw (e1, e2, d) (rw t at w)

pub cut_none : (xs : Bytes) (n : ℕ) → n ≡ 0 → cut_end xs n ≡ xs
cut_none xs n e =
    let z : length xs - 0 ≡ length xs = omega arith in
    let l : leb 0 (length xs) ≡ true = ground arith in
    rw (e, l, z) (take-all (length xs) xs (omega arith))
