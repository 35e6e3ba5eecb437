-- ===== src/Base/Py.antt =====
-- Python: exceptions as values, and `bytes` / `bytearray` operations on lists of numbers.
use Prim.Native.Nat.{◌<◌, ℕ, ◌+◌, ◌-◌, ◌*◌, ◌/◌, ◌%◌, ◌^◌, max}
use mathlib.Core.Path.{◌≡◌, refl}
use mathlib.Core.Bool.{Bool, true, false}
use mathlib.Core.List.{List, [], ◌∷◌, ◌++◌}
use emac_zero.Base.Lists.{drop, length, set, take}
use emac_zero.Base.Tests.{if◌then◌else◌, leb, ltb, lt→ltb}

abbrev pub Bytes : Type 0
Bytes = List ℕ

-- The exceptions that the modelled code raises.
pub data PyError : Type 0 where
  overflow_error value_error index_error key_error attribute_error : PyError
  assertion_error runtime_error os_error system_exit wrong_build : PyError

-- A value, or the exception that was raised.
pub data Result {ℓ} (R : Type ℓ) : Type ℓ where
  ok : R → Result R
  err : PyError → Result R

infixl 5 ◌>>=◌
abbrev pub ◌>>=◌ {ℓ κ} : {R : Type ℓ} {S : Type κ} → Result R → (R → Result S) → Result S
ok value >>= next = next value
err e >>= next = err e

-- assert c
abbrev pub check_that : Bool → Result (Unit {0})
check_that true = ok tt
check_that false = err assertion_error

infixl 5 ◌>>◌
abbrev pub ◌>>◌ {ℓ} : {S : Type ℓ} → Result (Unit {0}) → Result S → Result S
step >> rest = step >>= λ _. rest

-- n.to_bytes(2, "big")
unfoldable pub to_bytes2 : ℕ → Result Bytes
to_bytes2 n = if ltb n (2 ^ 16) then ok (n / 2 ^ 8 ∷ n % 2 ^ 8 ∷ []) else err overflow_error

-- n.to_bytes(4, "big")
unfoldable pub to_bytes4 : ℕ → Result Bytes
to_bytes4 n =
    if ltb n (2 ^ 32)
    then ok (n / 2 ^ 24 ∷ n / 2 ^ 16 % 2 ^ 8 ∷ n / 2 ^ 8 % 2 ^ 8 ∷ n % 2 ^ 8 ∷ [])
    else err overflow_error

pub to_bytes2_lem : (n : ℕ) → n < 2 ^ 16 → to_bytes2 n ≡ ok (n / 2 ^ 8 ∷ n % 2 ^ 8 ∷ [])
unfolding to_bytes2
to_bytes2_lem n h = rw (lt→ltb n (2 ^ 16) h) refl

-- int.from_bytes(xs, "big")
abbrev pub from_bytes : ℕ → Bytes → ℕ
from_bytes acc [] = acc
from_bytes acc (b ∷ bs) = from_bytes (acc * 2 ^ 8 + b) bs

-- A number that is stored into a bytearray, or put into `bytes([…])`.
unfoldable pub as_byte : ℕ → Result ℕ
as_byte n = if ltb n 256 then ok n else err value_error

-- xs[i] = v
unfoldable pub store : Bytes → ℕ → ℕ → Result Bytes
unfolding as_byte
store xs i v = if ltb i (length xs) then (as_byte v >>= λ b. ok (set xs i b)) else err index_error

pub as_byte_lem : (n : ℕ) → n < 256 → as_byte n ≡ ok n
unfolding as_byte
as_byte_lem n h = rw (lt→ltb n 256 h) refl

pub store_lem : (xs : Bytes) (i v : ℕ) → i < length xs → v < 256 → store xs i v ≡ ok (set xs i v)
unfolding store
store_lem xs i v h k = rw (lt→ltb i (length xs) h, lt→ltb v 256 k) refl

-- xs[i:j]
abbrev pub slice : Bytes → ℕ → ℕ → Bytes
slice xs i j = take (j - i) (drop i xs)

-- xs[i:j] = ys
abbrev pub store_slice : Bytes → ℕ → ℕ → Bytes → Bytes
store_slice xs i j ys = take i xs ++ (ys ++ drop (max i j) xs)

-- xs[:len(xs) - n]: past the start, a negative end counts from the end once more.
abbrev pub cut_end : Bytes → ℕ → Bytes
cut_end xs n =
    let end = if leb n (length xs) then length xs - n else length xs - (n - length xs) in
    take end xs

-- n.to_bytes(4, "little"), for n below 2 ** 32
abbrev pub le_bytes4 : ℕ → Bytes
le_bytes4 n = n % 2 ^ 8 ∷ n / 2 ^ 8 % 2 ^ 8 ∷ n / 2 ^ 16 % 2 ^ 8 ∷ n / 2 ^ 24 % 2 ^ 8 ∷ []

-- int.from_bytes(xs, "little")
abbrev pub from_bytes_little : Bytes → ℕ
from_bytes_little [] = 0
from_bytes_little (b ∷ bs) = b + from_bytes_little bs * 2 ^ 8

-- A step of a successful block succeeded.
pub bind_ok {ℓ κ} :
    {R : Type ℓ} {S : Type κ} (first : Result R) (next : R → Result S) {out : S}
    → first >>= next ≡ ok out
    → (value : R) × (first ≡ ok value) × (next value ≡ ok out)
bind_ok (ok value) next h = (value, refl, h)
bind_ok (err e) next h = cc

pub ok-injective {ℓ} : {A : Type ℓ} {a b : A} → ok a ≡ ok b → a ≡ b
ok-injective h = cc
