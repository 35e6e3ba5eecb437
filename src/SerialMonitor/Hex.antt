-- ===== src/SerialMonitor/Hex.antt =====
-- int(text, 16) and the test of the BMCR bits.
use emac_zero.Base.{
  Bool, Option, [], drop, false, if◌then◌else◌, leb, none, not, some, suc, true, zero, ℕ, ◌%◌, ◌&&◌,
  ◌*◌, ◌+◌, ◌-◌, ◌/◌, ◌==◌, ◌^◌, ◌∷◌,
}
use emac_zero.Base.Text.{Line, codes}
use emac_zero.SerialMonitor.Ports.{lower, starts_with}

unfoldable pub hex_digit : ℕ → Option ℕ
hex_digit c =
    if leb 48 c && leb c 57
    then some (c - 48)
    else if leb 65 c && leb c 70
    then some (c - 55)
    else if leb 97 c && leb c 102
    then some (c - 87)
    else none

-- Digits with single underscores between them; `prev` says that a digit stands before.
unfoldable pub hex_digits : Bool → ℕ → Line → Option ℕ
hex_digits prev acc [] = if prev then some acc else none
hex_digits prev acc (c ∷ cs) =
    let skipped = hex_digits false acc cs in
    elim (hex_digit c) [
      | none ↦ if prev && (c == 95) then skipped else none
      | some d ↦ hex_digits true (acc * 16 + d) cs
    ]

-- The digits after an optional "0x", which an underscore may follow.
unfoldable pub hex_number : Line → Option ℕ
hex_number line =
    if starts_with (codes "0x") (lower line)
    then (if starts_with (codes "_") (drop 2 line)
        then hex_digits false 0 (drop 3 line)
        else hex_digits false 0 (drop 2 line))
    else hex_digits false 0 line

-- The sign and the magnitude of int(text, 16), or a ValueError.
unfoldable pub parse_hex : Line → Option (Bool × ℕ)
parse_hex [] = none
parse_hex (c ∷ cs) =
    let minus : Option (Bool × ℕ) = elim (hex_number cs) [
      | none ↦ none
      | some n ↦ some (true, n)
    ] in
    let plus : Option (Bool × ℕ) = elim (hex_number cs) [
      | none ↦ none
      | some n ↦ some (false, n)
    ] in
    let bare : Option (Bool × ℕ) = elim (hex_number (c ∷ cs)) [
      | none ↦ none
      | some n ↦ some (false, n)
    ] in
    if c == 45 then minus else if c == 43 then plus else bare

-- value & (1 << k), of an integer in two's complement
unfoldable pub bit_set : Bool × ℕ → ℕ → Bool
bit_set (sign, zero) k = false
bit_set (false, suc n) k = suc n / 2 ^ k % 2 == 1
bit_set (true, suc n) k = n / 2 ^ k % 2 == 0

-- bmcr_val: -1 stands for a text that is no number
unfoldable pub bmcr_value : Line → Bool × ℕ
bmcr_value text = elim (parse_hex text) [ none ↦ (true, 1) | some v ↦ v ]

-- Autonegotiation enabled, power-down clear.
unfoldable pub bmcr_good : Line → Bool
bmcr_good text = bit_set (bmcr_value text) 12 && not (bit_set (bmcr_value text) 11)
