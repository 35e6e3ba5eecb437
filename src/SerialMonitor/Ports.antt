-- ===== src/SerialMonitor/Ports.antt =====
-- `find_arty_port` and `ping_command`.
use emac_zero.Base.{
  Bool, List, Option, [], false, if◌then◌else◌, leb, map, none, some, true, ℕ, ◌&&◌, ◌+◌, ◌-◌, ◌==◌,
  ◌||◌, ◌∷◌,
}
use emac_zero.Base.Text.{Line, codes}

-- What pyserial says of a port; the texts are lower case for the description.
pub record Port : Type 0 where
  pub vid : Option ℕ
  pub pid : Option ℕ
  pub serial_number : Option Line
  pub description : Option Line
  pub device : Line

-- s.startswith(prefix)
unfoldable pub starts_with : Line → Line → Bool
starts_with [] s = true
starts_with (p ∷ ps) [] = false
starts_with (p ∷ ps) (c ∷ cs) = (p == c) && starts_with ps cs

-- s.endswith("B")
unfoldable pub ends_with_b : Line → Bool
ends_with_b [] = false
ends_with_b (c ∷ []) = c == 66
ends_with_b (c ∷ d ∷ ds) = ends_with_b (d ∷ ds)

-- part in s
unfoldable pub contains : Line → Line → Bool
contains part [] = starts_with part []
contains part (c ∷ cs) = starts_with part (c ∷ cs) || contains part cs

-- s.lower() and s.upper(), for ASCII text
unfoldable pub lower : Line → Line
lower s = map (λ c. if leb 65 c && leb c 90 then c + 32 else c) s

unfoldable pub upper : Line → Line
upper s = map (λ c. if leb 97 c && leb c 122 then c - 32 else c) s

-- x or default, where x may be None
abbrev pub or_default : {A : Type 0} → Option A → A → A
or_default none d = d
or_default (some a) d = a

unfoldable pub is_digilent_b : Port → Bool
is_digilent_b p =
    (or_default p.vid 0 == 0x0403)
    && (or_default p.pid 0 == 0x6010)
    && ends_with_b (or_default p.serial_number [])

unfoldable pub is_ftdi : Port → Bool
is_ftdi p =
    let desc = lower (or_default p.description []) in
    (or_default p.vid 0 == 0x0403)
    || contains (codes "digilent") desc
    || contains (codes "ft2232") desc
    || contains (codes "usb serial") desc

-- The first port that passes a test.
unfoldable pub first_port : (Port → Bool) → List Port → Option Line
first_port test [] = none
first_port test (p ∷ ports) =
    let rest = first_port test ports in if test p then some p.device else rest

unfoldable pub find_arty_port : List Port → Option Line
find_arty_port ports = elim (first_port is_digilent_b ports) [
  | some d ↦ some d
  | none ↦ elim (first_port is_ftdi ports) [ some d ↦ some d | none ↦ first_port (λ p. true) ports ]
]
