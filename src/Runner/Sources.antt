-- ===== src/Runner/Sources.antt =====
-- `vhdl_sources`, and that it names each file once.
use emac_zero.Base.{List, Option, [], if◌then◌else◌, ◌++◌, ◌∷◌}
use emac_zero.Base.Text.{Line, codes, same_text}
use emac_zero.Runner.{member}
use emac_zero.SerialMonitor.Ports.{or_default}

-- A Verilog source: the first part of its path, its path without the suffix, and its stem.
pub record Source : Type 0 where
  pub first_part : Line
  pub base : Line
  pub stem : Line

-- VHDL_EXTRA_DEPS.get(stem, [])
unfoldable pub extra_deps : Line → List Line
extra_deps stem =
    if same_text stem (codes "eth_mac_rx")
    then codes "rtl/vhdl/csum_calc.vhd" ∷ []
    else if same_text stem (codes "axilite_regs")
    then codes "rtl/vhdl/emz_version_pkg.vhd" ∷ []
    else []

unfoldable pub vhdl_name : Source → Line
vhdl_name s =
    if same_text s.first_part (codes "rtl")
    then codes "rtl/vhdl/" ++ (s.stem ++ codes ".vhd")
    else s.base ++ codes ".vhd"

unfoldable pub mapped_files : List Source → List Line
mapped_files [] = []
mapped_files (s ∷ sources) = extra_deps s.stem ++ (vhdl_name s ∷ mapped_files sources)

-- if f not in out: out.append(f)
unfoldable pub add_new : List Line → List Line → List Line
add_new out [] = out
add_new out (f ∷ files) = add_new (if member f out then out else out ++ (f ∷ [])) files

-- `vhdl_sources`; `target` is in lower case, and `given` is the suite's own "vhdl_sources".
unfoldable pub vhdl_sources : Line → Option (List Line) → List Source → List Line
vhdl_sources target given sources =
    add_new
      ((codes "rtl/vhdl/target/emz_target_" ++ (target ++ codes ".vhd"))
        ∷ codes "rtl/vhdl/emz_util_pkg.vhd"
        ∷ [])
      (or_default given (mapped_files sources))
