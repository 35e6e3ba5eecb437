-- ===== src/Saf/Spec.antt =====
-- The policy of the transmit path, with no state machine: the byte stream is cut into runs at the
-- bytes marked last; a run goes out whole or cut to its first `max_frame` bytes; a run that the
-- stream leaves open goes out only if it has reached `max_frame` bytes.
use emac_zero.Base.{Bool, List, [], false, if◌then◌else◌, leb, length, take, true, ℕ, ◌++◌, ◌∷◌}
use emac_zero.Base.Py.{Bytes}
use emac_zero.Eth.{pad_payload}
use emac_zero.Saf.{run}

-- The frame of a run.
abbrev pub cut : ℕ → Bytes → Bytes
cut max_frame run = pad_payload (take max_frame run)

unfoldable pub wire_frames : ℕ → Bytes → List (ℕ × Bool) → List Bytes
wire_frames max_frame run [] = if leb max_frame (length run) then cut max_frame run ∷ [] else []
wire_frames max_frame run ((b, true) ∷ rest) =
    cut max_frame (run ++ b ∷ []) ∷ wire_frames max_frame [] rest
wire_frames max_frame run ((b, false) ∷ rest) = wire_frames max_frame (run ++ b ∷ []) rest
