-- ===== src/Bench/Period/Edges.antt =====
-- That the edges of rgmii_tb.py are Verilog's: a rise of 0 < x < 1 is a posedge, a fall a negedge.
use emac_zero.Base.{List, [], if◌then◌else◌, ltb, refl, ℕ, ◌∷◌, ◌≡◌, ap}
use emac_zero.Bench.Period.{
  Level, NetEdge, high, is_high, is_low, low, negedge, posedge, same_level, unknown, watch_edges,
}

unfoldable pub rank : Level → ℕ
rank low = 0
rank unknown = 1
rank high = 2

-- The edges of a sequence of levels by their ranks.
unfoldable pub ranked : Level → List Level → List NetEdge
ranked prev [] = []
ranked prev (new ∷ news) =
    let rest = ranked new news in
    if ltb (rank prev) (rank new)
    then posedge ∷ rest
    else if ltb (rank new) (rank prev)
    then negedge ∷ rest
    else rest

-- The calls of on_pos and on_neg are the rises and the falls of the level, where x lies between 0
-- and 1.
pub watch_edges-ranked : (prev : Level) (vs : List Level) → watch_edges prev vs ≡ ranked prev vs
unfolding watch_edges ranked same_level is_low is_high rank
watch_edges-ranked prev [] = refl
watch_edges-ranked low (low ∷ vs) = watch_edges-ranked low vs
watch_edges-ranked low (unknown ∷ vs) = ap (◌∷◌ posedge) (watch_edges-ranked unknown vs)
watch_edges-ranked low (high ∷ vs) = ap (◌∷◌ posedge) (watch_edges-ranked high vs)
watch_edges-ranked unknown (low ∷ vs) = ap (◌∷◌ negedge) (watch_edges-ranked low vs)
watch_edges-ranked unknown (unknown ∷ vs) = watch_edges-ranked unknown vs
watch_edges-ranked unknown (high ∷ vs) = ap (◌∷◌ posedge) (watch_edges-ranked high vs)
watch_edges-ranked high (low ∷ vs) = ap (◌∷◌ negedge) (watch_edges-ranked low vs)
watch_edges-ranked high (unknown ∷ vs) = ap (◌∷◌ negedge) (watch_edges-ranked unknown vs)
watch_edges-ranked high (high ∷ vs) = watch_edges-ranked high vs
