-- ===== src/Topology/Graph/SameEdge.antt =====
-- Two pairs of ends that name one undirected edge.
use text.Mathlib.TextEquality.{eq_iff}
use atlanticwave_proto.Prelude.{String, true, ◌≡◌, ◌⊎◌, inl, inr, text_equality, arith}
use atlanticwave_proto.Topology.Graph.{same_edge}

-- `same_edge` is an equivalence.
pub same_edge-cases :
    (a b c d : String) → same_edge a b c d ≡ true → ((a ≡ c) × (b ≡ d)) ⊎ ((a ≡ d) × (b ≡ c))
unfolding same_edge
same_edge-cases a b c d h = ground (arith, eq_iff a c, eq_iff b d, eq_iff a d, eq_iff b c)

pub same_edge_self : (a b : String) → same_edge a b a b ≡ true
unfolding same_edge
same_edge_self a b = ground (arith, eq_iff a a, eq_iff b b)

pub same_edge_comm : (a b x y : String) → same_edge a b x y ≡ same_edge b a x y
unfolding same_edge
same_edge_comm a b x y = ground arith

pub same_edge_trans :
    (c d a b x y : String) → same_edge c d a b ≡ true → same_edge c d x y ≡ same_edge a b x y
same_edge_trans c d a b x y h = elim (same_edge-cases c d a b h) [
  | inl (p, q) ↦ rw (p, q)
  | inr (p, q) ↦ rw (p, q) (same_edge_comm b a x y)
]

pub same_edge_trans_right :
    (a b x y c d : String) → same_edge a b x y ≡ true → same_edge c d x y ≡ same_edge c d a b
unfolding same_edge
same_edge_trans_right a b x y c d h = elim (same_edge-cases a b x y h) [
  | inl (p, q) ↦ rw (p, q)
  | inr (p, q) ↦ rw (p, q) (ground arith)
]
