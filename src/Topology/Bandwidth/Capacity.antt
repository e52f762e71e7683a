-- ===== src/Topology/Bandwidth/Capacity.antt =====
-- No edge is ever oversubscribed, and a release undoes a reservation (`reserve_bw`, `unreserve_bw`
-- of sdxctlr/TopologyManager.py).
use atlanticwave_proto.Prelude.{
  String, ℕ, Option, zero, suc, none, some, List, arith, ◌≤◌, ◌≡◌, refl, ◌∙◌, ap, ◌≢◌, inl, inr,
  text_equality,
}
use atlanticwave_proto.Prelude.Lists.{All, All-map}
use atlanticwave_proto.Prelude.Int.{ℤ, pos, ◌+ℤ◌, ◌≤ℤ◌, int_laws, +ℤ_cancel}
use atlanticwave_proto.Prelude.Action.{ok, Result-cases}
use atlanticwave_proto.Topology.Graph.{EdgeAttrs, NetworkX}
use atlanticwave_proto.Topology.Graph.Laws.{IsLawful}
use atlanticwave_proto.Topology.Manager.{Manager}
use atlanticwave_proto.Topology.Loops.{times, Same, Frame-trans}
use atlanticwave_proto.Topology.Loops.Edges.{named_edge, All-named}
use atlanticwave_proto.Topology.Bandwidth.{reserve_bw, unreserve_bw}
use atlanticwave_proto.Topology.Bandwidth.Laws.{
  scale, charged, released, Holds, reserve_bw_atomic, reserve_bw-iff-HasRoom, reserve_bw_effect,
  unreserve_bw-iff-Holds, unreserve_bw_effect,
}

-- The bandwidth in use on an edge lies between 0 and the edge's bandwidth.
abbrev pub WithinAt : Option EdgeAttrs → Type 0
WithinAt none = Unit
WithinAt (some e) = (pos 0 ≤ℤ e.bw_in_use) × (e.bw_in_use ≤ℤ e.weight)

abbrev pub IsWithin : (N : NetworkX) → Manager N → Type 0
IsWithin N m = (c d : String) → WithinAt (N.edge m.topo c d)

scale_nonneg : (k : ℕ) (b : ℤ) → pos 0 ≤ℤ b → pos 0 ≤ℤ scale k b
scale_nonneg zero b h = omega arith
scale_nonneg (suc k) b h = omega (int_laws, scale_nonneg k b h)

scale_le : (k : ℕ) (b : ℤ) → pos 0 ≤ℤ b → k ≢ 0 → b ≤ℤ scale k b
scale_le zero b h named = absurd (named refl)
scale_le (suc k) b h named = omega (int_laws, scale_nonneg k b h)

-- An edge with room for `bw`; an edge that is there.
abbrev RoomAt : ℤ → Option EdgeAttrs → Type 0
RoomAt bw none = ⊥
RoomAt bw (some e) = e.bw_in_use +ℤ bw ≤ℤ e.weight

charged-WithinAt :
    (bw : ℤ) (k : ℕ) (o : Option EdgeAttrs)
    → pos 0 ≤ℤ bw
    → k ≤ 1
    → (k ≢ 0 → RoomAt bw o)
    → WithinAt o
    → WithinAt (charged bw k o)
charged-WithinAt bw k none h one room w = tt
charged-WithinAt bw zero (some e) h one room w = omega int_laws
charged-WithinAt bw (suc zero) (some e) h one room w =
    let fits = room (omega arith) in (omega int_laws, omega int_laws)
charged-WithinAt bw (suc (suc k)) (some e) h one room w = absurd (omega arith)

charged-Holds :
    (bw : ℤ) (k : ℕ) (o : Option EdgeAttrs)
    → pos 0 ≤ℤ bw
    → k ≢ 0
    → o ≢ none
    → WithinAt o
    → Holds bw (charged bw k o)
charged-Holds bw k none h named there w = absurd (there refl)
charged-Holds bw k (some e) h named there w =
    let least = scale_le k bw h named in
    (record e { bw_in_use = e.bw_in_use +ℤ scale k bw }, refl, omega int_laws)

released-charged : (bw : ℤ) (k : ℕ) (o : Option EdgeAttrs) → released bw k (charged bw k o) ≡ o
released-charged bw k none = refl
released-charged bw k (some e) = rw +ℤ_cancel

module _ (N : NetworkX) (L : IsLawful N) (ps : List (String × String)) (bw : ℤ)
    (m : Manager N) where
  room_at :
      (reserve_bw N ps bw m).0 ≡ ok tt
      → (c d : String) → times ps c d ≢ 0
      → RoomAt bw (N.edge m.topo c d)
  room_at fine = named_edge N L (RoomAt bw) m.topo ps (
      All-map (λ p (e, there, fits). rw there fits) ps
        ((reserve_bw-iff-HasRoom N L ps bw m).0 fine))

  -- Whether it succeeds or raises, a reservation whose pairs name each edge at most once keeps the
  -- bandwidth in use on every edge between 0 and the edge's bandwidth.
  pub reserve_bw-IsWithin :
      pos 0 ≤ℤ bw
      → ((c d : String) → times ps c d ≤ 1)
      → IsWithin N m
      → IsWithin N (reserve_bw N ps bw m).1
  reserve_bw-IsWithin h once w c d = elim (Result-cases (reserve_bw N ps bw m).0) [
    | inr (x, raised) ↦ rw (reserve_bw_atomic N L ps bw m x raised) (w c d)
    | inl (u, fine) ↦
        rw ((reserve_bw_effect N L ps bw m fine).0 c d)
          (charged-WithinAt bw (times ps c d) _ h (once c d) (room_at fine c d) (w c d))
  ]

  held :
      pos 0 ≤ℤ bw
      → IsWithin N m
      → (reserve_bw N ps bw m).0 ≡ ok tt
      → All (λ p. Holds bw (N.edge (reserve_bw N ps bw m).1.topo p.0 p.1)) ps
  held h w fine =
      All-map
        (λ p named. rw ((reserve_bw_effect N L ps bw m fine).0 p.0 p.1) (
          charged-Holds bw _ _ h named (λ gone. rw gone at (room_at fine p.0 p.1 named))
            (w p.0 p.1)))
        ps (All-named ps)

  -- A release right after a successful reservation succeeds and restores every edge and node.
  pub unreserve_bw-reserve_bw :
      pos 0 ≤ℤ bw
      → IsWithin N m
      → (reserve_bw N ps bw m).0 ≡ ok tt
      → let (r, m') = unreserve_bw N ps bw (reserve_bw N ps bw m).1 in (r ≡ ok tt) × Same N m' m
  unreserve_bw-reserve_bw h w fine =
      let m1 = (reserve_bw N ps bw m).1 in
      let ok_again = (unreserve_bw-iff-Holds N L ps bw m1).1 (held h w fine) in
      let (edges, nodes, frame) = reserve_bw_effect N L ps bw m fine in
      let (edges', nodes', frame') = unreserve_bw_effect N L ps bw m1 ok_again in
      (
        ok_again,
        record {
          nodes = λ n. nodes' n ∙ nodes n;
          edges = λ c d.
              edges' c d
              ∙ ap (released bw (times ps c d)) (edges c d)
              ∙ released-charged bw (times ps c d) _;
          frame = Frame-trans N frame' frame;
        },
      )
