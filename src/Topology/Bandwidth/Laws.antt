-- ===== src/Topology/Bandwidth/Laws.antt =====
-- `reserve_bw` and `unreserve_bw` (sdxctlr/TopologyManager.py): when they succeed and what they do.
use atlanticwave_proto.Prelude.{
  String, ℕ, Option, zero, suc, none, some, List, arith, ◌≡◌, ◌↔◌, refl, ◌∙◌,
}
use atlanticwave_proto.Prelude.Lists.{All, All-map}
use atlanticwave_proto.Prelude.Int.{
  ℤ, pos, ◌+ℤ◌, ◌-ℤ◌, ◌≤ℤ◌, +ℤ_assoc, +ℤ_comm, +ℤ_zero, -ℤ_zero, -ℤ_sub,
}
use atlanticwave_proto.Prelude.Action.{Exception, ok, err}
use atlanticwave_proto.Topology.Graph.{EdgeAttrs, NetworkX}
use atlanticwave_proto.Topology.Graph.Laws.{IsLawful}
use atlanticwave_proto.Topology.Manager.{Manager}
use atlanticwave_proto.Topology.Loops.{times, after, Frame}
use atlanticwave_proto.Topology.Loops.Guarded.{guarded_atomic, guarded-iff-Passes, guarded_effect}
use atlanticwave_proto.Topology.Bandwidth.{
  has_bw, add_bw, holds_bw, subtract_bw, reserve_bw, unreserve_bw,
}

-- `k` times an amount.
abbrev pub scale : ℕ → ℤ → ℤ
scale zero b = pos 0
scale (suc k) b = scale k b +ℤ b

-- An edge that holds `k` more, or `k` fewer, reservations of `bw`.
abbrev pub charged : ℤ → ℕ → Option EdgeAttrs → Option EdgeAttrs
charged bw k none = none
charged bw k (some e) = some (record e { bw_in_use = e.bw_in_use +ℤ scale k bw })

abbrev pub released : ℤ → ℕ → Option EdgeAttrs → Option EdgeAttrs
released bw k none = none
released bw k (some e) = some (record e { bw_in_use = e.bw_in_use -ℤ scale k bw })

after-add_bw : (bw : ℤ) (k : ℕ) (o : Option EdgeAttrs) → after (add_bw bw) k o ≡ charged bw k o
after-add_bw bw zero none = refl
after-add_bw bw (suc k) none = refl
after-add_bw bw zero (some e) = rw +ℤ_zero
after-add_bw bw (suc k) (some e) =
    after-add_bw bw k _ ∙ rw (+ℤ_assoc e.bw_in_use bw (scale k bw), +ℤ_comm bw (scale k bw))

after-subtract_bw :
    (bw : ℤ) (k : ℕ) (o : Option EdgeAttrs) → after (subtract_bw bw) k o ≡ released bw k o
after-subtract_bw bw zero none = refl
after-subtract_bw bw (suc k) none = refl
after-subtract_bw bw zero (some e) = rw -ℤ_zero
after-subtract_bw bw (suc k) (some e) = after-subtract_bw bw k _ ∙ rw -ℤ_sub

-- There is an edge, and it has room for `bw`.
abbrev pub HasRoom : ℤ → Option EdgeAttrs → Type 0
HasRoom bw o = (e : EdgeAttrs) × (o ≡ some e) × (e.bw_in_use +ℤ bw ≤ℤ e.weight)

-- There is an edge, and at least `bw` of it is in use.
abbrev pub Holds : ℤ → Option EdgeAttrs → Type 0
Holds bw o = (e : EdgeAttrs) × (o ≡ some e) × (bw ≤ℤ e.bw_in_use)

module _ (N : NetworkX) (L : IsLawful N) (ps : List (String × String)) (bw : ℤ)
    (m : Manager N) where
  -- A reservation of bandwidth that raises leaves the whole manager as it was.
  pub reserve_bw_atomic :
      (x : Exception) → (reserve_bw N ps bw m).0 ≡ err x → (reserve_bw N ps bw m).1 ≡ m
  unfolding reserve_bw
  reserve_bw_atomic = guarded_atomic N L (has_bw bw) _ ps m

  -- It succeeds exactly when every pair is an edge with room for the bandwidth.
  pub reserve_bw-iff-HasRoom :
      ((reserve_bw N ps bw m).0 ≡ ok tt) ↔ All (λ p. HasRoom bw (N.edge m.topo p.0 p.1)) ps
  unfolding reserve_bw
  reserve_bw-iff-HasRoom =
      let passes = guarded-iff-Passes N L (has_bw bw) _ ps m in
      (
        λ h. All-map (λ p (e, there, t). (e, there, ground arith)) ps (passes.0 h),
        λ h. passes.1 (All-map (λ p (e, there, t). (e, there, ground arith)) ps h),
      )

  -- It adds the bandwidth to each edge as often as the pairs name it, and changes nothing else.
  pub reserve_bw_effect :
      (reserve_bw N ps bw m).0 ≡ ok tt
      → let m' = (reserve_bw N ps bw m).1 in
        ((c d : String) → N.edge m'.topo c d ≡ charged bw (times ps c d) (N.edge m.topo c d))
        × ((n : String) → N.node m'.topo n ≡ N.node m.topo n)
        × Frame N m' m
  unfolding reserve_bw
  reserve_bw_effect h =
      let (edges, nodes, frame) = guarded_effect N L (has_bw bw) _ ps m h in
      ((λ c d. edges c d ∙ after-add_bw bw (times ps c d) _), nodes, frame)

  -- A release of bandwidth that raises leaves the whole manager as it was.
  pub unreserve_bw_atomic :
      (x : Exception) → (unreserve_bw N ps bw m).0 ≡ err x → (unreserve_bw N ps bw m).1 ≡ m
  unfolding unreserve_bw
  unreserve_bw_atomic = guarded_atomic N L (holds_bw bw) _ ps m

  -- It succeeds exactly when every pair is an edge on which so much is in use.
  pub unreserve_bw-iff-Holds :
      ((unreserve_bw N ps bw m).0 ≡ ok tt) ↔ All (λ p. Holds bw (N.edge m.topo p.0 p.1)) ps
  unfolding unreserve_bw
  unreserve_bw-iff-Holds =
      let passes = guarded-iff-Passes N L (holds_bw bw) _ ps m in
      (
        λ h. All-map (λ p (e, there, t). (e, there, ground arith)) ps (passes.0 h),
        λ h. passes.1 (All-map (λ p (e, there, t). (e, there, ground arith)) ps h),
      )

  pub unreserve_bw_effect :
      (unreserve_bw N ps bw m).0 ≡ ok tt
      → let m' = (unreserve_bw N ps bw m).1 in
        ((c d : String) → N.edge m'.topo c d ≡ released bw (times ps c d) (N.edge m.topo c d))
        × ((n : String) → N.node m'.topo n ≡ N.node m.topo n)
        × Frame N m' m
  unfolding unreserve_bw
  unreserve_bw_effect h =
      let (edges, nodes, frame) = guarded_effect N L (holds_bw bw) _ ps m h in
      ((λ c d. edges c d ∙ after-subtract_bw bw (times ps c d) _), nodes, frame)
