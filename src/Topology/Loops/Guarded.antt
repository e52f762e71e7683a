-- ===== src/Topology/Loops/Guarded.antt =====
-- A loop that checks every pair of nodes and then a loop that rewrites every pair by a body that
-- does not raise: `reserve_bw` and `unreserve_bw` of sdxctlr/TopologyManager.py have this shape.
use atlanticwave_proto.Prelude.{
  String, ℕ, Option, zero, suc, none, some, List, ◌≡◌, ◌≢◌, ◌⊎◌, ◌↔◌, refl, ◌∙◌, ap, inl, inr,
}
use atlanticwave_proto.Prelude.Lists.{All, All-map}
use atlanticwave_proto.Prelude.Action.{Action, Exception, Result, ok, err, ◌>>◌, checked-cases}
use atlanticwave_proto.Topology.Graph.{EdgeAttrs, NetworkX}
use atlanticwave_proto.Topology.Graph.Laws.{IsLawful}
use atlanticwave_proto.Topology.Manager.{Manager}
use atlanticwave_proto.Topology.Loops.{times, after, update_edges, check_edges, Frame}
use atlanticwave_proto.Topology.Loops.Edges.{
  Passes, check_edges_same, check_edges-Passes, Passes-check_edges, update_edges_ok,
  update_edges_effect, update_edges_frame, update_edges-Frame, named_edge,
}

-- A body that never raises leaves an edge that is there in place.
after-total :
    (f : EdgeAttrs → EdgeAttrs) (k : ℕ) (o : Option EdgeAttrs)
    → o ≢ none
    → after (λ e. ok (f e)) k o ≢ none
after-total f zero o h = h
after-total f (suc k) none h = λ _. h refl
after-total f (suc k) (some e) h = after-total f k (some (f e)) (λ p. cc)

module _ (N : NetworkX) (L : IsLawful N) (test : EdgeAttrs → Result (Unit {0}))
    (f : EdgeAttrs → EdgeAttrs) (ps : List (String × String)) (m : Manager N) where
  abbrev guarded : Action (Manager N) (Unit {0})
  guarded = check_edges N test ps >> update_edges N (λ e. ok (f e)) ps

  -- Where every pair passes, the writing loop ends.
  updated : All (Passes N test m) ps → (update_edges N (λ e. ok (f e)) ps m).0 ≡ ok tt
  updated h =
      update_edges_ok N L (λ e. ok (f e)) ps m
        λ c d named. after-total f (times ps c d) _ (
          named_edge N L (λ o. o ≢ none) m.topo ps (All-map (λ p (e, there, _) gone. cc) ps h) c d
            named)

  -- The check refuses and nothing changes, or it passes and the writing loop ends.
  guarded-cases :
      ((x : Exception) × (guarded m ≡ (err x, m)) × ¬ All (Passes N test m) ps)
      ⊎ ((guarded m).0 ≡ ok tt)
        × All (Passes N test m) ps
        × (guarded m ≡ update_edges N (λ e. ok (f e)) ps m)
  guarded-cases =
      elim (checked-cases (check_edges N test ps) (update_edges N (λ e. ok (f e)) ps) m
        (check_edges_same N test ps m)) [
          | inl (x, raised, all) ↦ inl (x, all, λ h. cc (Passes-check_edges N test ps m h))
          | inr (passed, all) ↦
              let h = check_edges-Passes N test ps m passed in
              inr (ap (λ r. r.0) all ∙ updated h, h, all)
        ]

  pub guarded_atomic : (x : Exception) → (guarded m).0 ≡ err x → (guarded m).1 ≡ m
  guarded_atomic x h = elim guarded-cases [
    | inl (y, refused, _) ↦ ap (λ r. r.1) refused
    | inr (fine, _, _) ↦ cc
  ]

  pub guarded-iff-Passes : ((guarded m).0 ≡ ok tt) ↔ All (Passes N test m) ps
  guarded-iff-Passes = elim guarded-cases [
    | inl (y, refused, no_pass) ↦ (λ h. cc refused, λ h. absurd (no_pass h))
    | inr (fine, pass, _) ↦ (λ h. pass, λ h. fine)
  ]

  pub guarded_effect :
      (guarded m).0 ≡ ok tt
      → ((c d : String)
          → N.edge (guarded m).1.topo c d
            ≡ after (λ e. ok (f e)) (times ps c d) (N.edge m.topo c d))
        × ((n : String) → N.node (guarded m).1.topo n ≡ N.node m.topo n)
        × Frame N (guarded m).1 m
  guarded_effect h = elim guarded-cases [
    | inl (y, refused, _) ↦ absurd (cc refused)
    | inr (fine, pass, all) ↦ rw all (
      (λ c d. update_edges_effect N L (λ e. ok (f e)) ps m (updated pass) c d),
      update_edges_frame N L (λ e. ok (f e)) ps m,
      update_edges-Frame N L (λ e. ok (f e)) ps m,
    )
  ]
