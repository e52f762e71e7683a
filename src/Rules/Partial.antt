-- ===== src/Rules/Partial.antt =====
-- What `_reserve_resources` of sdxctlr/RuleManager.py leaves when a resource cannot be reserved.
use atlanticwave_proto.Prelude.{List, [], ◌∷◌, ◌++◌, ◌≡◌, ◌∙◌, subst, sym, ap, ◌≢◌, inl, inr}
use atlanticwave_proto.Prelude.Action.{Action, Result-cases, ok, err, Exception}
use atlanticwave_proto.Topology.Graph.{NetworkX}
use atlanticwave_proto.Topology.Resources.{Resource, reserve_resource}
use atlanticwave_proto.Topology.Graph.Laws.{IsLawful}
use atlanticwave_proto.Topology.Resources.Release.{reserve_resource_atomic}
use atlanticwave_proto.Rules.{Outside, RuleManager}
use atlanticwave_proto.Rules.Install.{on_topology, reserve_resources}
use atlanticwave_proto.Rules.Keeps.{bind_ok, bind_err}

err-ne-ok : (y : Exception) → err y ≢ ok (tt {0})
err-ne-ok y e = cc

module _ {N : NetworkX} (O : Outside N) where
  abbrev rest_of : List (Resource N) → Unit {0} → Action (RuleManager O) (Unit {0})
  rest_of resources u = reserve_resources O resources

  reserve_resources_step :
      (q : Resource N) (resources : List (Resource N)) (rm : RuleManager O) (u : Unit {0})
      → (reserve_resource N q rm.topology).0 ≡ ok u
      → reserve_resources O (q ∷ resources) rm
        ≡ reserve_resources O resources (on_topology O (reserve_resource N q) rm).1
  unfolding reserve_resources
  reserve_resources_step q resources rm u e =
      bind_ok O (on_topology O (reserve_resource N q)) (rest_of resources) rm u e

  reserve_resources_stop :
      (q : Resource N) (resources : List (Resource N)) (rm : RuleManager O) (x : Exception)
      → (reserve_resource N q rm.topology).0 ≡ err x
      → reserve_resources O (q ∷ resources) rm
        ≡ (err x, (on_topology O (reserve_resource N q) rm).1)
  unfolding reserve_resources
  reserve_resources_stop q resources rm x e =
      bind_err O (on_topology O (reserve_resource N q)) (rest_of resources) rm x e

  -- Where the resources of a rule can be reserved up to one that raises, the call raises the same
  -- exception and the state is that of reserving the earlier ones alone: they stay reserved, and the
  -- later ones are not tried.
  pub reserve_resources_partial :
      IsLawful N
      → (resources : List (Resource N)) (r : Resource N) (later : List (Resource N))
        (rm : RuleManager O) (x : Exception)
      → (reserve_resources O resources rm).0 ≡ ok tt
      → (reserve_resource N r (reserve_resources O resources rm).1.topology).0 ≡ err x
      → reserve_resources O (resources ++ r ∷ later) rm
        ≡ (err x, (reserve_resources O resources rm).1)
  unfolding reserve_resources
  reserve_resources_partial L [] r later rm x reserved raised =
      reserve_resources_stop r later rm x raised
      ∙ ap (λ m. (err x, record rm { topology = m }))
          (reserve_resource_atomic N L rm.topology r x raised)
  reserve_resources_partial L (q ∷ resources) r later rm x reserved raised =
      elim (Result-cases (reserve_resource N q rm.topology).0) [
        | inl (u, e) ↦
            let step = reserve_resources_step q resources rm u e in
            reserve_resources_step q (resources ++ r ∷ later) rm u e
            ∙ reserve_resources_partial L resources r later
                (on_topology O (reserve_resource N q) rm).1 x
                (subst (λ p. p.0 ≡ ok tt) step reserved)
                (subst (λ p. (reserve_resource N r p.1.topology).0 ≡ err x) step raised)
            ∙ ap (λ p. (err x, p.1)) (sym step)
        | inr (y, e) ↦ absurd (
            err-ne-ok y
              (subst (λ p. p.0 ≡ ok tt) (reserve_resources_stop q resources rm y e) reserved))
      ]
