-- ===== src/Tunnel/Arrives.antt =====
-- A tunnel whose breakdown returns carries frames: `breakdown_rule` of shared/L2TunnelPolicy.py with
-- the search for its path in sdxctlr/TopologyManager.py.
use atlanticwave_proto.Prelude.{
  String, Option, none, some, List, [], ◌∷◌, ◌≡◌, ap, subst, ◌∙◌, inl, inr, arith, false,
  Bool-cases, Option-cases, if◌then◌else◌,
}
use atlanticwave_proto.Prelude.Lists.{All, pairs}
use atlanticwave_proto.Prelude.Int.{ℤ}
use atlanticwave_proto.Prelude.Action.{
  Action, Result, ok, pure, or_raise, user_policy_error, network_x_no_path, action_returns,
  Result-cases, ◌>>=◌,
}
use atlanticwave_proto.Topology.Graph.{NetworkX}
use atlanticwave_proto.Topology.Graph.Laws.{IsLawful}
use atlanticwave_proto.Topology.Manager.{Manager}
use atlanticwave_proto.Topology.Find.{find_valid_path, find_vlan_on_path, try_paths, enough_bw}
use atlanticwave_proto.Rules.{Breakdown}
use atlanticwave_proto.Tunnel.{VlanTunnel, L2TunnelPolicy}
use atlanticwave_proto.Tunnel.Path.{path_rules}
use atlanticwave_proto.Tunnel.Route.{breakdown_rule, endpoint_of, path_for, vlan_for, with_rules}
use atlanticwave_proto.Tunnel.Delivery.{Delivered}
use atlanticwave_proto.Tunnel.Carries.{Joins, path_rules-Delivered}

or_raise-some :
    {S A : Type 0} (o : Option A) (x : _) (s : S) (a : A) → (or_raise o x s).0 ≡ ok a → o ≡ some a
or_raise-some none x s a e = ground (arith, e)
or_raise-some (some b) x s a e = cc

module _ (N : NetworkX) (P : List String → Type 0) (bandwidth : Option ℤ) where
  abbrev check_path :
      List String
      → Action (Manager N) (Option (List String))
      → Action (Manager N) (Option (List String))
  check_path path rest = do
    enough ← enough_bw N bandwidth (pairs path)
    if enough then pure (some path) else rest

  abbrev path_in : Result (Option (List String)) × Manager N → List String
  path_in (ok (some path), m) = path
  path_in _ = []

  checked-All :
      (path : List String) (rest : Action (Manager N) (Option (List String))) (m m' : Manager N)
      (result : List String)
      → P path
      → ((n : Manager N) → rest n ≡ (ok (some result), m') → P result)
      → check_path path rest m ≡ (ok (some result), m')
      → P result
  checked-All path rest m m' result here later e =
      let (enough, h, e1) =
        action_returns (enough_bw N bandwidth (pairs path))
          (λ enough. if enough then pure (some path) else rest) m (some result) m' e in
      elim (Bool-cases enough) [
        | inl full ↦
            subst P
              (ap path_in (
                subst
                  (λ b.
                    (if b then pure (some path) else rest) (enough_bw N bandwidth (pairs path) m).1
                    ≡ (ok (some result), m'))
                  full e1))
              here
        | inr short ↦ later (enough_bw N bandwidth (pairs path) m).1 (
            subst
              (λ b.
                (if b then pure (some path) else rest) (enough_bw N bandwidth (pairs path) m).1
                ≡ (ok (some result), m'))
              short e1)
      ]

  abbrev try_vlan :
      List String
      → Action (Manager N) (Option (List String))
      → Option ℤ
      → Action (Manager N) (Option (List String))
  try_vlan path rest vlan = elim vlan [ none ↦ rest | some _ ↦ check_path path rest ]

  tried-All :
      (path : List String) (rest : Action (Manager N) (Option (List String))) (vlan : Option ℤ)
      (m m' : Manager N) (result : List String)
      → P path
      → ((n : Manager N) → rest n ≡ (ok (some result), m') → P result)
      → try_vlan path rest vlan m ≡ (ok (some result), m')
      → P result
  tried-All path rest none m m' result here later e = later m e
  tried-All path rest (some v) m m' result here later e =
      checked-All path rest m m' result here later e

  -- A path that the search returns is one of those that it looks at.
  pub try_paths-All :
      (paths : List (List String)) (m m' : Manager N) (path : List String)
      → All P paths
      → try_paths N bandwidth false paths m ≡ (ok (some path), m')
      → P path
  unfolding try_paths
  try_paths-All [] m m' path all e = ground (arith, e)
  try_paths-All (whole ∷ paths) m m' path all e =
      let rest = try_paths N bandwidth false paths in
      let (vlan, h, e1) =
        action_returns (find_vlan_on_path N whole) (try_vlan whole rest) m (some path) m' e in
      tried-All whole rest vlan (find_vlan_on_path N whole m).1 m' path all.0
        (λ n h'. try_paths-All paths n m' path all.1 h') e1

-- The search for a path, in a topology in which the shortest paths between two switches join them.
find_valid_path-Joins :
    (N : NetworkX) (src dst : String) (bandwidth : Option ℤ) (m m' : Manager N) (path : List String)
    → ((paths : List (List String))
        → N.all_shortest_paths m.topo src dst ≡ some paths
        → All (Joins src dst) paths)
    → find_valid_path N src dst bandwidth false m ≡ (ok (some path), m')
    → Joins src dst path
unfolding find_valid_path
find_valid_path-Joins N src dst bandwidth m m' path joined e =
    elim (Option-cases (N.all_shortest_paths m.topo src dst)) [
      | inl h ↦ ground (arith, e)
      | inr (paths, h) ↦
          try_paths-All N (Joins src dst) bandwidth paths m m' path (joined paths h) (
            subst
              (λ o.
                (or_raise o network_x_no_path >>= try_paths N bandwidth false) m
                ≡ (ok (some path), m'))
              h e)
    ]

returned : {S A : Type 0} (r : Result A × S) (a : A) → r.0 ≡ ok a → r ≡ (ok a, r.1)
returned r a e = ap (λ x. (x, r.1)) e

module _ {N : NetworkX} (policy : L2TunnelPolicy N) where
  with_rules-Delivered :
      IsLawful N
      → (fullpath : List String) (vlan : ℤ) (endpoints : List (String × Option String × ℤ))
        (m m' : Manager N) (after : L2TunnelPolicy N)
      → Joins policy.src.switch policy.dst.switch fullpath
      → with_rules policy fullpath vlan endpoints m ≡ (ok after, m')
      → (bds : List (Breakdown VlanTunnel)) × (after.breakdown ≡ some bds)
        × Delivered N m'.topo bds policy.src.switch policy.src.port policy.src.vlan policy.dst
  with_rules-Delivered L fullpath vlan endpoints m m' after joins e =
      elim (Result-cases
        (path_rules N m.topo policy.src policy.dst vlan policy.bandwidth fullpath)) [
          | inr (x, h) ↦ ground (arith, e)
          | inl (bds, h) ↦
              let same : m ≡ m' = ground (arith, e, h) in
              (
                bds,
                ground (arith, e, h),
                subst
                    (λ (n : Manager N).
                      Delivered N n.topo bds policy.src.switch policy.src.port policy.src.vlan
                        policy.dst)
                    same
                    (path_rules-Delivered N m.topo L policy.src policy.dst vlan policy.bandwidth
                      fullpath joins bds h),
              )
        ]

  path_for-Joins :
      (m : Manager N) (fullpath : List String)
      → ((paths : List (List String))
          → N.all_shortest_paths m.topo policy.src.switch policy.dst.switch ≡ some paths
          → All (Joins policy.src.switch policy.dst.switch) paths)
      → (path_for policy m).0 ≡ ok fullpath
      → Joins policy.src.switch policy.dst.switch fullpath
  path_for-Joins m fullpath joined e =
      let search =
        find_valid_path N policy.src.switch policy.dst.switch (some policy.bandwidth) false in
      let (found, h, e1) =
        action_returns search (λ found. or_raise found user_policy_error) m fullpath
          (path_for policy m).1 (returned (path_for policy m) fullpath e) in
      find_valid_path-Joins N policy.src.switch policy.dst.switch (some policy.bandwidth) m
        (search m).1 fullpath joined
        (returned (search m) (some fullpath) (
          h
          ∙ ap ok (or_raise-some found user_policy_error (search m).1 fullpath (ap (λ x. x.0) e1))))

  -- Over a lawful graph whose shortest paths join their ends, when `breakdown_rule` returns, its rules
  -- deliver a frame that enters at the source's port and VLAN at the destination's port and VLAN.
  pub breakdown_rule-Delivered :
      IsLawful N
      → (m m' : Manager N) (after : L2TunnelPolicy N)
      → ((paths : List (List String))
          → N.all_shortest_paths m.topo policy.src.switch policy.dst.switch ≡ some paths
          → All (Joins policy.src.switch policy.dst.switch) paths)
      → breakdown_rule policy m ≡ (ok after, m')
      → (bds : List (Breakdown VlanTunnel)) × (after.breakdown ≡ some bds)
        × Delivered N m'.topo bds policy.src.switch policy.src.port policy.src.vlan policy.dst
  unfolding breakdown_rule
  breakdown_rule-Delivered L m m' after joined e =
      let (fullpath, found, e1) =
        action_returns (path_for policy)
          (λ fullpath. do
            vlan ← vlan_for fullpath
            src_endpoint ← endpoint_of policy.src
            dst_endpoint ← endpoint_of policy.dst
            with_rules policy fullpath vlan (src_endpoint ∷ dst_endpoint ∷ []))
          m after m' e in
      let (vlan, free, e2) =
        action_returns (vlan_for {N = N} fullpath)
          (λ vlan. do
            src_endpoint ← endpoint_of policy.src
            dst_endpoint ← endpoint_of policy.dst
            with_rules policy fullpath vlan (src_endpoint ∷ dst_endpoint ∷ []))
          (path_for policy m).1 after m' e1 in
      let m2 = (vlan_for {N = N} fullpath (path_for policy m).1).1 in
      let (src_endpoint, src_found, e3) =
        action_returns (endpoint_of {N = N} policy.src)
          (λ src_endpoint. do
            dst_endpoint ← endpoint_of policy.dst
            with_rules policy fullpath vlan (src_endpoint ∷ dst_endpoint ∷ []))
          m2 after m' e2 in
      let m3 = (endpoint_of {N = N} policy.src m2).1 in
      let (dst_endpoint, dst_found, e4) =
        action_returns (endpoint_of {N = N} policy.dst)
          (λ dst_endpoint. with_rules policy fullpath vlan (src_endpoint ∷ dst_endpoint ∷ [])) m3
          after m' e3 in
      with_rules-Delivered L fullpath vlan (src_endpoint ∷ dst_endpoint ∷ [])
        (endpoint_of {N = N} policy.dst m3).1 m' after (path_for-Joins m fullpath joined found) e4
