-- ===== src/Multipoint/Covers.antt =====
-- Which nodes get a rule from `breakdown_rule` of shared/L2MultipointPolicy.py.
use atlanticwave_proto.Prelude.{
  suc, String, List, [], ◌∷◌, ◌++◌, map, ◌≡◌, refl, sym, ap, subst, ◌∙◌, inl, inr, arith, Bool,
  true, false, Bool-cases, ◌||◌, text_equality, if◌then◌else◌,
}
use atlanticwave_proto.Prelude.Lists.{contains, contains-append}
use atlanticwave_proto.Prelude.Int.{ℤ}
use atlanticwave_proto.Prelude.Action.{Action, Result, ok, action_returns, ◌>>=◌}
use atlanticwave_proto.Topology.Graph.{NetworkX}
use atlanticwave_proto.Topology.Manager.{Manager}
use atlanticwave_proto.Topology.Steiner.{length}
use atlanticwave_proto.Rules.{Breakdown}
use atlanticwave_proto.Tunnel.{TunnelEnd}
use atlanticwave_proto.Multipoint.{MultipointRule, L2MultipointPolicy, flood_lc_rule}
use atlanticwave_proto.Multipoint.Nodes.{
  Build, endpoint_node, endpoint_nodes, interior_node, interior_nodes, build_nodes, no_build,
}

-- The node is covered, and there is one breakdown more.
abbrev pub Adds : {N : NetworkX} → String → Build N → Build N → Type 0
Adds node b b' =
    (b'.covered_nodes ≡ b.covered_nodes ++ node ∷ []) × (length b'.built ≡ suc (length b.built))

length-snoc : {A : Type 0} (xs : List A) (x : A) → length (xs ++ x ∷ []) ≡ suc (length xs)
length-snoc [] x = refl
length-snoc (y ∷ xs) x = ap suc (length-snoc xs x)

module _ {N : NetworkX} where
  interior_node-Adds :
      (vlan : ℤ) (tree : N.Graph) (node : String) (b b' : Build N) (m m' : Manager N)
      → interior_node N vlan tree node b m ≡ (ok b', m')
      → Adds node b b'
  unfolding interior_node flood_lc_rule
  interior_node-Adds vlan tree node b b' m m' e =
      (ground (arith, e), grind (arith, e, length-snoc {A = Breakdown MultipointRule}))

  endpoint_node-Adds :
      (policy : L2MultipointPolicy N) (vlan : ℤ) (tree : N.Graph) (end : TunnelEnd) (b b' : Build N)
      (m m' : Manager N)
      → endpoint_node N policy vlan tree end b m ≡ (ok b', m')
      → Adds end.switch b b'
  unfolding endpoint_node
  endpoint_node-Adds policy vlan tree end b b' m m' e =
      (ground (arith, e), grind (arith, e, length-snoc {A = Breakdown MultipointRule}))

-- no name is there twice
abbrev pub Once : List String → Type 0
Once [] = Unit
Once (x ∷ xs) = (contains xs x ≡ false) × Once xs

Once-snoc : (xs : List String) (x : String) → Once xs → contains xs x ≡ false → Once (xs ++ x ∷ [])
Once-snoc [] x h new = (refl, tt)
Once-snoc (y ∷ xs) x h new = (
  ground (
    arith,
    h.0,
    new,
    contains-append xs (x ∷ []) y,
    text_equality.equals_iff x y,
    text_equality.equals_iff y x,
  ),
  Once-snoc xs x h.1 (ground (arith, new)),
)

-- Every node is covered once, with one breakdown each.
abbrev pub IsCover : {N : NetworkX} → Build N → Type 0
IsCover b = Once b.covered_nodes × (length b.built ≡ length b.covered_nodes)

-- The covered nodes are those before and these.
abbrev pub Grows : {N : NetworkX} → List String → Build N → Build N → Type 0
Grows names b b' =
    (n : String) → contains b'.covered_nodes n ≡ (contains b.covered_nodes n || contains names n)

-- the switches of some endpoints
abbrev pub switches : List TunnelEnd → List String
switches ends = map (λ (end : TunnelEnd). end.switch) ends

module _ {N : NetworkX} where
  IsCover-Adds :
      (node : String) (b b' : Build N)
      → IsCover b
      → contains b.covered_nodes node ≡ false
      → Adds node b b'
      → IsCover b'
  IsCover-Adds node b b' (once, same) new (more, longer) = (
    subst Once (sym more) (Once-snoc b.covered_nodes node once new),
    longer ∙ ap suc same ∙ sym (ap length more ∙ length-snoc b.covered_nodes node),
  )

  Grows-Adds :
      (node : String) (names : List String) (b b1 b' : Build N)
      → Adds node b b1
      → Grows names b1 b'
      → Grows (node ∷ names) b b'
  Grows-Adds node names b b1 b' (more, longer) grows n =
      ground
        (arith, grows n, contains-append b.covered_nodes (node ∷ []) n, ap (λ c. contains c n) more)

  Grows-covered :
      (node : String) (names : List String) (b b' : Build N)
      → contains b.covered_nodes node ≡ true
      → Grows names b b'
      → Grows (node ∷ names) b b'
  Grows-covered node names b b' there grows n =
      ground
        (arith, grows n, there, text_equality.equals_iff n node, text_equality.equals_iff node n)

  same_build :
      (b b' : Build N) (m m' : Manager N)
      → ◌≡◌ {A = Result (Build N) × Manager N} (ok b, m) (ok b', m')
      → b ≡ b'
  same_build b b' m m' e = cc

  no_nodes :
      (b b' : Build N) (m m' : Manager N)
      → IsCover b
      → ◌≡◌ {A = Result (Build N) × Manager N} (ok b, m) (ok b', m')
      → IsCover b' × Grows [] b b'
  no_nodes b b' m m' good e =
      subst (λ (x : Build N). IsCover x × Grows [] b x) (same_build b b' m m' e)
        (good, λ n. ground arith)

  abbrev step_of :
      (Build N → Action (Manager N) (Build N))
      → Action (Manager N) (Build N)
      → Build N
      → Bool
      → Action (Manager N) (Build N)
  step_of rest run b there = if there then rest b else run >>= rest

  -- A loop goes over a node that is covered, and covers another one with `run`.
  step-IsCover :
      (node : String) (names : List String) (rest : Build N → Action (Manager N) (Build N))
      (run : Action (Manager N) (Build N)) (b b' : Build N) (m m' : Manager N)
      → ((b1 : Build N) → run m ≡ (ok b1, (run m).1) → Adds node b b1)
      → ((b1 : Build N) (m1 : Manager N)
          → IsCover b1
          → rest b1 m1 ≡ (ok b', m')
          → IsCover b' × Grows names b1 b')
      → IsCover b
      → step_of rest run b (contains b.covered_nodes node) m ≡ (ok b', m')
      → IsCover b' × Grows (node ∷ names) b b'
  step-IsCover node names rest run b b' m m' adds later good e =
      elim (Bool-cases (contains b.covered_nodes node)) [
        | inl there ↦
            let (good', grows) =
              later b m good (subst (λ c. step_of rest run b c m ≡ (ok b', m')) there e) in
            (good', Grows-covered node names b b' there grows)
        | inr new ↦
            let (b1, h, e1) =
              action_returns run rest m b' m'
                (subst (λ c. step_of rest run b c m ≡ (ok b', m')) new e) in
            let added = adds b1 (ap (λ r. (r, (run m).1)) h) in
            let (good', grows) = later b1 (run m).1 (IsCover-Adds node b b1 good new added) e1 in
            (good', Grows-Adds node names b b1 b' added grows)
      ]

  interior_nodes-IsCover :
      (vlan : ℤ) (tree : N.Graph) (nodes : List String) (b b' : Build N) (m m' : Manager N)
      → IsCover b
      → interior_nodes N vlan tree nodes b m ≡ (ok b', m')
      → IsCover b' × Grows nodes b b'
  unfolding interior_nodes
  interior_nodes-IsCover vlan tree [] b b' m m' good e = no_nodes b b' m m' good e
  interior_nodes-IsCover vlan tree (node ∷ nodes) b b' m m' good e =
      step-IsCover node nodes (interior_nodes N vlan tree nodes) (interior_node N vlan tree node b)
        b b' m m' (λ b1 h. interior_node-Adds vlan tree node b b1 m _ h)
        (λ b1 m1 good1 h. interior_nodes-IsCover vlan tree nodes b1 b' m1 m' good1 h) good e

  endpoint_nodes-IsCover :
      (policy : L2MultipointPolicy N) (vlan : ℤ) (tree : N.Graph) (ends : List TunnelEnd)
      (b b' : Build N) (m m' : Manager N)
      → IsCover b
      → endpoint_nodes N policy vlan tree ends b m ≡ (ok b', m')
      → IsCover b' × Grows (switches ends) b b'
  unfolding endpoint_nodes
  endpoint_nodes-IsCover policy vlan tree [] b b' m m' good e = no_nodes b b' m m' good e
  endpoint_nodes-IsCover policy vlan tree (end ∷ ends) b b' m m' good e =
      step-IsCover end.switch (switches ends) (endpoint_nodes N policy vlan tree ends)
        (endpoint_node N policy vlan tree end b) b b' m m'
        (λ b1 h. endpoint_node-Adds policy vlan tree end b b1 m _ h)
        (λ b1 m1 good1 h. endpoint_nodes-IsCover policy vlan tree ends b1 b' m1 m' good1 h) good e

  -- When the loops over the nodes return, every switch with an endpoint and every node of the tree is
  -- covered, no other one is, none is twice, and there is one breakdown for each.
  pub build_nodes-IsCover :
      (policy : L2MultipointPolicy N) (vlan : ℤ) (tree : N.Graph) (b : Build N) (m m' : Manager N)
      → build_nodes N policy vlan tree m ≡ (ok b, m')
      → IsCover b
        × ((n : String)
            → contains b.covered_nodes n
              ≡ (contains (switches policy.endpoints) n || contains (N.nodes tree) n))
  unfolding build_nodes
  build_nodes-IsCover policy vlan tree b m m' e =
      let first =
        endpoint_nodes N policy vlan tree policy.endpoints (no_build N policy vlan tree) in
      let (b1, h, e1) =
        action_returns first (λ b'. interior_nodes N vlan tree (N.nodes tree) b') m b m' e in
      let (good1, grows1) =
        endpoint_nodes-IsCover policy vlan tree policy.endpoints (no_build N policy vlan tree) b1 m
          (first m).1 (tt, refl) (ap (λ r. (r, (first m).1)) h) in
      let (good, grows) =
        interior_nodes-IsCover vlan tree (N.nodes tree) b1 b (first m).1 m' good1 e1 in
      (good, λ n. ground (arith, grows n, grows1 n))
