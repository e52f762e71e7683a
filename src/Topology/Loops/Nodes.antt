-- ===== src/Topology/Loops/Nodes.antt =====
-- What the loops over nodes do to every node of the graph.
use text.Mathlib.TextEquality.{eq_iff}
use atlanticwave_proto.Prelude.{
  String, ℕ, Option, zero, suc, none, some, List, [], ◌∷◌, arith, ◌≡◌, ◌≢◌, refl, ◌∙◌, ◌==◌,
  text_equality, ap, Bool-cases, Option-cases, sym, inl, inr,
}
use atlanticwave_proto.Prelude.Lists.{All, All-map}
use atlanticwave_proto.Prelude.Action.{Result, ok, Result-cases}
use atlanticwave_proto.Topology.Graph.{NodeAttrs, NetworkX}
use atlanticwave_proto.Topology.Graph.Laws.{IsLawful}
use atlanticwave_proto.Topology.Manager.{Manager}
use atlanticwave_proto.Topology.Loops.{
  check_nodes, update_nodes, times_node, after, Frame, Frame-trans,
}

-- A dictionary that is there and passes the test.
abbrev pub PassesAt : (NodeAttrs → Result (Unit {0})) → Option NodeAttrs → Type 0
PassesAt test o = (v : NodeAttrs) × (o ≡ some v) × (test v ≡ ok tt)

module _ (N : NetworkX) (test : NodeAttrs → Result (Unit {0})) where
  -- A checking loop changes nothing.
  pub check_nodes_same : (ns : List String) (m : Manager N) → (check_nodes N test ns m).1 ≡ m
  unfolding check_nodes
  check_nodes_same [] m = refl
  check_nodes_same (a ∷ ns) m = ground (arith, check_nodes_same ns m)

  abbrev pub Passes : Manager N → String → Type 0
  Passes m a = PassesAt test (N.node m.topo a)

  pub check_nodes-Passes :
      (ns : List String) (m : Manager N) → (check_nodes N test ns m).0 ≡ ok tt → All (Passes m) ns
  unfolding check_nodes
  check_nodes-Passes [] m h = tt
  check_nodes-Passes (a ∷ ns) m h = elim (Option-cases (N.node m.topo a)) [
    | inl missing ↦ absurd (ground arith)
    | inr (v, there) ↦ ((v, there, ground arith), check_nodes-Passes ns m (ground arith))
  ]

  pub Passes-check_nodes :
      (ns : List String) (m : Manager N) → All (Passes m) ns → (check_nodes N test ns m).0 ≡ ok tt
  unfolding check_nodes
  Passes-check_nodes [] m h = refl
  Passes-check_nodes (a ∷ ns) m ((v, there, passed), h) = ground (arith, Passes-check_nodes ns m h)

module _ (N : NetworkX) (L : IsLawful N) (body : NodeAttrs → Result NodeAttrs) where
  -- One turn of the loop, as seen at any node.
  after-set_node :
      (g : N.Graph) (a n : String) (v v' : NodeAttrs) (ns : List String)
      → N.node g a ≡ some v
      → body v ≡ ok v'
      → after body (times_node ns n) (N.node (N.set_node g a v') n)
        ≡ after body (times_node (a ∷ ns) n) (N.node g n)
  after-set_node g a n v v' ns there done =
      rw (L.node-set_node g a v' n (λ missing. cc)) (elim (Bool-cases (n == a)) [
        | inl same ↦ rw (same, ap (N.node g) ((eq_iff n a).0 same), there, done)
        | inr other ↦ rw other
      ])

  after-none : (k : ℕ) → after body k none ≡ none
  after-none zero = refl
  after-none (suc k) = refl

  -- The state after one turn.
  abbrev turn : Manager N → String → NodeAttrs → Manager N
  turn m a v' = record m { topo = N.set_node m.topo a v' }

  -- The loop leaves the edges alone, on every branch.
  pub update_nodes_frame :
      (ns : List String) (m : Manager N) (c d : String)
      → N.edge (update_nodes N body ns m).1.topo c d ≡ N.edge m.topo c d
  unfolding update_nodes
  update_nodes_frame [] m c d = refl
  update_nodes_frame (a ∷ ns) m c d = elim (Option-cases (N.node m.topo a)) [
    | inl missing ↦ ground arith
    | inr (v, there) ↦ elim (Result-cases (body v)) [
      | inr raised ↦ ground (arith, raised.1)
      | inl (v', done) ↦
          ground (arith, update_nodes_frame ns (turn m a v') c d, L.edge-set_node m.topo a v' c d)
    ]
  ]

  -- It leaves the cache and the neighbours alone, on every branch.
  pub update_nodes-Frame :
      (ns : List String) (m : Manager N) → Frame N (update_nodes N body ns m).1 m
  unfolding update_nodes
  update_nodes-Frame [] m = (refl, λ n. refl)
  update_nodes-Frame (a ∷ ns) m = elim (Option-cases (N.node m.topo a)) [
    | inl missing ↦
        let same : (update_nodes N body (a ∷ ns) m).1 ≡ m = ground arith in
        rw same (refl, λ n. refl)
    | inr (v, there) ↦ elim (Result-cases (body v)) [
      | inr (x, raised) ↦
          let same : (update_nodes N body (a ∷ ns) m).1 ≡ m = ground arith in
          rw same (refl, λ n. refl)
      | inl (v', done) ↦
          let rest : (update_nodes N body (a ∷ ns) m).1 ≡ (update_nodes N body ns (turn m a v')).1 =
            ground arith in
          rw rest (
            Frame-trans N (update_nodes-Frame ns (turn m a v'))
              (refl, λ n. L.neighbors-set_node m.topo a v' n))
    ]
  ]

  -- A loop that ends runs the body on each node as often as the list names it.
  pub update_nodes_effect :
      (ns : List String) (m : Manager N)
      → (update_nodes N body ns m).0 ≡ ok tt
      → (n : String)
      → N.node (update_nodes N body ns m).1.topo n ≡ after body (times_node ns n) (N.node m.topo n)
  unfolding update_nodes
  update_nodes_effect [] m h n = refl
  update_nodes_effect (a ∷ ns) m h n = elim (Option-cases (N.node m.topo a)) [
    | inl missing ↦ absurd (ground arith)
    | inr (v, there) ↦ elim (Result-cases (body v)) [
      | inr raised ↦ absurd (ground (arith, raised.1))
      | inl (v', done) ↦
          let ih = update_nodes_effect ns (turn m a v') (ground arith) n in
          ground (arith, ih, after-set_node m.topo a n v v' ns there done)
    ]
  ]

  -- It ends where no node that the list names is missing or makes the body raise.
  pub update_nodes_ok :
      (ns : List String) (m : Manager N)
      → ((n : String) → times_node ns n ≢ 0 → after body (times_node ns n) (N.node m.topo n) ≢ none)
      → (update_nodes N body ns m).0 ≡ ok tt
  unfolding update_nodes
  update_nodes_ok [] m h = refl
  update_nodes_ok (a ∷ ns) m h = elim (Option-cases (N.node m.topo a)) [
    | inl missing ↦ absurd (ground (arith, h a, eq_iff a a))
    | inr (v, there) ↦ elim (Result-cases (body v)) [
      | inr raised ↦
          absurd (ground (arith, raised.1, h a, eq_iff a a, after-none (times_node ns a)))
      | inl (v', done) ↦
          let ih = update_nodes_ok ns (turn m a v') (λ n named gone.
            h n (ground arith) (sym (after-set_node m.topo a n v v' ns there done) ∙ gone)) in
          ground (arith, ih)
    ]
  ]

-- What holds of the dictionary of every listed node holds of every node that the list names.
pub named_node :
    (N : NetworkX) (P : Option NodeAttrs → Type 0) (g : N.Graph) (ns : List String)
    → All (λ a. P (N.node g a)) ns
    → (n : String) → times_node ns n ≢ 0
    → P (N.node g n)
named_node N P g [] h n named = absurd (named refl)
named_node N P g (a ∷ ns) h n named = elim (Bool-cases (n == a)) [
  | inl same ↦ rw ((eq_iff n a).0 same) h.0
  | inr other ↦ named_node N P g ns h.1 n (ground arith)
]

named_cons : (ns : List String) (a n : String) → times_node ns n ≢ 0 → times_node (a ∷ ns) n ≢ 0
named_cons ns a n h = ground arith

-- Every item of a list is named in it.
pub All-named : (ns : List String) → All (λ n. times_node ns n ≢ 0) ns
All-named [] = tt
All-named (a ∷ ns) = (ground (arith, eq_iff a a), All-map (named_cons ns a) ns (All-named ns))
