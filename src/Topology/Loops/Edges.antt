-- ===== src/Topology/Loops/Edges.antt =====
-- What the loops over pairs of nodes do to every edge of the graph.
use atlanticwave_proto.Prelude.{
  String, ℕ, Option, zero, suc, none, some, List, [], ◌∷◌, arith, ◌≡◌, ◌≢◌, refl, ◌∙◌,
  text_equality, true, Bool-cases, Option-cases, sym, inl, inr,
}
use atlanticwave_proto.Prelude.Lists.{All, All-map}
use atlanticwave_proto.Prelude.Action.{Result, ok, Result-cases}
use atlanticwave_proto.Topology.Graph.{EdgeAttrs, NetworkX, same_edge}
use atlanticwave_proto.Topology.Graph.Laws.{IsLawful}
use atlanticwave_proto.Topology.Graph.SameEdge.{same_edge-cases, same_edge_self}
use atlanticwave_proto.Topology.Manager.{Manager}
use atlanticwave_proto.Topology.Loops.{check_edges, update_edges, times, after, Frame, Frame-trans}

-- A dictionary that is there and passes the test.
abbrev pub PassesAt : (EdgeAttrs → Result (Unit {0})) → Option EdgeAttrs → Type 0
PassesAt test o = (e : EdgeAttrs) × (o ≡ some e) × (test e ≡ ok tt)

module _ (N : NetworkX) (test : EdgeAttrs → Result (Unit {0})) where
  -- A checking loop changes nothing.
  pub check_edges_same :
      (ps : List (String × String)) (m : Manager N) → (check_edges N test ps m).1 ≡ m
  unfolding check_edges
  check_edges_same [] m = refl
  check_edges_same ((a, b) ∷ ps) m = ground (arith, check_edges_same ps m)

  abbrev pub Passes : Manager N → String × String → Type 0
  Passes m (a, b) = PassesAt test (N.edge m.topo a b)

  pub check_edges-Passes :
      (ps : List (String × String)) (m : Manager N)
      → (check_edges N test ps m).0 ≡ ok tt
      → All (Passes m) ps
  unfolding check_edges
  check_edges-Passes [] m h = tt
  check_edges-Passes ((a, b) ∷ ps) m h = elim (Option-cases (N.edge m.topo a b)) [
    | inl missing ↦ absurd (ground arith)
    | inr (e, there) ↦ ((e, there, ground arith), check_edges-Passes ps m (ground arith))
  ]

  pub Passes-check_edges :
      (ps : List (String × String)) (m : Manager N)
      → All (Passes m) ps
      → (check_edges N test ps m).0 ≡ ok tt
  unfolding check_edges
  Passes-check_edges [] m h = refl
  Passes-check_edges ((a, b) ∷ ps) m ((e, there, passed), h) =
      ground (arith, Passes-check_edges ps m h)

-- Two names of one edge read one dictionary.
pub edge-same_edge :
    (N : NetworkX)
    → IsLawful N
    → (g : N.Graph) (a b c d : String) → same_edge c d a b ≡ true
    → N.edge g c d ≡ N.edge g a b
edge-same_edge N L g a b c d h = elim (same_edge-cases c d a b h) [
  | inl (p, q) ↦ rw (p, q)
  | inr (p, q) ↦ rw (p, q) (L.edge_comm g b a)
]

module _ (N : NetworkX) (L : IsLawful N) (body : EdgeAttrs → Result EdgeAttrs) where
  -- One turn of the loop, as seen at any edge.
  after-set_edge :
      (g : N.Graph) (a b c d : String) (e e' : EdgeAttrs) (ps : List (String × String))
      → N.edge g a b ≡ some e
      → body e ≡ ok e'
      → after body (times ps c d) (N.edge (N.set_edge g a b e') c d)
        ≡ after body (times ((a, b) ∷ ps) c d) (N.edge g c d)
  after-set_edge g a b c d e e' ps there done =
      rw (L.edge-set_edge g a b e' c d (λ missing. cc)) (elim (Bool-cases (same_edge c d a b)) [
        | inl same ↦ rw (same, edge-same_edge N L g a b c d same, there, done)
        | inr other ↦ rw other
      ])

  after-none : (k : ℕ) → after body k none ≡ none
  after-none zero = refl
  after-none (suc k) = refl

  -- The state after one turn.
  abbrev turn : Manager N → String → String → EdgeAttrs → Manager N
  turn m a b e' = record m { topo = N.set_edge m.topo a b e' }

  -- The loop leaves the nodes alone, on every branch.
  pub update_edges_frame :
      (ps : List (String × String)) (m : Manager N) (n : String)
      → N.node (update_edges N body ps m).1.topo n ≡ N.node m.topo n
  unfolding update_edges
  update_edges_frame [] m n = refl
  update_edges_frame ((a, b) ∷ ps) m n = elim (Option-cases (N.edge m.topo a b)) [
    | inl missing ↦ ground arith
    | inr (e, there) ↦ elim (Result-cases (body e)) [
      | inr raised ↦ ground (arith, raised.1)
      | inl (e', done) ↦
          let m1 = turn m a b e' in
          ground (arith, update_edges_frame ps m1 n, L.node-set_edge m.topo a b e' n)
    ]
  ]

  -- It leaves the cache and the neighbours alone, on every branch.
  pub update_edges-Frame :
      (ps : List (String × String)) (m : Manager N) → Frame N (update_edges N body ps m).1 m
  unfolding update_edges
  update_edges-Frame [] m = (refl, λ n. refl)
  update_edges-Frame ((a, b) ∷ ps) m = elim (Option-cases (N.edge m.topo a b)) [
    | inl missing ↦
        let same : (update_edges N body ((a, b) ∷ ps) m).1 ≡ m = ground arith in
        rw same (refl, λ n. refl)
    | inr (e, there) ↦ elim (Result-cases (body e)) [
      | inr (x, raised) ↦
          let same : (update_edges N body ((a, b) ∷ ps) m).1 ≡ m = ground arith in
          rw same (refl, λ n. refl)
      | inl (e', done) ↦
          let rest : (update_edges N body ((a, b) ∷ ps) m).1
              ≡ (update_edges N body ps (turn m a b e')).1 =
            ground arith in
          rw rest (
            Frame-trans N (update_edges-Frame ps (turn m a b e'))
              (refl, λ n. L.neighbors-set_edge m.topo a b e' n (λ gone. cc)))
    ]
  ]

  -- A loop that ends runs the body on each edge as often as the pairs name it.
  pub update_edges_effect :
      (ps : List (String × String)) (m : Manager N)
      → (update_edges N body ps m).0 ≡ ok tt
      → (c d : String)
      → N.edge (update_edges N body ps m).1.topo c d ≡ after body (times ps c d) (N.edge m.topo c d)
  unfolding update_edges
  update_edges_effect [] m h c d = refl
  update_edges_effect ((a, b) ∷ ps) m h c d = elim (Option-cases (N.edge m.topo a b)) [
    | inl missing ↦ absurd (ground arith)
    | inr (e, there) ↦ elim (Result-cases (body e)) [
      | inr raised ↦ absurd (ground (arith, raised.1))
      | inl (e', done) ↦
          let m1 = turn m a b e' in
          let ih = update_edges_effect ps m1 (ground arith) c d in
          ground (arith, ih, after-set_edge m.topo a b c d e e' ps there done)
    ]
  ]

  -- It ends where no edge that a pair names is missing or makes the body raise.
  pub update_edges_ok :
      (ps : List (String × String)) (m : Manager N)
      → ((c d : String) → times ps c d ≢ 0 → after body (times ps c d) (N.edge m.topo c d) ≢ none)
      → (update_edges N body ps m).0 ≡ ok tt
  unfolding update_edges
  update_edges_ok [] m h = refl
  update_edges_ok ((a, b) ∷ ps) m h = elim (Option-cases (N.edge m.topo a b)) [
    | inl missing ↦ absurd (ground (arith, h a b, same_edge_self a b))
    | inr (e, there) ↦ elim (Result-cases (body e)) [
      | inr raised ↦
          absurd (ground (arith, raised.1, h a b, same_edge_self a b, after-none (times ps a b)))
      | inl (e', done) ↦
          let m1 = turn m a b e' in
          let ih = update_edges_ok ps m1 (λ c d named gone.
            h c d (ground arith) (sym (after-set_edge m.topo a b c d e e' ps there done) ∙ gone)) in
          ground (arith, ih)
    ]
  ]

-- What holds of the dictionary at every pair holds of every edge that a pair names.
pub named_edge :
    (N : NetworkX)
    → IsLawful N
    → (P : Option EdgeAttrs → Type 0) (g : N.Graph) (ps : List (String × String))
    → All (λ p. P (N.edge g p.0 p.1)) ps
    → (c d : String) → times ps c d ≢ 0
    → P (N.edge g c d)
named_edge N L P g [] h c d named = absurd (named refl)
named_edge N L P g ((a, b) ∷ ps) h c d named = elim (Bool-cases (same_edge c d a b)) [
  | inl same ↦ rw (edge-same_edge N L g a b c d same) h.0
  | inr other ↦ named_edge N L P g ps h.1 c d (ground arith)
]

named_cons :
    (ps : List (String × String)) (a b c d : String)
    → times ps c d ≢ 0
    → times ((a, b) ∷ ps) c d ≢ 0
named_cons ps a b c d h = ground arith

-- Every pair of a list is named in it.
pub All-named : (ps : List (String × String)) → All (λ p. times ps p.0 p.1 ≢ 0) ps
All-named [] = tt
All-named ((a, b) ∷ ps) = (
  ground (arith, same_edge_self a b),
  All-map (λ (c, d). named_cons ps a b c d) ps (All-named ps),
)
