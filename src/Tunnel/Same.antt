-- ===== src/Tunnel/Same.antt =====
-- The equality of tunnels, `__eq__` of shared/L2TunnelPolicy.py.
use atlanticwave_proto.Prelude.{
  Bool, true, false, Bool-cases, ◌≡◌, refl, sym, ap, ◌∙◌, ◌↔◌, ◌⊎◌, inl, inr, arith, ◌&&◌, ◌||◌,
  text_equality,
}
use atlanticwave_proto.Prelude.Int.{int_eq}
use atlanticwave_proto.Topology.Graph.{NetworkX}
use atlanticwave_proto.Tunnel.{TunnelEnd, L2TunnelPolicy, field_eq, same_end, equals_policy}

and_iff :
    {P Q : Type 0} (a b : Bool) → ((a ≡ true) ↔ P) → ((b ≡ true) ↔ Q) → ((a && b) ≡ true) ↔ (P × Q)
and_iff a b p q =
    (λ e. (p.0 (ground (arith, e)), q.0 (ground (arith, e))), λ e. rw (p.1 e.0, q.1 e.1) refl)

or_iff :
    {P Q : Type 0} (a b : Bool) → ((a ≡ true) ↔ P) → ((b ≡ true) ↔ Q) → ((a || b) ≡ true) ↔ (P ⊎ Q)
or_iff a b p q = (
  λ e. elim (Bool-cases a) [ inl h ↦ inl (p.0 h) | inr h ↦ inr (q.0 (ground (arith, e))) ],
  λ e. elim e [ inl u ↦ rw (p.1 u) refl | inr v ↦ ground (arith, q.1 v) ],
)

-- what a test says, by a test that holds as often
same_test : (a b : Bool) → (a ≡ true → b ≡ true) → (b ≡ true → a ≡ true) → a ≡ b
same_test true b f g = sym (f refl)
same_test false true f g = g refl
same_test false false f g = refl

and-left : (a b : Bool) → (a && b) ≡ true → a ≡ true
and-left a b e = ground (arith, e)

and-right : (a b : Bool) → (a && b) ≡ true → b ≡ true
and-right a b e = ground (arith, e)

and_true : (a b : Bool) → a ≡ true → b ≡ true → (a && b) ≡ true
and_true a b e f = rw (e, f) refl

same_end_iff : (a b : TunnelEnd) → (same_end a b ≡ true) ↔ (a ≡ b)
same_end_iff a b =
    let parts =
      and_iff _ _ (text_equality.equals_iff a.switch b.switch)
        (and_iff _ _ (int_eq.equals_iff a.port b.port) (int_eq.equals_iff a.vlan b.vlan)) in
    (
      λ e. let (s, (p, v)) = parts.0 e in cc,
      λ e. parts.1 (
        ap (λ (x : TunnelEnd). x.switch) e,
        (ap (λ (x : TunnelEnd). x.port) e, ap (λ (x : TunnelEnd). x.vlan) e),
      ),
    )

module _ {N : NetworkX} where
  -- The parts that are compared are the same, and the ends are the same or flipped.
  abbrev pub Same : L2TunnelPolicy N → L2TunnelPolicy N → Type 0
  Same a b =
      (a.start_time ≡ b.start_time)
      × ((a.stop_time ≡ b.stop_time)
          × ((a.bandwidth ≡ b.bandwidth)
              × (((a.src ≡ b.src) × (a.dst ≡ b.dst)) ⊎ ((a.src ≡ b.dst) × (a.dst ≡ b.src)))))

  equals_policy_iff : (a b : L2TunnelPolicy N) → (equals_policy a b ≡ true) ↔ Same a b
  unfolding equals_policy
  equals_policy_iff a b = and_iff _ _ (field_eq.equals_iff a.start_time b.start_time) (
      and_iff _ _ (field_eq.equals_iff a.stop_time b.stop_time) (
        and_iff _ _ (int_eq.equals_iff a.bandwidth b.bandwidth) (
          or_iff _ _ (and_iff _ _ (same_end_iff a.src b.src) (same_end_iff a.dst b.dst))
            (and_iff _ _ (same_end_iff a.src b.dst) (same_end_iff a.dst b.src)))))

  Same-trans : (a b c : L2TunnelPolicy N) → Same a b → Same b c → Same a c
  Same-trans a b c (s, (t, (w, inl (u, v)))) (s', (t', (w', inl (u', v')))) =
      (s ∙ s', (t ∙ t', (w ∙ w', inl (u ∙ u', v ∙ v'))))
  Same-trans a b c (s, (t, (w, inl (u, v)))) (s', (t', (w', inr (u', v')))) =
      (s ∙ s', (t ∙ t', (w ∙ w', inr (u ∙ u', v ∙ v'))))
  Same-trans a b c (s, (t, (w, inr (u, v)))) (s', (t', (w', inl (u', v')))) =
      (s ∙ s', (t ∙ t', (w ∙ w', inr (u ∙ v', v ∙ u'))))
  Same-trans a b c (s, (t, (w, inr (u, v)))) (s', (t', (w', inr (u', v')))) =
      (s ∙ s', (t ∙ t', (w ∙ w', inl (u ∙ v', v ∙ u'))))

  Same-sym : (a b : L2TunnelPolicy N) → Same a b → Same b a
  Same-sym a b (s, (t, (w, inl (u, v)))) = (sym s, (sym t, (sym w, inl (sym u, sym v))))
  Same-sym a b (s, (t, (w, inr (u, v)))) = (sym s, (sym t, (sym w, inr (sym v, sym u))))

  equals_policy_self : (a : L2TunnelPolicy N) → equals_policy a a ≡ true
  equals_policy_self a = (equals_policy_iff a a).1 (refl, (refl, (refl, inl (refl, refl))))

  equals_policy_sym : (a b : L2TunnelPolicy N) → equals_policy a b ≡ true → equals_policy b a ≡ true
  equals_policy_sym a b e = (equals_policy_iff b a).1 (Same-sym a b ((equals_policy_iff a b).0 e))

  equals_policy_trans :
      (a b c : L2TunnelPolicy N)
      → equals_policy a b ≡ true
      → equals_policy b c ≡ true
      → equals_policy a c ≡ true
  equals_policy_trans a b c e f =
      (equals_policy_iff a c).1
        (Same-trans a b c ((equals_policy_iff a b).0 e) ((equals_policy_iff b c).0 f))

  -- where `a` is the same as `b`, whatever is the same as `b` is the same as `a`
  equals_policy_swap :
      (a b c : L2TunnelPolicy N)
      → (equals_policy a b && equals_policy b c) ≡ true
      → (equals_policy a b && equals_policy a c) ≡ true
  equals_policy_swap a b c e =
      let first = and-left (equals_policy a b) (equals_policy b c) e in
      and_true (equals_policy a b) (equals_policy a c) first
        (equals_policy_trans a b c first (and-right (equals_policy a b) (equals_policy b c) e))

  equals_policy_swap_back :
      (a b c : L2TunnelPolicy N)
      → (equals_policy a b && equals_policy a c) ≡ true
      → (equals_policy a b && equals_policy b c) ≡ true
  equals_policy_swap_back a b c e =
      let first = and-left (equals_policy a b) (equals_policy a c) e in
      and_true (equals_policy a b) (equals_policy b c) first (
        equals_policy_trans b a c (equals_policy_sym a b first)
          (and-right (equals_policy a b) (equals_policy a c) e))

  -- Two tunnels are equal exactly when their times and bandwidth are the same and their ends are, as they
  -- stand or flipped. Every tunnel equals itself, the order of the two does not matter, and where `a`
  -- equals `b`, the tunnels that equal `b` are those that equal `a`.
  pub equals_policy_equivalence :
      (a b c : L2TunnelPolicy N)
      → ((equals_policy a b ≡ true) ↔ Same a b)
        × (equals_policy a a ≡ true)
        × (equals_policy a b ≡ equals_policy b a)
        × ((equals_policy a b && equals_policy b c) ≡ (equals_policy a b && equals_policy a c))
  equals_policy_equivalence a b c = (
    equals_policy_iff a b,
    equals_policy_self a,
    same_test (equals_policy a b) (equals_policy b a) (equals_policy_sym a b)
        (equals_policy_sym b a),
    same_test (equals_policy a b && equals_policy b c) (equals_policy a b && equals_policy a c)
        (equals_policy_swap a b c) (equals_policy_swap_back a b c),
  )
