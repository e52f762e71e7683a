-- ===== src/LocalRules/Messages.antt =====
-- What the messages of the SDX controller do to the rules of localctlr/LocalController.py.
use atlanticwave_proto.Prelude.{
  ◌+◌, ◌≤◌, List, [], ◌∷◌, ◌++◌, map, ◌≡◌, refl, ◌∙◌, arith, Bool, true, not, ◌&&◌, if◌then◌else◌,
  ◌==◌, ltb, Bool-cases, inl, inr,
}
use atlanticwave_proto.Prelude.Int.{ℤ, int_eq}
use atlanticwave_proto.Prelude.Action.{Result, ok, err, lc_rule_manager_validation_error}
use atlanticwave_proto.Database.{count, one_if, Dataset, IsLawful, Pickle}
use atlanticwave_proto.LocalRules.{
  Row, LcRules, is_at, get_rules, rule_status_active, rule_status_deleting, rule_status_installing,
  rule_status_removed,
}
use atlanticwave_proto.LocalRules.Laws.{
  count_mono, listed, at_with, listed_rows, listed-delete, rm_rule_lem, new_row, add_rule_lem,
  listed-insert,
}
use atlanticwave_proto.LocalRules.Status.{with_cookie, moved, listed-moved, set_status_lem}
use atlanticwave_proto.LocalRules.Controller.{
  LocalController, remove_rule_sdxmsg, install_rule_sdxmsg, is_empty, send_command, remove_rule,
}

module _ {L : Type 0} (P : Pickle L) (D : Dataset (Row P.Text)) (same_rule : L → L → Bool) where
  module _ (laws : IsLawful D) where
    is_empty-count : (rules : List L) → is_empty rules ≡ not (ltb 0 (count (λ _. true) rules))
    unfolding count
    is_empty-count [] = refl
    is_empty-count (x ∷ xs) = ground arith

    some_moved :
        (c s st : ℤ) (m : LcRules P D same_rule)
        → 1 ≤ listed P D same_rule (λ _. true) c s m
        → 1 ≤ listed P D same_rule (λ _. true) c s (moved P D same_rule c s st m)
    some_moved c s st m h = ground (
      arith,
      int_eq.equals_iff c c,
      int_eq.equals_iff s s,
      listed-moved P D same_rule laws (λ _. true) c s st c s m,
      listed_rows P D same_rule laws (λ _. true) c s m,
      count_mono (at_with P D same_rule (λ _. true) c s) (λ r. r.cookie == c && true)
          (D.find (λ _. true) m.rule_table) (λ r. ground arith),
    )

    -- the rule table after the removal
    abbrev removed : ℤ → ℤ → LcRules P D same_rule → LcRules P D same_rule
    removed c s m =
        let after =
          moved P D same_rule c s rule_status_removed
            (moved P D same_rule c s rule_status_deleting m) in
        record after { rule_table = D.delete (is_at c s) after.rule_table }

    remove_rule_sdxmsg_lem :
        (c s : ℤ) (lc : LocalController P D same_rule)
        → 1 ≤ listed P D same_rule (λ _. true) c s lc.rm
        → remove_rule_sdxmsg P D same_rule c s lc ≡ (
          ok tt,
          record lc { rm = removed c s lc.rm; commands = lc.commands ++ remove_rule s c ∷ [] },
        )
    unfolding remove_rule_sdxmsg get_rules
    remove_rule_sdxmsg_lem c s lc h = ground (
      arith,
      is_empty-count (map (λ r. P.loads r.rule) (D.find (is_at c s) lc.rm.rule_table)),
      set_status_lem P D same_rule laws c s rule_status_deleting lc.rm,
      set_status_lem P D same_rule laws c s rule_status_removed
          (moved P D same_rule c s rule_status_deleting lc.rm),
      rm_rule_lem P D same_rule laws c s (
          moved P D same_rule c s rule_status_removed
            (moved P D same_rule c s rule_status_deleting lc.rm)),
      some_moved c s rule_status_deleting lc.rm,
      some_moved c s rule_status_removed (moved P D same_rule c s rule_status_deleting lc.rm),
    )

    -- `remove_rule_sdxmsg` for a rule that is listed at a cookie and a switch returns and sends one
    -- command to that switch. It takes the rules of the cookie on every switch out of the lists,
    -- and leaves the lists of the other cookies.
    pub get_rules-remove_rule_sdxmsg :
        (q : L → Bool) (c s c' s' : ℤ) (lc : LocalController P D same_rule)
        → 1 ≤ listed P D same_rule (λ _. true) c s lc.rm
        → ((remove_rule_sdxmsg P D same_rule c s lc).0 ≡ ok tt)
          × ((remove_rule_sdxmsg P D same_rule c s lc).1.commands
              ≡ lc.commands ++ remove_rule s c ∷ [])
          × (listed P D same_rule q c' s' (remove_rule_sdxmsg P D same_rule c s lc).1.rm
              ≡ (if c == c' then 0 else listed P D same_rule q c' s' lc.rm))
    get_rules-remove_rule_sdxmsg q c s c' s' lc h = rw (remove_rule_sdxmsg_lem c s lc h) (
        ground (
          arith,
          listed-delete P D same_rule laws q c s c' s' (
              moved P D same_rule c s rule_status_removed
                (moved P D same_rule c s rule_status_deleting lc.rm)),
          listed-moved P D same_rule laws q c s rule_status_removed c' s'
              (moved P D same_rule c s rule_status_deleting lc.rm),
          listed-moved P D same_rule laws q c s rule_status_deleting c' s' lc.rm,
        ))

    -- the manager after `add_rule`
    abbrev added : ℤ → ℤ → L → LcRules P D same_rule → LcRules P D same_rule
    added c s l m = record m {
      rule_table = D.insert (new_row P D same_rule c s l rule_status_installing) m.rule_table;
    }

    with_cookie-added :
        (q : L → Bool) (c s : ℤ) (l : L) (m : LcRules P D same_rule)
        → with_cookie P D same_rule q c (added c s l m)
          ≡ one_if (q l) + with_cookie P D same_rule q c m
    with_cookie-added q c s l m =
        laws.count-insert (λ r. r.cookie == c && q (P.loads r.rule))
          (new_row P D same_rule c s l rule_status_installing) m.rule_table
        ∙ ground (arith, int_eq.equals_iff c c, P.loads-dumps l)

    install_rule_sdxmsg_lem :
        (c s : ℤ) (l : L) (lc : LocalController P D same_rule)
        → install_rule_sdxmsg P D same_rule c s l lc ≡ (
            if ltb 0 (listed P D same_rule (λ k. same_rule k l) c s lc.rm)
            then (err lc_rule_manager_validation_error, lc)
            else (
              ok tt,
              record lc {
                rm = moved P D same_rule c s rule_status_active (added c s l lc.rm);
                commands = lc.commands ++ send_command s l ∷ [];
              },
            ))
    unfolding install_rule_sdxmsg
    install_rule_sdxmsg_lem c s l lc = ground (
      arith,
      int_eq.equals_iff c c,
      int_eq.equals_iff s s,
      add_rule_lem P D same_rule laws c s l rule_status_installing lc.rm,
      listed-insert P D same_rule laws (λ _. true) c s c s l rule_status_installing lc.rm,
      set_status_lem P D same_rule laws c s rule_status_active (added c s l lc.rm),
    )

    -- what `install_rule_sdxmsg` leaves, after a raise and after a return
    abbrev pub AfterInstall :
        (L → Bool)
        → ℤ
        → ℤ
        → L
        → ℤ
        → ℤ
        → LocalController P D same_rule
        → Result (Unit {0}) × LocalController P D same_rule
        → Type 0
    AfterInstall q c s l c' s' lc (err x, after) =
        (x ≡ lc_rule_manager_validation_error)
        × (1 ≤ listed P D same_rule (λ k. same_rule k l) c s lc.rm)
        × (after ≡ lc)
    AfterInstall q c s l c' s' lc (ok _, after) =
        (listed P D same_rule (λ k. same_rule k l) c s lc.rm ≡ 0)
        × (after.commands ≡ lc.commands ++ send_command s l ∷ [])
        × (listed P D same_rule q c' s' after.rm ≡ (
            if c == c'
            then (if s == s' then one_if (q l) + with_cookie P D same_rule q c lc.rm else 0)
            else listed P D same_rule q c' s' lc.rm))

    -- `install_rule_sdxmsg` raises and changes nothing when an equal rule is listed at the cookie
    -- and the switch. Otherwise it returns and sends one command to the switch; then the rule and
    -- all the rules of its cookie are listed at that switch and at no other, and the lists of the
    -- other cookies are as before.
    pub get_rules-install_rule_sdxmsg :
        (q : L → Bool) (c s : ℤ) (l : L) (c' s' : ℤ) (lc : LocalController P D same_rule)
        → AfterInstall q c s l c' s' lc (install_rule_sdxmsg P D same_rule c s l lc)
    get_rules-install_rule_sdxmsg q c s l c' s' lc =
        rw (install_rule_sdxmsg_lem c s l lc)
          (elim (Bool-cases (ltb 0 (listed P D same_rule (λ k. same_rule k l) c s lc.rm))) [
            | inl dupe ↦ rw dupe (refl, ground arith, refl)
            | inr fresh ↦ rw fresh (
              ground arith,
              refl,
              ground (
                arith,
                listed-moved P D same_rule laws q c s rule_status_active c' s' (added c s l lc.rm),
                with_cookie-added q c s l lc.rm,
                listed-insert P D same_rule laws q c s c' s' l rule_status_installing lc.rm,
              ),
            )
          ])
