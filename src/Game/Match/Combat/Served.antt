-- ===== src/Game/Match/Combat/Served.antt =====
-- What `UpdateAttacks` leaves of the attacks: those of attackers who are still there.
use scalable_cross_platform.Prelude.{
  ℕ, ◌≡◌, refl, sym, ap, ◌∙◌, inl, inr, true, Option, none, some, List, [], ◌∷◌, ◌==◌, Bool-cases,
  Option-cases, ==_iff,
}
use mathlib.Core.Bool.{true≢false}
use mathlib.Core.Option.{some-injective, none-ne-some}
use mathlib.Core.Path.{subst}
use scalable_cross_platform.Prelude.Float.{Float}
use scalable_cross_platform.Prelude.Table.{lookup, contains, erase, keys}
use scalable_cross_platform.Prelude.Table.Laws.{
  lookup_of_contains, contains-modify, contains-erase, erase-contains, Entries, contains-Entries,
}
use scalable_cross_platform.Game.Attack.{
  AttackResult, attacking, cancelled, attacked_dead, Outcome, update_attack,
}
use scalable_cross_platform.Game.Aura.{is_pvp}
use scalable_cross_platform.Game.Message.{stop_attack, cancel_attack}
use scalable_cross_platform.Game.Match.{Session, AttackEntry, Match, call, call_others}
use scalable_cross_platform.Game.Match.Combat.{
  Draw, changed, perform_all, conclude, update_entry, update_entries, update_attacks,
}
use scalable_cross_platform.Game.Match.Combat.Steps.{perform_all-Performed}

module _ (fl : Float) where
  -- From one match to a later one: no attack begins, the attackers who still attack stay, and if
  -- `id` still attacks then he is there.
  record IsServed (id : ℕ) (m n : Match fl) : Type 0 where
    from : (k : ℕ) → contains k n.attacks ≡ true → contains k m.attacks ≡ true
    stays :
        (k : ℕ)
        → contains k n.attacks ≡ true
        → contains k m.sessions ≡ true
        → contains k n.sessions ≡ true
    served : contains id n.attacks ≡ true → contains id n.sessions ≡ true

  reached :
      (i : ℕ) (m n o : Match fl) (x : Option (Match fl))
      → x ≡ some n
      → x ≡ some o
      → IsServed i m n
      → IsServed i m o
  reached i m n o x g e = subst (IsServed i m) (some-injective n o (sym g ∙ e))

  -- An attack is erased, and nothing else.
  dropped-IsServed :
      (i : ℕ) (m : Match fl) → IsServed i m (record m { attacks = erase i m.attacks })
  dropped-IsServed i m = record {
    from = λ k c. (erase-contains k i m.attacks c).1;
    stays = λ k c s. s;
    served = λ c. absurd ((erase-contains i i m.attacks c).0 refl);
  }

  conclude-IsServed :
      (i j : ℕ) (r : AttackResult) (n o : Match fl)
      → contains i n.sessions ≡ true
      → conclude fl i j r n ≡ some o
      → IsServed i n o
  unfolding conclude
  conclude-IsServed i j attacking n o c e =
      reached i n n o (some n) refl e
        (record { from = λ k h. h; stays = λ k h s. s; served = λ h. c })
  conclude-IsServed i j cancelled n o c e =
      let p : Match fl =
        call_others fl i (stop_attack i)
          (call fl i cancel_attack (record n { attacks = erase i n.attacks })) in
      let g : conclude fl i j cancelled n ≡ some p = rw (c) refl in
      reached i n p o _ g e (record {
        from = λ k h. (erase-contains k i n.attacks h).1;
        stays = λ k h s. s;
        served = λ h. absurd ((erase-contains i i n.attacks h).0 refl);
      })
  conclude-IsServed i j attacked_dead n o c e = elim (Bool-cases (contains j n.sessions)) [
    | inr d ↦
        let g : conclude fl i j attacked_dead n ≡ none = rw (d) refl in
        absurd (none-ne-some o (sym g ∙ e))
    | inl d ↦ elim (Bool-cases (contains i (erase j n.attacks))) [
      | inr f ↦
          let g : conclude fl i j attacked_dead n ≡ none = rw (d, f) refl in
          absurd (none-ne-some o (sym g ∙ e))
      | inl f ↦
          let left = erase j n.attacks in
          let p : Match fl = record n { attacks = erase i left; sessions = erase j n.sessions } in
          let g : conclude fl i j attacked_dead n ≡ some p = rw (d, f) refl in
          reached i n p o _ g e (record {
            from = λ k h. (erase-contains k j n.attacks (erase-contains k i left h).1).1;
            stays = λ k h s.
                contains-erase k j n.sessions
                  (erase-contains k j n.attacks (erase-contains k i left h).1).0 s;
            served = λ h. absurd ((erase-contains i i (erase j n.attacks) h).0 refl);
          })
    ]
  ]

  module _ (time_difference : ℕ) (draws : ℕ → Draw) where
    -- An attack between two sessions that are there.
    module _ (id : ℕ) (m : Match fl) (a : AttackEntry fl) (attacker attacked : Session fl) where
      abbrev pub outcome : Outcome fl
      outcome =
          update_attack fl (draws id).chance (draws id).damage (is_pvp fl attacked.auras) a.attack
            attacker.player attacked.player time_difference

      pub update_entry-eq :
          (n : Match fl)
          → lookup id m.attacks ≡ some a
          → contains id m.sessions ≡ true
          → contains a.attacked m.sessions ≡ true
          → lookup id m.sessions ≡ some attacker
          → lookup a.attacked m.sessions ≡ some attacked
          → perform_all fl id a.attacked outcome.calls (changed fl id a.attacked outcome m) ≡ some n
          → update_entry fl time_difference draws id m ≡ conclude fl id a.attacked outcome.result n
      unfolding update_entry
      update_entry-eq n e c d f g h =
          rw (e, update_entry)
            (rw (c, d) (rw (f, update_entry) (rw (g, update_entry) (rw (h, update_entry) refl))))

    fight-IsServed :
        (id : ℕ) (m o : Match fl) (a : AttackEntry fl)
        → lookup id m.attacks ≡ some a
        → contains id m.sessions ≡ true
        → contains a.attacked m.sessions ≡ true
        → update_entry fl time_difference draws id m ≡ some o
        → IsServed id m o
    fight-IsServed id m o a e c d x =
        let (attacker, f) = lookup_of_contains id m.sessions c in
        let (attacked, g) = lookup_of_contains a.attacked m.sessions d in
        let w = outcome id m a attacker attacked in
        let same = λ (k : ℕ).
          contains-modify k a.attacked (λ (s : Session fl). record s { player = w.attacked })
            m.sessions in
        let (n, h, kept) =
          perform_all-Performed fl id a.attacked w.calls (changed fl id a.attacked w m)
            (same a.attacked ∙ d) in
        let there : (k : ℕ) → contains k n.sessions ≡ contains k m.sessions =
          λ k. kept.present k ∙ same k in
        let fights : (k : ℕ) → contains k n.attacks ≡ contains k m.attacks = λ k.
          ap (contains k) kept.attacks
          ∙ contains-modify k id (λ (v : AttackEntry fl). record v { attack = w.attack })
              m.attacks in
        let y =
          conclude-IsServed id a.attacked w.result n o (there id ∙ c)
            (sym (update_entry-eq id m a attacker attacked n e c d f g h) ∙ x) in
        record {
          from = λ k l. sym (fights k) ∙ y.from k l;
          stays = λ k l s. y.stays k l (there k ∙ s);
          served = y.served;
        }

    update_entry-IsServed :
        (id : ℕ) (m o : Match fl)
        → update_entry fl time_difference draws id m ≡ some o
        → IsServed id m o
    unfolding update_entry
    update_entry-IsServed id m o x = elim (Option-cases (lookup id m.attacks)) [
      | inl e ↦
          let g : update_entry fl time_difference draws id m ≡ some m = rw (e, update_entry) refl in
          reached id m m o _ g x (record {
            from = λ k c. c;
            stays = λ k c s. s;
            served = λ c.
                let (a, f) = lookup_of_contains id m.attacks c in
                absurd (none-ne-some a (sym e ∙ f));
          })
      | inr (a, e) ↦
          let left : Match fl = record m { attacks = erase id m.attacks } in
          elim (Bool-cases (contains id m.sessions)) [
            | inr c ↦
                let g : update_entry fl time_difference draws id m ≡ some left =
                  rw (e, update_entry) (rw (c) refl) in
                reached id m left o _ g x (dropped-IsServed id m)
            | inl c ↦ elim (Bool-cases (contains a.attacked m.sessions)) [
              | inr d ↦
                  let g : update_entry fl time_difference draws id m ≡ some left =
                    rw (e, update_entry) (rw (c, d) refl) in
                  reached id m left o _ g x (dropped-IsServed id m)
              | inl d ↦ fight-IsServed id m o a e c d x
            ]
          ]
    ]

    -- A round of the loop, and the rounds behind it.
    first_round :
        (id : ℕ) (ids : List ℕ) (m n : Match fl)
        → update_entries fl time_difference draws (id ∷ ids) m ≡ some n
        → (o : Match fl) × IsServed id m o
          × (update_entries fl time_difference draws ids o ≡ some n)
    unfolding update_entries
    first_round id ids m n x = elim (Option-cases (update_entry fl time_difference draws id m)) [
      | inl e ↦
          let g : update_entries fl time_difference draws (id ∷ ids) m ≡ none =
            rw (e, update_entries) refl in
          absurd (none-ne-some n (sym g ∙ x))
      | inr (o, e) ↦
          let g : update_entries fl time_difference draws (id ∷ ids) m
              ≡ update_entries fl time_difference draws ids o =
            rw (e, update_entries) refl in
          (o, update_entry-IsServed id m o e, sym g ∙ x)
    ]

    update_entries-stays :
        (ids : List ℕ) (m n : Match fl) (k : ℕ)
        → update_entries fl time_difference draws ids m ≡ some n
        → contains k n.attacks ≡ true
        → (contains k m.attacks ≡ true)
          × (contains k m.sessions ≡ true → contains k n.sessions ≡ true)
    unfolding update_entries
    update_entries-stays [] m n k x c =
        let same = some-injective m n x in
        (
          ap (λ (v : Match fl). contains k v.attacks) same ∙ c,
          λ s. ap (λ (v : Match fl). contains k v.sessions) (sym same) ∙ s,
        )
    update_entries-stays (id ∷ ids) m n k x c =
        let (o, y, z) = first_round id ids m n x in
        let (d, h) = update_entries-stays ids o n k z c in (y.from k d, λ s. h (y.stays k d s))

    update_entries-served :
        (l : List (ℕ × AttackEntry fl)) (m n : Match fl) (k : ℕ)
        → update_entries fl time_difference draws (keys l) m ≡ some n
        → contains k l ≡ true
        → contains k n.attacks ≡ true
        → contains k n.sessions ≡ true
    unfolding contains
    update_entries-served [] m n k x c d = absurd (true≢false (sym c))
    update_entries-served ((id, v) ∷ l) m n k x c d =
        let (o, y, z) = first_round id (keys l) m n x in
        elim (Bool-cases (id == k)) [
          | inl b ↦
              let (h, s) = update_entries-stays (keys l) o n k z d in
              let same = (==_iff id k).0 b in
              s (
                ap (λ j. contains j o.sessions) (sym same)
                ∙ y.served (ap (λ j. contains j o.attacks) same ∙ h))
          | inr b ↦ update_entries-served l o n k z (sym (rw (b)) ∙ c) d
        ]

    -- Every attack that is left is that of an attacker who is there.
    pub update_attacks-served :
        (m n : Match fl)
        → update_attacks fl time_difference draws m ≡ some n
        → Entries (λ i (e : AttackEntry fl). contains i n.sessions ≡ true) n.attacks
    unfolding update_attacks
    update_attacks-served m n x =
        contains-Entries (λ i. contains i n.sessions ≡ true) n.attacks
          (λ k c.
            update_entries-served m.attacks m n k x
              (update_entries-stays (keys m.attacks) m n k x c).0 c)
