-- ===== src/Game/Match/Combat/Start.antt =====
-- How attacks begin, and what becomes of one that a player turns against himself.
use scalable_cross_platform.Prelude.{
  ℕ, ◌≡◌, ◌≢◌, refl, sym, ap, ◌∙◌, ◌⊎◌, inl, inr, true, false, none, some, Bool-cases, ◌↔◌, ◌==◌,
  ==_iff, arith,
}
use mathlib.Core.Bool.{true≢false}
use mathlib.Core.Option.{none-ne-some}
use scalable_cross_platform.Prelude.Float.{Float}
use scalable_cross_platform.Prelude.Table.{lookup, contains, insert, erase}
use scalable_cross_platform.Prelude.Table.Laws.{
  lookup_of_contains, contains_of_lookup, contains-modify, insert-Entries, contains-erase,
  erase-contains,
}
use scalable_cross_platform.Game.Message.{start_attack, attack_response}
use scalable_cross_platform.Game.Attack.{attacked_dead}
use scalable_cross_platform.Game.Aura.{is_pvp}
use scalable_cross_platform.Game.Match.{Session, AttackEntry, Match, call, call_others}
use scalable_cross_platform.Game.Match.Combat.{Draw, start, changed, conclude, update_entry}
use scalable_cross_platform.Game.Match.Combat.Steps.{perform_all-Performed}
use scalable_cross_platform.Game.Match.Combat.Safety.{IsPeaceful}
use scalable_cross_platform.Game.Match.Combat.Served.{outcome, update_entry-eq}

module _ (fl : Float) where
  -- The entry that `StartAttack` makes.
  abbrev entry_of : ℕ → Session fl → AttackEntry fl
  entry_of attacked attacker = record {
    attacked = attacked;
    attack = record {
      timer = attacker.player.attack_time;
      time = attacker.player.attack_time;
      radius = attacker.player.attack_radius;
    };
  }

  abbrev begun : ℕ → ℕ → Session fl → Match fl → Match fl
  begun i j attacker m = call_others fl i (start_attack i j) (
      call fl i (attack_response true)
        (record m { attacks = insert i (entry_of j attacker) m.attacks }))

  -- What `StartAttack` comes to for an attacker who is there: nothing, a refusal, or an attack.
  start-cases :
      (i j : ℕ) (m : Match fl)
      → contains i m.sessions ≡ true
      → (start fl i j m ≡ some m)
        ⊎ (start fl i j m ≡ some (call fl i (attack_response false) m))
        ⊎ ((attacker : Session fl) × (start fl i j m ≡ some (begun i j attacker m)))
  unfolding start
  start-cases i j m h = elim (Bool-cases (contains i m.attacks)) [
    | inl c ↦ inl (rw (c) refl)
    | inr c ↦ elim (Bool-cases (contains j m.sessions)) [
      | inr d ↦ inl (rw (c, d) refl)
      | inl d ↦
          let (attacker, f) = lookup_of_contains i m.sessions h in
          let (attacked, g) = lookup_of_contains j m.sessions d in
          elim (Bool-cases (is_pvp fl attacked.auras)) [
            | inr b ↦ inr (inl (rw (c, d) (rw (f, start) (rw (g, start) (rw (b) refl)))))
            | inl b ↦ inr (inr (attacker, rw (c, d) (rw (f, start) (rw (g, start) (rw (b) refl)))))
          ]
    ]
  ]

  -- A session that is there may call `StartAttack` on anybody but itself: it goes through without an
  -- exception of `at`, the sessions stay as they are, and still nobody attacks himself and every
  -- player has health points left.
  pub start-IsPeaceful :
      (i j : ℕ) (m : Match fl)
      → i ≢ j
      → contains i m.sessions ≡ true
      → IsPeaceful fl m
      → (n : Match fl) × (start fl i j m ≡ some n) × (n.sessions ≡ m.sessions) × IsPeaceful fl n
  start-IsPeaceful i j m h c p = elim (start-cases i j m c) [
    | inl e ↦ (m, e, refl, p)
    | inr (inl e) ↦ (_, e, refl, record { no_self = p.no_self; alive = p.alive })
    | inr (inr (attacker, e)) ↦ (
      _,
      e,
      refl,
      record {
        no_self =
            insert-Entries (λ v x. x.attacked ≢ v) i (entry_of j attacker) m.attacks
              (λ q. h (sym q)) p.no_self;
        alive = p.alive;
      },
    )
  ]

  -- What a death comes to for an attacker whose attack is there.
  conclude_dead :
      (i j : ℕ) (n : Match fl)
      → contains i n.attacks ≡ true
      → contains j n.sessions ≡ true
      → (conclude fl i j attacked_dead n ≡ none) ↔ (j ≡ i)
  unfolding conclude
  conclude_dead i j n a c = elim (Bool-cases (contains i (erase j n.attacks))) [
    | inr h ↦ (
      λ e. elim (Bool-cases (j == i)) [
        | inl b ↦ (==_iff j i).0 b
        | inr b ↦ absurd (true≢false (sym (contains-erase i j n.attacks (ground (arith, b)) a) ∙ h))
      ],
      λ s. rw (c, h) refl,
    )
    | inl h ↦
        let p : Match fl = record n {
          attacks = erase i (erase j n.attacks);
          sessions = erase j n.sessions;
        } in
        let g : conclude fl i j attacked_dead n ≡ some p = rw (c, h) refl in
        (
          λ e. absurd (none-ne-some p (sym e ∙ g)),
          λ s. absurd ((erase-contains i j n.attacks h).0 (sym s)),
        )
  ]

  -- Let an update of an attack between two sessions that are there report the attacked dead. Then it
  -- is undefined behaviour, for the attack is erased by its key and then again through the iterator,
  -- if the attacker attacks himself, and only then.
  pub update_entry_self :
      (time_difference : ℕ) (draws : ℕ → Draw) (i : ℕ) (m : Match fl) (a : AttackEntry fl)
      (s t : Session fl)
      → lookup i m.attacks ≡ some a
      → lookup i m.sessions ≡ some s
      → lookup a.attacked m.sessions ≡ some t
      → (outcome fl time_difference draws i m a s t).result ≡ attacked_dead
      → (update_entry fl time_difference draws i m ≡ none) ↔ (a.attacked ≡ i)
  update_entry_self time_difference draws i m a s t e f g dead =
      let here = contains_of_lookup a.attacked t m.sessions g in
      let o = outcome fl time_difference draws i m a s t in
      let present =
        contains-modify a.attacked a.attacked (λ (v : Session fl). record v { player = o.attacked })
          m.sessions
        ∙ here in
      let (n, h, k) =
        perform_all-Performed fl i a.attacked o.calls (changed fl i a.attacked o m) present in
      let same : update_entry fl time_difference draws i m
          ≡ conclude fl i a.attacked attacked_dead n =
        update_entry-eq fl time_difference draws i m a s t n e (contains_of_lookup i s m.sessions f)
          here f g h
        ∙ ap (λ r. conclude fl i a.attacked r n) dead in
      let attacks : contains i n.attacks ≡ true =
        ap (contains i) k.attacks
        ∙ contains-modify i i (λ (v : AttackEntry fl). record v { attack = o.attack }) m.attacks
        ∙ contains_of_lookup i a m.attacks e in
      let ends = conclude_dead i a.attacked n attacks (k.present a.attacked ∙ present) in
      (λ x. ends.0 (sym same ∙ x), λ x. same ∙ ends.1 x)
