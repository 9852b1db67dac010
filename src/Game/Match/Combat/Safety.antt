-- ===== src/Game/Match/Combat/Safety.antt =====
-- `UpdateAttacks` never uses a session that is gone, and leaves no dead player behind.
use scalable_cross_platform.Prelude.{
  ℕ, ◌<◌, ◌≡◌, ◌≢◌, refl, sym, ap, ◌∙◌, inl, inr, true, Option, some, List, [], ◌∷◌, Bool-cases,
  Option-cases,
}
use mathlib.Core.Path.{subst}
use scalable_cross_platform.Prelude.Float.{Float}
use scalable_cross_platform.Prelude.Table.{lookup, contains, erase, keys}
use scalable_cross_platform.Prelude.Table.Laws.{
  lookup_of_contains, contains_of_lookup, contains-modify, contains-erase, Entries, lookup-Entries,
  erase-Entries, modify-Entries, modify_others-Entries, erase_others-Entries,
}
use scalable_cross_platform.Game.Player.{Player}
use scalable_cross_platform.Game.Attack.{AttackResult, attacking, cancelled, attacked_dead, Outcome}
use scalable_cross_platform.Game.Attack.Damage.{IsFair, update_attack-IsFair}
use scalable_cross_platform.Game.Aura.{is_pvp}
use scalable_cross_platform.Game.Message.{stop_attack, cancel_attack}
use scalable_cross_platform.Game.Match.{Session, AttackEntry, Match, call, call_others}
use scalable_cross_platform.Game.Match.Combat.{
  Draw, changed, conclude, update_entry, update_entries, update_attacks,
}
use scalable_cross_platform.Game.Match.Combat.Steps.{IsKept, perform_all-Performed}
use scalable_cross_platform.Game.Match.Combat.Served.{
  outcome, update_entry-eq, update_attacks-served,
}

module _ (fl : Float) where
  -- Nobody attacks himself, and everybody has health points left.
  pub record IsPeaceful (m : Match fl) : Type 0 where
    pub no_self : Entries (λ i (e : AttackEntry fl). e.attacked ≢ i) m.attacks
    pub alive : Entries (λ i (s : Session fl). 0 < s.player.hp) m.sessions

  abbrev Passed : Option (Match fl) → Type 0
  Passed o = (n : Match fl) × (o ≡ some n) × IsPeaceful n

  module _ (m : Match fl) (p : IsPeaceful m) where
    dropped-IsPeaceful : (i : ℕ) → IsPeaceful (record m { attacks = erase i m.attacks })
    dropped-IsPeaceful i = record {
      no_self = erase-Entries (λ j e. e.attacked ≢ j) i m.attacks p.no_self;
      alive = p.alive;
    }

    module _ (i j : ℕ) (o : Outcome fl) where
      changed-no_self :
          Entries (λ k (e : AttackEntry fl). e.attacked ≢ k) (changed fl i j o m).attacks
      changed-no_self =
          modify-Entries (λ k e. e.attacked ≢ k) i (λ e. record e { attack = o.attack }) m.attacks
            (λ e n. n) p.no_self

      -- An attacked player who lives on.
      changed-IsPeaceful : 0 < o.attacked.hp → IsPeaceful (changed fl i j o m)
      changed-IsPeaceful h = record {
        no_self = changed-no_self;
        alive =
            modify-Entries (λ k s. 0 < s.player.hp) j (λ s. record s { player = o.attacked })
              m.sessions (λ s a. h) p.alive;
      }

      -- Behind the calls, if he lives on.
      lives-Passed :
          (r : AttackResult) (n : Match fl)
          → r ≢ attacked_dead
          → 0 < o.attacked.hp
          → contains i m.sessions ≡ true
          → IsKept fl (changed fl i j o m) n
          → Passed (conclude fl i j r n)
      unfolding conclude
      lives-Passed attacking n h l c k = (n, refl, kept_peaceful)
        where
          kept_peaceful : IsPeaceful n
          kept_peaceful = record {
            no_self =
                subst (Entries (λ v e. e.attacked ≢ v)) (sym k.attacks)
                  (changed-IsPeaceful l).no_self;
            alive = k.players (λ v q. 0 < q.hp) (changed-IsPeaceful l).alive;
          }
      lives-Passed cancelled n h l c k = (
        call_others fl i (stop_attack i)
            (call fl i cancel_attack (record n { attacks = erase i n.attacks })),
        rw
            (k.present i
              ∙ contains-modify i j (λ s. record s { player = o.attacked }) m.sessions
              ∙ c)
            refl,
        record {
          no_self =
              erase-Entries (λ v e. e.attacked ≢ v) i n.attacks
                (subst (Entries (λ v e. e.attacked ≢ v)) (sym k.attacks)
                  (changed-IsPeaceful l).no_self);
          alive = k.players (λ v q. 0 < q.hp) (changed-IsPeaceful l).alive;
        },
      )
      lives-Passed attacked_dead n h l c k = absurd (h refl)

      -- Behind the calls, if he does not: his session goes.
      dies-Passed :
          (n : Match fl)
          → i ≢ j
          → contains i m.attacks ≡ true
          → contains j m.sessions ≡ true
          → IsKept fl (changed fl i j o m) n
          → Passed (conclude fl i j attacked_dead n)
      unfolding conclude
      dies-Passed n h a c k = (
        record n { attacks = erase i (erase j n.attacks); sessions = erase j n.sessions },
        rw
            (
              k.present j
                  ∙ contains-modify j j (λ s. record s { player = o.attacked }) m.sessions
                  ∙ c,
              attacks,
            )
            refl,
        record {
          no_self =
              erase-Entries (λ v e. e.attacked ≢ v) i (erase j n.attacks)
                (erase-Entries (λ v e. e.attacked ≢ v) j n.attacks
                  (subst (Entries (λ v e. e.attacked ≢ v)) (sym k.attacks) changed-no_self));
          alive =
              erase_others-Entries (λ v s. 0 < s.player.hp) j n.sessions
                (k.players (λ v q. v ≢ j → 0 < q.hp)
                  (modify_others-Entries (λ v s. 0 < s.player.hp) j
                    (λ s. record s { player = o.attacked }) m.sessions p.alive));
        },
      )
        where
          attacks : contains i (erase j n.attacks) ≡ true
          attacks = contains-erase i j n.attacks h (
              ap (contains i) k.attacks
              ∙ contains-modify i i (λ e. record e { attack = o.attack }) m.attacks
              ∙ a)

      concluded-Passed :
          (attacked : Player fl)
          → i ≢ j
          → contains i m.attacks ≡ true
          → contains i m.sessions ≡ true
          → contains j m.sessions ≡ true
          → 0 < attacked.hp
          → IsFair fl attacked o
          → (n : Match fl) → IsKept fl (changed fl i j o m) n
          → Passed (conclude fl i j o.result n)
      concluded-Passed attacked h a ci cj l fair n k = elim fair.verdict [
        | inl (dead, z) ↦ rw dead (dies-Passed n h a cj k)
        | inr (r, inl same) ↦
            lives-Passed o.result n r (subst (λ (q : Player fl). 0 < q.hp) (sym same) l) ci k
        | inr (r, inr more) ↦ lives-Passed o.result n r more ci k
      ]

  module _ (time_difference : ℕ) (draws : ℕ → Draw) where
    fight-Passed :
        (id : ℕ) (m : Match fl)
        → IsPeaceful m
        → (a : AttackEntry fl) → lookup id m.attacks ≡ some a
        → contains id m.sessions ≡ true
        → contains a.attacked m.sessions ≡ true
        → Passed (update_entry fl time_difference draws id m)
    fight-Passed id m p a e c d =
        let (attacker, f) = lookup_of_contains id m.sessions c in
        let (attacked, g) = lookup_of_contains a.attacked m.sessions d in
        let o = outcome fl time_difference draws id m a attacker attacked in
        let (n, h, k) =
          perform_all-Performed fl id a.attacked o.calls (changed fl id a.attacked o m) (
            contains-modify a.attacked a.attacked (λ s. record s { player = o.attacked }) m.sessions
            ∙ d) in
        rw (update_entry-eq fl time_difference draws id m a attacker attacked n e c d f g h) (
          concluded-Passed m p id a.attacked o attacked.player
            (λ i. lookup-Entries (λ v x. x.attacked ≢ v) id a m.attacks e p.no_self (sym i))
            (contains_of_lookup id a m.attacks e) c d
            (lookup-Entries (λ v x. 0 < x.player.hp) a.attacked attacked m.sessions g p.alive)
            (update_attack-IsFair fl (draws id).chance (draws id).damage (is_pvp fl attacked.auras)
              a.attack attacker.player attacked.player time_difference)
            n k)

    update_entry-Passed :
        (id : ℕ) (m : Match fl) → IsPeaceful m → Passed (update_entry fl time_difference draws id m)
    unfolding update_entry
    update_entry-Passed id m p = elim (Option-cases (lookup id m.attacks)) [
      | inl e ↦ (m, rw (e, update_entry) refl, p)
      | inr (a, e) ↦ elim (Bool-cases (contains id m.sessions)) [
        | inr c ↦ (_, rw (e, update_entry) (rw (c) refl), dropped-IsPeaceful m p id)
        | inl c ↦ elim (Bool-cases (contains a.attacked m.sessions)) [
          | inr d ↦ (_, rw (e, update_entry) (rw (c, d) refl), dropped-IsPeaceful m p id)
          | inl d ↦ fight-Passed id m p a e c d
        ]
      ]
    ]

    update_entries-Passed :
        (ids : List ℕ) (m : Match fl)
        → IsPeaceful m
        → Passed (update_entries fl time_difference draws ids m)
    unfolding update_entries
    update_entries-Passed [] m p = (m, refl, p)
    update_entries-Passed (id ∷ ids) m p =
        let (n, e, q) = update_entry-Passed id m p in
        let (o, f, r) = update_entries-Passed ids n q in (o, rw (e, update_entries) f, r)

    update_attacks-Passed :
        (m : Match fl) → IsPeaceful m → Passed (update_attacks fl time_difference draws m)
    unfolding update_attacks
    update_attacks-Passed m p = update_entries-Passed (keys m.attacks) m p

    -- Let nobody attack himself and every session's player have health points left. Then, whatever is
    -- drawn and whatever time has passed, `UpdateAttacks` goes through without a use of a session that
    -- is gone and without an exception of `at`, and again nobody attacks himself and every player that
    -- is left has health points; and every attack that is left is that of an attacker who is there, so
    -- that the dead are gone with their attacks.
    pub update_attacks-IsPeaceful :
        (m : Match fl)
        → IsPeaceful m
        → (n : Match fl) × (update_attacks fl time_difference draws m ≡ some n)
          × IsPeaceful n
          × Entries (λ i (e : AttackEntry fl). contains i n.sessions ≡ true) n.attacks
    update_attacks-IsPeaceful m p =
        let (n, e, q) = update_attacks-Passed m p in
        (n, e, q, update_attacks-served fl time_difference draws m n e)
