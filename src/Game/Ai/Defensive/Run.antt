-- ===== src/Game/Ai/Defensive/Run.antt =====
-- What a defensive artificial player does in the course of time.
use scalable_cross_platform.Prelude.{
  ℕ, ◌≡◌, ◌≢◌, refl, ◌∙◌, inl, inr, true, ◌&&◌, some, List, [], ◌∷◌, Bool-cases, Option-cases,
}
use scalable_cross_platform.Prelude.Float.{Float}
use scalable_cross_platform.Prelude.Table.{lookup, contains, keys}
use scalable_cross_platform.Prelude.Table.Laws.{lookup_of_contains, contains_of_lookup}
use scalable_cross_platform.Game.Vector
use scalable_cross_platform.Game.Aura.{is_pvp}
use scalable_cross_platform.Game.Match.{Match}
use scalable_cross_platform.Game.Match.Combat.Safety.{IsPeaceful}
use scalable_cross_platform.Game.Ai.{Draws, is_hostile_near}
use scalable_cross_platform.Game.Ai.Steady.{wander-IsSteady, start-IsSteady}
use scalable_cross_platform.Game.Ai.Defensive.{
  State, deciding, searching, pasive_following, pasive_stopped, aggresive_following,
  aggresive_stopped, running_away, DefensiveAi, someone_attacks, look_around, detect_targets,
  detected, decide, stop_aggresively, start_pasive_following, start_aggresive_following,
}
use scalable_cross_platform.Game.Ai.Defensive.States.{
  deciding_state, searching_state, follow_target, watch_target, chase, hold, step, update_ai,
}
use scalable_cross_platform.Game.Ai.Defensive.Safety.{
  HasNoted, Goes, carried_on, then-Goes, stays, react-Goes, engage-Goes, pasive_following-Goes,
  aggresive_following-Goes, watch_target-Goes, hold-Goes, follow_target-Goes, chase-Goes,
}

module _ (fl : Float) where
  module _ (id : ℕ) where
    module _ (m : Match fl) (c : contains id m.sessions ≡ true) (p : IsPeaceful fl m) where
      module _ (ai : DefensiveAi fl) (s : HasNoted fl ai m) where
        deciding-Goes :
            (draws : Draws fl) (d : fl.F) → Goes fl m (deciding_state fl draws d id ai m)
        unfolding deciding_state
        deciding-Goes draws d =
            elim (Bool-cases (Vector.less_equal fl ai.stopped_timer (fl.lit 0 0))) [
              | inl b ↦
                  let a = wander-IsSteady fl id draws m p in
                  let t = carried_on fl ai a s in
                  rw (b)
                    (_, _, refl, a, record { the_enemy = t.the_enemy; the_target = t.the_target })
              | inr b ↦ rw (b) (
                  react-Goes fl id m c p ai s (start_aggresive_following fl draws id)
                    (start_pasive_following fl draws id)
                    (λ a n. some (record a { stopped_timer = fl.sub a.stopped_timer d }, n))
                    (λ e h. aggresive_following-Goes fl id m c p ai s e h draws)
                    (λ e h. pasive_following-Goes fl id m c p ai s e h draws)
                    (stays fl id m c p _
                      (record { the_enemy = s.the_enemy; the_target = s.the_target })))
            ]

        searching-Goes : (draws : Draws fl) → Goes fl m (searching_state fl draws id ai m)
        unfolding searching_state
        searching-Goes draws =
            let (npc, f) = lookup_of_contains id m.sessions c in
            elim (Bool-cases npc.player.moving) [
              | inr b ↦
                  rw (f, searching_state)
                    (rw (b) (
                      stays fl id m c p (decide fl draws ai)
                        (record { the_enemy = s.the_enemy; the_target = s.the_target })))
              | inl b ↦
                  rw (f, searching_state)
                    (rw (b) (
                      react-Goes fl id m c p ai s (start_aggresive_following fl draws id)
                        (start_pasive_following fl draws id) (λ a n. some (a, n))
                        (λ e h. aggresive_following-Goes fl id m c p ai s e h draws)
                        (λ e h. pasive_following-Goes fl id m c p ai s e h draws)
                        (stays fl id m c p ai s)))
            ]

        decided-Goes : (draws : Draws fl) → Goes fl m (some (decide fl draws ai, m))
        decided-Goes draws =
            stays fl id m c p (decide fl draws ai)
              (record { the_enemy = s.the_enemy; the_target = s.the_target })

        step-Goes :
            (x : State) (draws : Draws fl) (d : fl.F) → Goes fl m (step fl x draws d id ai m)
        unfolding step
        step-Goes deciding draws d = deciding-Goes draws d
        step-Goes searching draws d = searching-Goes draws
        step-Goes pasive_following draws d =
            react-Goes fl id m c p ai s (start_aggresive_following fl draws id)
              (follow_target fl draws d id) (λ a n. some (decide fl draws a, n))
              (λ e h. aggresive_following-Goes fl id m c p ai s e h draws)
              (follow_target-Goes fl id m c p ai s draws d) (decided-Goes draws)
        step-Goes pasive_stopped draws d =
            react-Goes fl id m c p ai s (λ e a n. some (stop_aggresively fl a, n))
              (watch_target fl draws id) (λ a n. some (decide fl draws a, n))
              (λ e h. stays fl id m c p _ (record { the_enemy = s.the_enemy; the_target = tt }))
              (λ e h. watch_target-Goes fl id m c p ai s e h draws) (decided-Goes draws)
        step-Goes aggresive_following draws d =
            engage-Goes fl id m c p ai s draws (chase fl draws d id)
              (chase-Goes fl id m c p ai s draws d)
        step-Goes aggresive_stopped draws d =
            engage-Goes fl id m c p ai s draws (hold fl draws id)
              (λ e h. hold-Goes fl id m c p ai s e h draws)
        step-Goes running_away draws d = stays fl id m c p ai s

      look_around-Goes :
          (d : fl.F) (l : List ℕ) (ai : DefensiveAi fl)
          → HasNoted fl ai m
          → Goes fl m (look_around fl d id l ai m)
      unfolding look_around
      look_around-Goes d [] ai s =
          stays fl id m c p _ (record { the_enemy = s.the_enemy; the_target = s.the_target })
      look_around-Goes d (other ∷ l) ai s =
          let (npc, e) = lookup_of_contains id m.sessions c in
          elim (Option-cases (lookup other m.sessions)) [
            | inl f ↦ rw (e, look_around) (rw (f, look_around) (look_around-Goes d l ai s))
            | inr (t, f) ↦
                elim (Bool-cases (is_hostile_near fl npc.player t.player && is_pvp fl t.auras)) [
                  | inr b ↦
                      rw (e, look_around) (rw (f, look_around) (rw (b) (look_around-Goes d l ai s)))
                  | inl b ↦
                      rw (e, look_around)
                        (rw (f, look_around)
                          (rw (b) (
                            stays fl id m c p (detected fl other ai) (record {
                              the_enemy = s.the_enemy;
                              the_target = (refl, contains_of_lookup other t m.sessions f);
                            }))))
                ]
          ]

      detect_targets-Goes :
          (d : fl.F) (ai : DefensiveAi fl)
          → HasNoted fl ai m
          → Goes fl m (detect_targets fl d id ai m)
      unfolding detect_targets
      detect_targets-Goes d ai s = elim (Option-cases ai.target) [
        | inr (e, h) ↦ rw (h, detect_targets) (stays fl id m c p ai s)
        | inl h ↦ elim (Bool-cases (Vector.less_equal fl ai.enemy_detection_timer (fl.lit 0 0))) [
          | inl b ↦
              rw (h, detect_targets)
                (rw (b) (
                  look_around-Goes d (keys m.sessions)
                    (record ai { enemy_detection_timer = fl.lit 15 1 })
                    (record { the_enemy = s.the_enemy; the_target = s.the_target })))
          | inr b ↦
              rw (h, detect_targets)
                (rw (b) (
                  stays fl id m c p _
                    (record { the_enemy = s.the_enemy; the_target = s.the_target })))
        ]
      ]

    pub update_ai-Goes :
        (draws : Draws fl) (d : fl.F) (ai : DefensiveAi fl) (m : Match fl)
        → contains id m.sessions ≡ true
        → IsPeaceful fl m
        → HasNoted fl ai m
        → Goes fl m (update_ai fl draws d id ai m)
    unfolding update_ai
    update_ai-Goes draws d ai m c p s =
        let (next, n, e, a, t) = detect_targets-Goes m c p d ai s in
        rw (e, update_ai)
          (then-Goes fl a (step-Goes n (a.present id ∙ c) a.peaceful next t next.state draws d))

    -- The artificial player is attacked by another.
    pub someone_attacks-Goes :
        (attacker : ℕ) (ai : DefensiveAi fl) (m : Match fl)
        → id ≢ attacker
        → contains attacker m.sessions ≡ true
        → contains id m.sessions ≡ true
        → IsPeaceful fl m
        → HasNoted fl ai m
        → Goes fl m (someone_attacks fl id attacker ai m)
    unfolding someone_attacks
    someone_attacks-Goes attacker ai m h present c p s = elim (Option-cases ai.enemy) [
      | inr (e, x) ↦ rw (x, someone_attacks) (stays fl id m c p ai s)
      | inl x ↦
          let (n, f, same, a) = start-IsSteady fl id m c p attacker h in
          let t = carried_on fl ai a s in
          rw (x, someone_attacks)
            (rw (f, someone_attacks)
              (
                _,
                n,
                refl,
                a,
                record {
                  the_enemy = (refl, a.present attacker ∙ present);
                  the_target = t.the_target;
                },
              ))
    ]
