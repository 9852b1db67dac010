-- ===== src/Game/Ai/Defensive/Safety.antt =====
-- Each state of a defensive artificial player, and whom it has noted.
use scalable_cross_platform.Prelude.{
  ℕ, ◌≡◌, refl, ◌∙◌, inl, inr, true, some, Bool-cases, Option-cases,
}
use scalable_cross_platform.Prelude.Float.{Float}
use scalable_cross_platform.Prelude.Table.{contains}
use scalable_cross_platform.Prelude.Table.Laws.{lookup_of_contains}
use scalable_cross_platform.Game.Vector
use scalable_cross_platform.Game.Match.{Match}
use scalable_cross_platform.Game.Match.Combat.Safety.{IsPeaceful}
use scalable_cross_platform.Game.Ai.{Draws, low_hp}
use scalable_cross_platform.Game.Ai.Steady.{
  IsSteady, IsSteady-refl, IsSteady-trans, run_away-IsSteady, follow-IsSteady, within_range-some,
  within_half_range-some,
}
use scalable_cross_platform.Game.Ai.Seen.{Sees, carried, seen_contains}
use scalable_cross_platform.Game.Ai.Defensive.{
  DefensiveAi, Result, decide, start_pasive_following, start_aggresive_following,
  start_running_away, react,
}
use scalable_cross_platform.Game.Ai.Defensive.States.{
  approach_target, follow_target, watch_target, approach_enemy, chase, hold, engage,
}

module _ (fl : Float) where
  -- The enemy and the target are there, and their ids are known.
  pub record HasNoted (ai : DefensiveAi fl) (m : Match fl) : Type 0 where
    pub the_enemy : Sees fl ai.enemy ai.enemy_id m
    pub the_target : Sees fl ai.target ai.target_id m

  abbrev pub Goes : Match fl → Result fl → Type 0
  Goes m o =
      (ai : DefensiveAi fl) × (n : Match fl) × (o ≡ some (ai, n)) × IsSteady fl m n × HasNoted ai n

  pub carried_on :
      (ai : DefensiveAi fl) {m n : Match fl} → IsSteady fl m n → HasNoted ai m → HasNoted ai n
  carried_on ai a s = record {
    the_enemy = carried fl ai.enemy ai.enemy_id a s.the_enemy;
    the_target = carried fl ai.target ai.target_id a s.the_target;
  }

  -- Two steps, one after the other.
  pub then-Goes : {m n : Match fl} {o : Result fl} → IsSteady fl m n → Goes n o → Goes m o
  then-Goes a (ai, k, e, b, s) = (ai, k, e, IsSteady-trans fl a b, s)

  module _ (id : ℕ) (m : Match fl) (c : contains id m.sessions ≡ true) (p : IsPeaceful fl m) where
    -- What does not touch the match.
    pub stays : (ai : DefensiveAi fl) → HasNoted ai m → Goes m (some (ai, m))
    stays ai s = (ai, m, refl, IsSteady-refl fl m p, s)

    module _ (ai : DefensiveAi fl) (s : HasNoted ai m) where
      running_away-Goes : Goes m (start_running_away fl id ai m)
      unfolding start_running_away
      running_away-Goes =
          let (n, f, a) = run_away-IsSteady fl id m c p in
          let t = carried_on ai a s in
          rw (f, start_running_away)
            (_, n, refl, a, record { the_enemy = t.the_enemy; the_target = t.the_target })

      -- The two questions.
      pub react-Goes :
          (on_enemy on_target : ℕ → DefensiveAi fl → Match fl → Result fl)
          (otherwise : DefensiveAi fl → Match fl → Result fl)
          → ((e : ℕ) → contains e m.sessions ≡ true → Goes m (on_enemy e ai m))
          → ((e : ℕ) → contains e m.sessions ≡ true → Goes m (on_target e ai m))
          → Goes m (otherwise ai m)
          → Goes m (react fl on_enemy on_target otherwise ai m)
      react-Goes on_enemy on_target otherwise f g h = elim (Option-cases ai.enemy) [
        | inr (e, x) ↦ rw (x, react) (f e (seen_contains fl ai.enemy ai.enemy_id m e x s.the_enemy))
        | inl x ↦ elim (Option-cases ai.target) [
          | inr (e, y) ↦
              rw (x, react)
                (rw (y, react) (g e (seen_contains fl ai.target ai.target_id m e y s.the_target)))
          | inl y ↦ rw (x, react) (rw (y, react) h)
        ]
      ]

      pub engage-Goes :
          (draws : Draws fl) (go_on : ℕ → DefensiveAi fl → Match fl → Result fl)
          → ((e : ℕ) → contains e m.sessions ≡ true → Goes m (go_on e ai m))
          → Goes m (engage fl draws go_on id ai m)
      unfolding engage
      engage-Goes draws go_on g =
          let (npc, f) = lookup_of_contains id m.sessions c in
          elim (Bool-cases (low_hp fl npc.player)) [
            | inl b ↦ rw (f, engage) (rw (b) running_away-Goes)
            | inr b ↦ elim (Option-cases ai.enemy) [
              | inl h ↦
                  rw (f, engage)
                    (rw (b) (
                      rw (h, engage)
                        (stays (decide fl draws ai)
                          (record { the_enemy = s.the_enemy; the_target = s.the_target }))))
              | inr (e, h) ↦
                  rw (f, engage)
                    (rw (b) (
                      rw (h, engage)
                        (g e (seen_contains fl ai.enemy ai.enemy_id m e h s.the_enemy))))
            ]
          ]

      module _ (e : ℕ) (h : contains e m.sessions ≡ true) where
        pub pasive_following-Goes :
            (draws : Draws fl) → Goes m (start_pasive_following fl draws id e ai m)
        unfolding start_pasive_following
        pasive_following-Goes draws =
            let (n, f, a) = follow-IsSteady fl id m c p e h draws in
            let t = carried_on ai a s in
            rw (f, start_pasive_following)
              (_, n, refl, a, record { the_enemy = t.the_enemy; the_target = t.the_target })

        pub aggresive_following-Goes :
            (draws : Draws fl) → Goes m (start_aggresive_following fl draws id e ai m)
        unfolding start_aggresive_following
        aggresive_following-Goes draws =
            let (n, f, a) = follow-IsSteady fl id m c p e h draws in
            let t = carried_on ai a s in
            rw (f, start_aggresive_following)
              (_, n, refl, a, record { the_enemy = t.the_enemy; the_target = tt })

        approach_target-Goes : (d : fl.F) → Goes m (approach_target fl d id e ai m)
        unfolding approach_target
        approach_target-Goes d =
            let (near, f) = within_half_range-some fl id m c p e h in
            elim (Bool-cases near) [
              | inl b ↦
                  rw (f, approach_target)
                    (rw (b)
                      (stays _ (record { the_enemy = s.the_enemy; the_target = s.the_target })))
              | inr b ↦
                  rw (f, approach_target)
                    (rw (b)
                      (stays _ (record { the_enemy = s.the_enemy; the_target = s.the_target })))
            ]

        approach_enemy-Goes : (d : fl.F) → Goes m (approach_enemy fl d id e ai m)
        unfolding approach_enemy
        approach_enemy-Goes d =
            let (near, f) = within_half_range-some fl id m c p e h in
            elim (Bool-cases near) [
              | inl b ↦
                  rw (f, approach_enemy)
                    (rw (b) (stays _ (record { the_enemy = s.the_enemy; the_target = tt })))
              | inr b ↦
                  rw (f, approach_enemy)
                    (rw (b)
                      (stays _ (record { the_enemy = s.the_enemy; the_target = s.the_target })))
            ]

        pub watch_target-Goes : (draws : Draws fl) → Goes m (watch_target fl draws id e ai m)
        unfolding watch_target
        watch_target-Goes draws =
            let (near, f) = within_range-some fl id m c p e h in
            elim (Bool-cases near) [
              | inl b ↦ rw (f, watch_target) (rw (b) (stays ai s))
              | inr b ↦ rw (f, watch_target) (rw (b) (pasive_following-Goes draws))
            ]

        pub hold-Goes : (draws : Draws fl) → Goes m (hold fl draws id e ai m)
        unfolding hold
        hold-Goes draws =
            let (near, f) = within_range-some fl id m c p e h in
            elim (Bool-cases near) [
              | inl b ↦ rw (f, hold) (rw (b) (stays ai s))
              | inr b ↦ rw (f, hold) (rw (b) (aggresive_following-Goes draws))
            ]

  module _ (id : ℕ) (m : Match fl) (c : contains id m.sessions ≡ true) (p : IsPeaceful fl m)
      (ai : DefensiveAi fl) (s : HasNoted ai m) where
    pub follow_target-Goes :
        (draws : Draws fl) (d : fl.F) (e : ℕ)
        → contains e m.sessions ≡ true
        → Goes m (follow_target fl draws d id e ai m)
    unfolding follow_target
    follow_target-Goes draws d e h =
        elim (Bool-cases (Vector.less_equal fl ai.pasive_following_timer (fl.lit 0 0))) [
          | inr b ↦ rw (b) (approach_target-Goes id m c p ai s e h d)
          | inl b ↦
              let (next, n, f, a, t) = pasive_following-Goes id m c p ai s e h draws in
              rw (b) (
                rw (f, follow_target)
                  (then-Goes a (
                    approach_target-Goes id n (a.present id ∙ c) a.peaceful
                      (record next { pasive_following_timer = fl.lit 15 1 })
                      (record { the_enemy = t.the_enemy; the_target = t.the_target }) e
                      (a.present e ∙ h) d)))
        ]

    pub chase-Goes :
        (draws : Draws fl) (d : fl.F) (e : ℕ)
        → contains e m.sessions ≡ true
        → Goes m (chase fl draws d id e ai m)
    unfolding chase
    chase-Goes draws d e h =
        elim (Bool-cases (Vector.less_equal fl ai.aggresive_following_timer (fl.lit 0 0))) [
          | inr b ↦ rw (b) (approach_enemy-Goes id m c p ai s e h d)
          | inl b ↦
              let (next, n, f, a, t) = aggresive_following-Goes id m c p ai s e h draws in
              rw (b) (
                rw (f, chase)
                  (then-Goes a (
                    approach_enemy-Goes id n (a.present id ∙ c) a.peaceful
                      (record next { aggresive_following_timer = fl.lit 15 1 })
                      (record { the_enemy = t.the_enemy; the_target = t.the_target }) e
                      (a.present e ∙ h) d)))
        ]
