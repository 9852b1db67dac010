-- ===== src/Game/Ai/FullAggresive/Safety.antt =====
-- An artificial player that is told of every session that goes never uses one that is gone.
use scalable_cross_platform.Prelude.{
  ℕ, ◌≡◌, refl, ◌∙◌, inl, inr, true, some, Bool-cases, Option-cases,
}
use scalable_cross_platform.Prelude.Float.{Float}
use scalable_cross_platform.Prelude.Table.{contains}
use scalable_cross_platform.Prelude.Table.Laws.{lookup_of_contains}
use scalable_cross_platform.Game.Vector
use scalable_cross_platform.Game.Match.{Match}
use scalable_cross_platform.Game.Match.Combat.Safety.{IsPeaceful}
use scalable_cross_platform.Game.Ai.{Draws, low_hp}
use scalable_cross_platform.Game.Ai.Steady.{
  IsSteady, IsSteady-refl, IsSteady-trans, wander-IsSteady, run_away-IsSteady, follow-IsSteady,
  within_range-some, within_half_range-some,
}
use scalable_cross_platform.Game.Ai.Seen.{Sees, carried, seen_contains}
use scalable_cross_platform.Game.Ai.FullAggresive.{
  State, deciding, searching, aggresive_following, aggresive_stopped, running_away, FullAggresiveAi,
  Result, start_following, start_running_away, deciding_state, searching_state, approach, chase,
  hold, engage, step,
}

module _ (fl : Float) where
  module _ (id : ℕ) where
    pub record IsWell (ai : FullAggresiveAi fl) (m : Match fl) : Type 0 where
      pub here : contains id m.sessions ≡ true
      pub peaceful : IsPeaceful fl m
      pub sees : Sees fl ai.enemy ai.enemy_id m

    abbrev pub Goes : Match fl → Result fl → Type 0
    Goes m o =
        (ai : FullAggresiveAi fl) × (n : Match fl) × (o ≡ some (ai, n))
        × IsSteady fl m n
        × Sees fl ai.enemy ai.enemy_id n

    module _ (m : Match fl) (c : contains id m.sessions ≡ true) (p : IsPeaceful fl m) where
      following-Goes :
          (draws : Draws fl) (e : ℕ) (ai : FullAggresiveAi fl)
          → contains e m.sessions ≡ true
          → Sees fl ai.enemy ai.enemy_id m
          → Goes m (start_following fl draws id e ai m)
      unfolding start_following
      following-Goes draws e ai h s =
          let (n, f, a) = follow-IsSteady fl id m c p e h draws in
          rw (f, start_following) (_, n, refl, a, carried fl ai.enemy ai.enemy_id a s)

      running_away-Goes :
          (ai : FullAggresiveAi fl)
          → Sees fl ai.enemy ai.enemy_id m
          → Goes m (start_running_away fl id ai m)
      unfolding start_running_away
      running_away-Goes ai s =
          let (n, f, a) = run_away-IsSteady fl id m c p in
          rw (f, start_running_away) (_, n, refl, a, carried fl ai.enemy ai.enemy_id a s)

      deciding-Goes :
          (draws : Draws fl) (d : fl.F) (ai : FullAggresiveAi fl)
          → Sees fl ai.enemy ai.enemy_id m
          → Goes m (deciding_state fl draws d id ai m)
      unfolding deciding_state
      deciding-Goes draws d ai s =
          elim (Bool-cases (Vector.less_equal fl ai.stopped_timer (fl.lit 0 0))) [
            | inl b ↦
                let a = wander-IsSteady fl id draws m p in
                rw (b) (_, _, refl, a, carried fl ai.enemy ai.enemy_id a s)
            | inr b ↦ elim (Option-cases ai.enemy) [
              | inl h ↦ rw (b) (rw (h, deciding_state) (_, m, refl, IsSteady-refl fl m p, s))
              | inr (e, h) ↦ rw (b) (
                  rw (h, deciding_state)
                    (following-Goes draws e ai (seen_contains fl ai.enemy ai.enemy_id m e h s) s))
            ]
          ]

      searching-Goes :
          (draws : Draws fl) (ai : FullAggresiveAi fl)
          → Sees fl ai.enemy ai.enemy_id m
          → Goes m (searching_state fl draws id ai m)
      unfolding searching_state
      searching-Goes draws ai s =
          let (npc, f) = lookup_of_contains id m.sessions c in
          elim (Bool-cases npc.player.moving) [
            | inr b ↦ rw (f, searching_state) (rw (b) (_, m, refl, IsSteady-refl fl m p, s))
            | inl b ↦ elim (Option-cases ai.enemy) [
              | inl h ↦
                  rw (f, searching_state)
                    (rw (b) (rw (h, searching_state) (_, m, refl, IsSteady-refl fl m p, s)))
              | inr (e, h) ↦
                  rw (f, searching_state)
                    (rw (b) (
                      rw (h, searching_state)
                        (following-Goes draws e ai (seen_contains fl ai.enemy ai.enemy_id m e h s)
                          s)))
            ]
          ]

      module _ (e : ℕ) (h : contains e m.sessions ≡ true) (ai : FullAggresiveAi fl)
          (s : Sees fl ai.enemy ai.enemy_id m) where
        approach-Goes : (d : fl.F) → Goes m (approach fl d id e ai m)
        unfolding approach
        approach-Goes d =
            let (near, f) = within_half_range-some fl id m c p e h in
            elim (Bool-cases near) [
              | inl b ↦ rw (f, approach) (rw (b) (_, m, refl, IsSteady-refl fl m p, s))
              | inr b ↦ rw (f, approach) (rw (b) (_, m, refl, IsSteady-refl fl m p, s))
            ]

        hold-Goes : (draws : Draws fl) → Goes m (hold fl draws id e ai m)
        unfolding hold
        hold-Goes draws =
            let (near, f) = within_range-some fl id m c p e h in
            elim (Bool-cases near) [
              | inl b ↦ rw (f, hold) (rw (b) (_, m, refl, IsSteady-refl fl m p, s))
              | inr b ↦ rw (f, hold) (rw (b) (following-Goes draws e ai h s))
            ]

    -- Two steps, one after the other.
    pub then-Goes : {m n : Match fl} {o : Result fl} → IsSteady fl m n → Goes n o → Goes m o
    then-Goes a (ai, k, e, b, s) = (ai, k, e, IsSteady-trans fl a b, s)

    module _ (m : Match fl) (c : contains id m.sessions ≡ true) (p : IsPeaceful fl m) where
      chase-Goes :
          (draws : Draws fl) (d : fl.F) (e : ℕ)
          → contains e m.sessions ≡ true
          → (ai : FullAggresiveAi fl) → Sees fl ai.enemy ai.enemy_id m
          → Goes m (chase fl draws d id e ai m)
      unfolding chase
      chase-Goes draws d e h ai s =
          elim (Bool-cases (Vector.less_equal fl ai.aggresive_following_timer (fl.lit 0 0))) [
            | inr b ↦ rw (b) (approach-Goes m c p e h ai s d)
            | inl b ↦
                let (next, n, f, a, t) = following-Goes m c p draws e ai h s in
                rw (b) (
                  rw (f, chase)
                    (then-Goes a (
                      approach-Goes n (a.present id ∙ c) a.peaceful e (a.present e ∙ h)
                        (record next { aggresive_following_timer = fl.lit 15 1 }) t d)))
          ]

      engage-Goes :
          (draws : Draws fl) (go_on : ℕ → FullAggresiveAi fl → Match fl → Result fl)
          → ((e : ℕ)
              → contains e m.sessions ≡ true
              → (ai : FullAggresiveAi fl) → Sees fl ai.enemy ai.enemy_id m
              → Goes m (go_on e ai m))
          → (ai : FullAggresiveAi fl) → Sees fl ai.enemy ai.enemy_id m
          → Goes m (engage fl draws go_on id ai m)
      unfolding engage
      engage-Goes draws go_on g ai s =
          let (npc, f) = lookup_of_contains id m.sessions c in
          elim (Bool-cases (low_hp fl npc.player)) [
            | inl b ↦ rw (f, engage) (rw (b) (running_away-Goes m c p ai s))
            | inr b ↦ elim (Option-cases ai.enemy) [
              | inl h ↦
                  rw (f, engage) (rw (b) (rw (h, engage) (_, m, refl, IsSteady-refl fl m p, s)))
              | inr (e, h) ↦
                  rw (f, engage)
                    (rw (b)
                      (rw (h, engage) (g e (seen_contains fl ai.enemy ai.enemy_id m e h s) ai s)))
            ]
          ]

      pub step-Goes :
          (x : State) (draws : Draws fl) (d : fl.F) (ai : FullAggresiveAi fl)
          → Sees fl ai.enemy ai.enemy_id m
          → Goes m (step fl x draws d id ai m)
      unfolding step
      step-Goes deciding draws d ai s = deciding-Goes m c p draws d ai s
      step-Goes searching draws d ai s = searching-Goes m c p draws ai s
      step-Goes aggresive_following draws d ai s =
          engage-Goes draws (λ e. chase fl draws d id e) (chase-Goes draws d) ai s
      step-Goes aggresive_stopped draws d ai s =
          engage-Goes draws (λ e. hold fl draws id e) (λ e h b t. hold-Goes m c p e h b t draws) ai
            s
      step-Goes running_away draws d ai s = (ai, m, refl, IsSteady-refl fl m p, s)
