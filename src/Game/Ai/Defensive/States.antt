-- ===== src/Game/Ai/Defensive/States.antt =====
-- The states of a defensive artificial player, and what happens to it.
use scalable_cross_platform.Prelude.{ℕ, not, none, some, List, [], ◌∷◌, if◌then◌else◌}
use scalable_cross_platform.Prelude.Float.{Float}
use scalable_cross_platform.Prelude.Table.{lookup, contains, insert, erase}
use scalable_cross_platform.Game.Vector
use scalable_cross_platform.Game.Match.{Session, Match}
use scalable_cross_platform.Game.Ai.{Draws, wander, low_hp, within_range, within_half_range}
use scalable_cross_platform.Game.Ai.Defensive.{
  State, deciding, searching, pasive_following, pasive_stopped, aggresive_following,
  aggresive_stopped, running_away, DefensiveAi, Result, someone_disappear, attack_cancelled,
  someone_attacks, detect_targets, decide, start_pasive_following, start_aggresive_following,
  stop_aggresively, start_running_away, react,
}

module _ (fl : Float) where
  open fl use {F, lit, sub}

  unfoldable pub deciding_state : Draws fl → F → ℕ → DefensiveAi fl → Match fl → Result fl
  deciding_state draws delta_time id ai m =
      if Vector.less_equal fl ai.stopped_timer (lit 0 0)
      then some (record ai { state = searching }, wander fl id draws m)
      else react fl (start_aggresive_following fl draws id) (start_pasive_following fl draws id)
          (λ a n. some (record a { stopped_timer = sub a.stopped_timer delta_time }, n)) ai m

  unfoldable pub searching_state : Draws fl → ℕ → DefensiveAi fl → Match fl → Result fl
  searching_state draws id ai m = elim (lookup id m.sessions) [
    | none ↦ none
    | some npc ↦
        if not npc.player.moving
        then some (decide fl draws ai, m)
        else react fl (start_aggresive_following fl draws id) (start_pasive_following fl draws id)
            (λ a n. some (a, n)) ai m
  ]

  -- The end of `PasiveFollowing`.
  unfoldable pub approach_target : F → ℕ → ℕ → DefensiveAi fl → Match fl → Result fl
  approach_target delta_time id t ai m = elim (within_half_range fl id t m) [
    | none ↦ none
    | some near ↦ some (
      if near
          then record ai { state = pasive_stopped }
          else record ai { pasive_following_timer = sub ai.pasive_following_timer delta_time },
      m,
    )
  ]

  -- The part of `PasiveFollowing` with a target.
  unfoldable pub follow_target : Draws fl → F → ℕ → ℕ → DefensiveAi fl → Match fl → Result fl
  follow_target draws delta_time id t ai m =
      if Vector.less_equal fl ai.pasive_following_timer (lit 0 0)
      then (elim (start_pasive_following fl draws id t ai m) [
        | none ↦ none
        | some r ↦
            approach_target delta_time id t (record r.0 { pasive_following_timer = lit 15 1 }) r.1
      ])
      else approach_target delta_time id t ai m

  -- The part of `PasiveStopped` with a target.
  unfoldable pub watch_target : Draws fl → ℕ → ℕ → DefensiveAi fl → Match fl → Result fl
  watch_target draws id t ai m = elim (within_range fl id t m) [
    | none ↦ none
    | some near ↦ if not near then start_pasive_following fl draws id t ai m else some (ai, m)
  ]

  -- The end of `AggresiveFollowing`.
  unfoldable pub approach_enemy : F → ℕ → ℕ → DefensiveAi fl → Match fl → Result fl
  approach_enemy delta_time id e ai m = elim (within_half_range fl id e m) [
    | none ↦ none
    | some near ↦ some (
      if near then stop_aggresively fl ai else record ai {
        aggresive_following_timer = sub ai.aggresive_following_timer delta_time;
      },
      m,
    )
  ]

  -- The part of `AggresiveFollowing` with an enemy.
  unfoldable pub chase : Draws fl → F → ℕ → ℕ → DefensiveAi fl → Match fl → Result fl
  chase draws delta_time id e ai m =
      if Vector.less_equal fl ai.aggresive_following_timer (lit 0 0)
      then (elim (start_aggresive_following fl draws id e ai m) [
        | none ↦ none
        | some r ↦
            approach_enemy delta_time id e (record r.0 { aggresive_following_timer = lit 15 1 }) r.1
      ])
      else approach_enemy delta_time id e ai m

  -- The part of `AggresiveStopped` with an enemy.
  unfoldable pub hold : Draws fl → ℕ → ℕ → DefensiveAi fl → Match fl → Result fl
  hold draws id e ai m = elim (within_range fl id e m) [
    | none ↦ none
    | some near ↦ if not near then start_aggresive_following fl draws id e ai m else some (ai, m)
  ]

  -- The first two questions of both aggresive states.
  unfoldable pub engage :
      Draws fl
      → (ℕ → DefensiveAi fl → Match fl → Result fl)
      → ℕ
      → DefensiveAi fl
      → Match fl
      → Result fl
  engage draws go_on id ai m = elim (lookup id m.sessions) [
    | none ↦ none
    | some npc ↦
        if low_hp fl npc.player
        then start_running_away fl id ai m
        else (elim ai.enemy [ none ↦ some (decide fl draws ai, m) | some e ↦ go_on e ai m ])
  ]

  -- The call through `m_State`.
  unfoldable pub step : State → Draws fl → F → ℕ → DefensiveAi fl → Match fl → Result fl
  step deciding draws delta_time id ai m = deciding_state draws delta_time id ai m
  step searching draws delta_time id ai m = searching_state draws id ai m
  step pasive_following draws delta_time id ai m =
      react fl (start_aggresive_following fl draws id) (follow_target draws delta_time id)
        (λ a n. some (decide fl draws a, n)) ai m
  step pasive_stopped draws delta_time id ai m =
      react fl (λ e a n. some (stop_aggresively fl a, n)) (watch_target draws id)
        (λ a n. some (decide fl draws a, n)) ai m
  step aggresive_following draws delta_time id ai m =
      engage draws (chase draws delta_time id) id ai m
  step aggresive_stopped draws delta_time id ai m = engage draws (hold draws id) id ai m
  step running_away draws delta_time id ai m = some (ai, m)

  unfoldable pub update_ai : Draws fl → F → ℕ → DefensiveAi fl → Match fl → Result fl
  update_ai draws delta_time id ai m = elim (detect_targets fl delta_time id ai m) [
    | none ↦ none
    | some r ↦ step r.0.state draws delta_time id r.0 r.1
  ]

  -- What happens to an artificial player and around it: an update of it, an attack on it, a session
  -- that goes, of which all are told, one that comes, and the end of its attack.
  pub data Event : Type 0 where
    updated : Draws fl → F → Event
    attacked gone : ℕ → Event
    came : ℕ → Session fl → Event
    cancelled : Event

  unfoldable pub happen : ℕ → Event → DefensiveAi fl → Match fl → Result fl
  happen id (updated draws delta_time) ai m = update_ai draws delta_time id ai m
  happen id (attacked attacker) ai m =
      if contains attacker m.sessions then someone_attacks fl id attacker ai m else some (ai, m)
  happen id (gone other) ai m =
      some (someone_disappear fl other ai, record m { sessions = erase other m.sessions })
  happen id (came other session) ai m =
      some (ai, record m { sessions = insert other session m.sessions })
  happen id cancelled ai m =
      some (attack_cancelled fl ai, record m { attacks = erase id m.attacks })

  unfoldable pub happen_all : ℕ → List Event → DefensiveAi fl → Match fl → Result fl
  happen_all id [] ai m = some (ai, m)
  happen_all id (e ∷ es) ai m = elim (happen id e ai m) [
    | none ↦ none
    | some r ↦ happen_all id es r.0 r.1
  ]
