-- ===== src/Game/Ai/Defensive.antt =====
-- GameServer/GameServer/DefensiveNPCAI.h: an artificial player that follows whom it meets and fights
-- back. `IsPvP` of a session is that of its auras.
pub mod States
pub mod Safety
pub mod Run
pub mod Life
use scalable_cross_platform.Prelude.{
  ℕ, Bool, true, false, not, ◌&&◌, Option, none, some, List, [], ◌∷◌, ◌==◌, if◌then◌else◌,
}
use scalable_cross_platform.Prelude.Float.{Float}
use scalable_cross_platform.Prelude.Table.{lookup, contains, insert, erase, keys}
use scalable_cross_platform.Game.Vector
use scalable_cross_platform.Game.Aura.{is_pvp}
use scalable_cross_platform.Game.Match.{Session, Match}
use scalable_cross_platform.Game.Match.Combat
use scalable_cross_platform.Game.Ai.{
  Draws, wander, follow, run_away, low_hp, within_range, within_half_range, is_hostile_near,
}

-- The functions that `m_State` points to.
pub data State : Type 0 where
  deciding searching pasive_following pasive_stopped aggresive_following aggresive_stopped
        running_away :
      State

module _ (fl : Float) where
  open fl use {F, lit, sub}

  pub record DefensiveAi : Type 0 where
    pub state : State
    pub stopped_timer : F
    pub target : Option ℕ
    pub target_id : ℕ
    pub enemy : Option ℕ
    pub enemy_id : ℕ
    pub pasive_following_timer : F
    pub aggresive_following_timer : F
    pub enemy_detection_timer : F

  unfoldable pub new_ai : DefensiveAi
  new_ai = record {
    state = deciding;
    stopped_timer = lit 0 0;
    target = none;
    target_id = 0;
    enemy = none;
    enemy_id = 0;
    pasive_following_timer = lit 0 0;
    aggresive_following_timer = lit 0 0;
    enemy_detection_timer = lit 0 0;
  }

  abbrev forget : ℕ → Option ℕ → ℕ → Option ℕ
  forget noted o id = if noted == id then none else o

  unfoldable pub someone_disappear : ℕ → DefensiveAi → DefensiveAi
  someone_disappear id ai = record ai {
    target = forget ai.target_id ai.target id;
    enemy = forget ai.enemy_id ai.enemy id;
  }

  unfoldable pub attack_cancelled : DefensiveAi → DefensiveAi
  attack_cancelled ai = record ai { enemy = none }

  -- What an update leaves: the behaviour and the match.
  abbrev pub Result : Type 0
  Result = Option (DefensiveAi × Match fl)

  -- `SomeoneAttacks`.
  unfoldable pub someone_attacks : ℕ → ℕ → DefensiveAi → Match fl → Result
  someone_attacks id attacker ai m = elim ai.enemy [
    | some e ↦ some (ai, m)
    | none ↦ elim (Combat.start fl id attacker m) [
      | none ↦ none
      | some n ↦ some (record ai { enemy = some attacker; enemy_id = attacker }, n)
    ]
  ]

  abbrev pub detected : ℕ → DefensiveAi → DefensiveAi
  detected other ai = record ai { target = some other; target_id = other }

  abbrev pub detection_elapsed : F → DefensiveAi → DefensiveAi
  detection_elapsed delta_time ai = record ai {
    enemy_detection_timer = sub ai.enemy_detection_timer delta_time;
  }

  -- The loop over the sessions, by their keys. It stops at the first that may be attacked.
  unfoldable pub look_around : F → ℕ → List ℕ → DefensiveAi → Match fl → Result
  look_around delta_time id [] ai m = some (detection_elapsed delta_time ai, m)
  look_around delta_time id (other ∷ rest) ai m = elim (lookup id m.sessions) [
    | none ↦ none
    | some npc ↦ elim (lookup other m.sessions) [
      | none ↦ look_around delta_time id rest ai m
      | some session ↦
          if is_hostile_near fl npc.player session.player && is_pvp fl session.auras
          then some (detected other ai, m)
          else look_around delta_time id rest ai m
    ]
  ]

  unfoldable pub detect_targets : F → ℕ → DefensiveAi → Match fl → Result
  detect_targets delta_time id ai m = elim ai.target [
    | some e ↦ some (ai, m)
    | none ↦
        if Vector.less_equal fl ai.enemy_detection_timer (lit 0 0)
        then look_around delta_time id (keys m.sessions)
            (record ai { enemy_detection_timer = lit 15 1 }) m
        else some (detection_elapsed delta_time ai, m)
  ]

  abbrev pub decide : Draws fl → DefensiveAi → DefensiveAi
  decide draws ai = record ai { stopped_timer = draws.wait; state = deciding }

  -- `TransitionToPasiveFollowingState`.
  unfoldable pub start_pasive_following : Draws fl → ℕ → ℕ → DefensiveAi → Match fl → Result
  start_pasive_following draws id t ai m = elim (follow fl id t draws m) [
    | none ↦ none
    | some n ↦ some (record ai { pasive_following_timer = lit 0 0; state = pasive_following }, n)
  ]

  -- `TransitionToAggresiveFollowingState`.
  unfoldable pub start_aggresive_following : Draws fl → ℕ → ℕ → DefensiveAi → Match fl → Result
  start_aggresive_following draws id e ai m = elim (follow fl id e draws m) [
    | none ↦ none
    | some n ↦ some (
      record ai { target = none; aggresive_following_timer = lit 0 0; state = aggresive_following },
      n,
    )
  ]

  -- `TransitionToAggresiveStoppedState`.
  abbrev pub stop_aggresively : DefensiveAi → DefensiveAi
  stop_aggresively ai = record ai { target = none; state = aggresive_stopped }

  -- `TransitionToRunningAwayState`.
  unfoldable pub start_running_away : ℕ → DefensiveAi → Match fl → Result
  start_running_away id ai m = elim (run_away fl id m) [
    | none ↦ none
    | some n ↦ some (record ai { state = running_away }, n)
  ]

  -- The questions whether there is an enemy, and then whether there is a target.
  abbrev pub react :
      (ℕ → DefensiveAi → Match fl → Result)
      → (ℕ → DefensiveAi → Match fl → Result)
      → (DefensiveAi → Match fl → Result)
      → DefensiveAi
      → Match fl
      → Result
  react on_enemy on_target otherwise ai m = elim ai.enemy [
    | some e ↦ on_enemy e ai m
    | none ↦ elim ai.target [ some t ↦ on_target t ai m | none ↦ otherwise ai m ]
  ]
