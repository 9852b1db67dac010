-- ===== src/Game/Ai/FullAggresive.antt =====
-- GameServer/GameServer/FullAggresiveNPCAI.h: an artificial player that attacks whom it meets.
pub mod Safety
pub mod Run
pub mod Turn
use scalable_cross_platform.Prelude.{
  ℕ, Bool, true, false, not, Option, none, some, List, [], ◌∷◌, ◌==◌, if◌then◌else◌,
}
use scalable_cross_platform.Prelude.Float.{Float}
use scalable_cross_platform.Prelude.Table.{lookup, contains, insert, erase, keys}
use scalable_cross_platform.Game.Vector
use scalable_cross_platform.Game.Match.{Session, Match}
use scalable_cross_platform.Game.Match.Combat
use scalable_cross_platform.Game.Ai.{
  Draws, wander, follow, run_away, low_hp, within_range, within_half_range, is_hostile_near,
}

-- The functions that `m_State` points to.
pub data State : Type 0 where
  deciding searching aggresive_following aggresive_stopped running_away : State

module _ (fl : Float) where
  open fl use {F, lit, sub}

  pub record FullAggresiveAi : Type 0 where
    pub state : State
    pub stopped_timer : F
    pub enemy : Option ℕ
    pub enemy_id : ℕ
    pub aggresive_following_timer : F
    pub enemy_detection_timer : F

  unfoldable pub new_ai : FullAggresiveAi
  new_ai = record {
    state = deciding;
    stopped_timer = lit 0 0;
    enemy = none;
    enemy_id = 0;
    aggresive_following_timer = lit 0 0;
    enemy_detection_timer = lit 0 0;
  }

  unfoldable pub someone_disappear : ℕ → FullAggresiveAi → FullAggresiveAi
  someone_disappear id ai = if ai.enemy_id == id then record ai { enemy = none } else ai

  unfoldable pub attack_cancelled : FullAggresiveAi → FullAggresiveAi
  attack_cancelled ai = record ai { enemy = none }

  -- What an update leaves: the behaviour and the match.
  abbrev pub Result : Type 0
  Result = Option (FullAggresiveAi × Match fl)

  abbrev detected : ℕ → FullAggresiveAi → FullAggresiveAi
  detected other ai = record ai { enemy = some other; enemy_id = other }

  abbrev detection_elapsed : F → FullAggresiveAi → FullAggresiveAi
  detection_elapsed delta_time ai = record ai {
    enemy_detection_timer = sub ai.enemy_detection_timer delta_time;
  }

  -- The loop over the sessions, by their keys. It stops at the first that could be attacked.
  unfoldable pub look_around : F → ℕ → List ℕ → FullAggresiveAi → Match fl → Result
  look_around delta_time id [] ai m = some (detection_elapsed delta_time ai, m)
  look_around delta_time id (other ∷ rest) ai m = elim (lookup id m.sessions) [
    | none ↦ none
    | some npc ↦ elim (lookup other m.sessions) [
      | none ↦ look_around delta_time id rest ai m
      | some session ↦
          if not (is_hostile_near fl npc.player session.player)
          then look_around delta_time id rest ai m
          else (elim (Combat.start fl id other m) [
            | none ↦ none
            | some n ↦
                if contains id n.attacks
                then some (detected other ai, n)
                else look_around delta_time id rest ai n
          ])
    ]
  ]

  unfoldable pub detect_enemies : F → ℕ → FullAggresiveAi → Match fl → Result
  detect_enemies delta_time id ai m = elim ai.enemy [
    | some e ↦ some (ai, m)
    | none ↦
        if Vector.less_equal fl ai.enemy_detection_timer (lit 0 0)
        then look_around delta_time id (keys m.sessions)
            (record ai { enemy_detection_timer = lit 15 1 }) m
        else some (detection_elapsed delta_time ai, m)
  ]

  abbrev decide : Draws fl → FullAggresiveAi → FullAggresiveAi
  decide draws ai = record ai { stopped_timer = draws.wait; state = deciding }

  -- `TransitionToAggresiveFollowingState`.
  unfoldable pub start_following : Draws fl → ℕ → ℕ → FullAggresiveAi → Match fl → Result
  start_following draws id e ai m = elim (follow fl id e draws m) [
    | none ↦ none
    | some n ↦
        some (record ai { aggresive_following_timer = lit 0 0; state = aggresive_following }, n)
  ]

  -- `TransitionToRunningAwayState`.
  unfoldable pub start_running_away : ℕ → FullAggresiveAi → Match fl → Result
  start_running_away id ai m = elim (run_away fl id m) [
    | none ↦ none
    | some n ↦ some (record ai { state = running_away }, n)
  ]

  unfoldable pub deciding_state : Draws fl → F → ℕ → FullAggresiveAi → Match fl → Result
  deciding_state draws delta_time id ai m =
      if Vector.less_equal fl ai.stopped_timer (lit 0 0)
      then some (record ai { state = searching }, wander fl id draws m)
      else (elim ai.enemy [
        | some e ↦ start_following draws id e ai m
        | none ↦ some (record ai { stopped_timer = sub ai.stopped_timer delta_time }, m)
      ])

  unfoldable pub searching_state : Draws fl → ℕ → FullAggresiveAi → Match fl → Result
  searching_state draws id ai m = elim (lookup id m.sessions) [
    | none ↦ none
    | some npc ↦
        if not npc.player.moving
        then some (decide draws ai, m)
        else (elim ai.enemy [ some e ↦ start_following draws id e ai m | none ↦ some (ai, m) ])
  ]

  -- The end of `AggresiveFollowing`.
  unfoldable pub approach : F → ℕ → ℕ → FullAggresiveAi → Match fl → Result
  approach delta_time id e ai m = elim (within_half_range fl id e m) [
    | none ↦ none
    | some near ↦ some (
      if near then record ai { state = aggresive_stopped } else record ai {
        aggresive_following_timer = sub ai.aggresive_following_timer delta_time;
      },
      m,
    )
  ]

  -- The part of `AggresiveFollowing` with an enemy.
  unfoldable pub chase : Draws fl → F → ℕ → ℕ → FullAggresiveAi → Match fl → Result
  chase draws delta_time id e ai m =
      if Vector.less_equal fl ai.aggresive_following_timer (lit 0 0)
      then (elim (start_following draws id e ai m) [
        | none ↦ none
        | some r ↦
            approach delta_time id e (record r.0 { aggresive_following_timer = lit 15 1 }) r.1
      ])
      else approach delta_time id e ai m

  -- The part of `AggresiveStopped` with an enemy.
  unfoldable pub hold : Draws fl → ℕ → ℕ → FullAggresiveAi → Match fl → Result
  hold draws id e ai m = elim (within_range fl id e m) [
    | none ↦ none
    | some near ↦ if not near then start_following draws id e ai m else some (ai, m)
  ]

  -- The first two questions of both aggresive states.
  unfoldable pub engage :
      Draws fl → (ℕ → FullAggresiveAi → Match fl → Result) → ℕ → FullAggresiveAi → Match fl → Result
  engage draws go_on id ai m = elim (lookup id m.sessions) [
    | none ↦ none
    | some npc ↦
        if low_hp fl npc.player
        then start_running_away id ai m
        else (elim ai.enemy [ none ↦ some (decide draws ai, m) | some e ↦ go_on e ai m ])
  ]

  -- The call through `m_State`.
  unfoldable pub step : State → Draws fl → F → ℕ → FullAggresiveAi → Match fl → Result
  step deciding draws delta_time id ai m = deciding_state draws delta_time id ai m
  step searching draws delta_time id ai m = searching_state draws id ai m
  step aggresive_following draws delta_time id ai m =
      engage draws (λ e. chase draws delta_time id e) id ai m
  step aggresive_stopped draws delta_time id ai m = engage draws (λ e. hold draws id e) id ai m
  step running_away draws delta_time id ai m = some (ai, m)

  unfoldable pub update_ai : Draws fl → F → ℕ → FullAggresiveAi → Match fl → Result
  update_ai draws delta_time id ai m = elim (detect_enemies delta_time id ai m) [
    | none ↦ none
    | some r ↦ step r.0.state draws delta_time id r.0 r.1
  ]

  -- What happens to an artificial player and around it: an update of it, a session that goes, of
  -- which all are told, one that comes, and the end of its attack.
  pub data Event : Type 0 where
    updated : Draws fl → F → Event
    gone : ℕ → Event
    came : ℕ → Session fl → Event
    cancelled : Event

  unfoldable pub happen : ℕ → Event → FullAggresiveAi → Match fl → Result
  happen id (updated draws delta_time) ai m = update_ai draws delta_time id ai m
  happen id (gone other) ai m =
      some (someone_disappear other ai, record m { sessions = erase other m.sessions })
  happen id (came other session) ai m =
      some (ai, record m { sessions = insert other session m.sessions })
  happen id cancelled ai m = some (attack_cancelled ai, record m { attacks = erase id m.attacks })

  unfoldable pub happen_all : ℕ → List Event → FullAggresiveAi → Match fl → Result
  happen_all id [] ai m = some (ai, m)
  happen_all id (e ∷ es) ai m = elim (happen id e ai m) [
    | none ↦ none
    | some r ↦ happen_all id es r.0 r.1
  ]
