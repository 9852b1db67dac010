-- ===== src/Game/Ai.antt =====
-- The artificial players of GameServer/GameServer: what the two behaviours share, in
-- FullAggresiveNPCAI.h and DefensiveNPCAI.h with the same text. A behaviour acts on the match. The
-- pointer to another session is the key of that session; `none` is the use of a session that is gone.
pub mod Steady
pub mod Seen
pub mod FullAggresive
pub mod Defensive
mod Tests
use scalable_cross_platform.Prelude.{
  ℕ, Bool, true, false, not, ◌&&◌, Option, none, some, List, [], ◌∷◌, ◌==◌, if◌then◌else◌,
}
use scalable_cross_platform.Prelude.Float.{Float}
use scalable_cross_platform.Prelude.Table.{lookup, contains}
use scalable_cross_platform.Game.Vector
use scalable_cross_platform.Game.Vector.{Vector2}
use scalable_cross_platform.Game.Player.{Player}
use scalable_cross_platform.Game.Match.{Session, Match, with_session, send_movement}
use scalable_cross_platform.Game.Match.Roster.{move_player}

module _ (fl : Float) where
  open fl use {F, lit, mul, div, neg, of_ℕ, cos, sin}

  -- The random numbers that one update may draw.
  pub record Draws : Type 0 where
    pub wait : F
    pub x : F
    pub y : F
    pub angle : F

  -- `MoveTo` of the artificial player, and `SendMovement`.
  unfoldable pub walk : ℕ → Vector2 fl → Match fl → Match fl
  walk id destination m =
      send_movement fl id destination (with_session fl id (move_player fl destination) m)

  -- `TransitionToSearchingState`, but for the state.
  unfoldable pub wander : ℕ → Draws → Match fl → Match fl
  wander id draws m = walk id (record { x = draws.x; y = neg draws.y }) m

  -- `TransitionToAggresiveFollowingState` and `TransitionToPasiveFollowingState`, but for the fields
  -- of the behaviour.
  unfoldable pub follow : ℕ → ℕ → Draws → Match fl → Option (Match fl)
  follow id other draws m = elim (lookup id m.sessions) [
    | none ↦ none
    | some s ↦ elim (lookup other m.sessions) [
      | none ↦ none
      | some t ↦
          let distance = div s.player.attack_radius (lit 2 0) in
          let point : Vector2 fl = record {
            x = mul (cos draws.angle) distance;
            y = mul (neg (sin draws.angle)) distance;
          } in
          some (walk id (Vector.plus fl t.player.position point) m)
    ]
  ]

  abbrev top_left : Vector2 fl
  top_left = record { x = lit 0 0; y = lit 0 0 }

  abbrev bottom_right : Vector2 fl
  bottom_right = record { x = lit 210 0; y = neg (lit 135 0) }

  -- `TransitionToRunningAwayState`, but for the state.
  unfoldable pub run_away : ℕ → Match fl → Option (Match fl)
  run_away id m = elim (lookup id m.sessions) [
    | none ↦ none
    | some s ↦
        let top_left_distance = Vector.distance fl s.player.position top_left in
        let bottom_right_distance = Vector.distance fl s.player.position bottom_right in
        some (
          walk id
            (if Vector.less_equal fl top_left_distance bottom_right_distance
              then top_left
              else bottom_right)
            m)
  ]

  -- `LowHPCondition`.
  unfoldable pub low_hp : Player fl → Bool
  low_hp p = Vector.less fl (of_ℕ p.hp) (mul (of_ℕ p.max_hp) (lit 2 1))

  -- Whether another session is within the attack range, or within half of it.
  unfoldable pub within_range : ℕ → ℕ → Match fl → Option Bool
  within_range id other m = elim (lookup id m.sessions) [
    | none ↦ none
    | some s ↦ elim (lookup other m.sessions) [
      | none ↦ none
      | some t ↦ some (
          Vector.less_equal fl (Vector.distance fl s.player.position t.player.position)
            s.player.attack_radius)
    ]
  ]

  unfoldable pub within_half_range : ℕ → ℕ → Match fl → Option Bool
  within_half_range id other m = elim (lookup id m.sessions) [
    | none ↦ none
    | some s ↦ elim (lookup other m.sessions) [
      | none ↦ none
      | some t ↦ some (
          Vector.less_equal fl (Vector.distance fl s.player.position t.player.position)
            (div s.player.attack_radius (lit 2 0)))
    ]
  ]

  -- The condition of the loops that look for somebody of another faction.
  unfoldable pub is_hostile_near : Player fl → Player fl → Bool
  is_hostile_near npc player =
      not (npc.faction == player.faction)
      && Vector.less_equal fl (Vector.distance fl npc.position player.position) npc.attack_radius
