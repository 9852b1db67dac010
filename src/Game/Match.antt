-- ===== src/Game/Match.antt =====
-- GameServer/GameServer/Match.h: the tables of a match, and what it sends to its sessions. A session,
-- an attack and so on are held in the table that owns them, and a pointer or a reference to one is
-- the key of it: an id is never given twice (`CalculateNextID`). `none` is undefined behaviour, or
-- an exception, of `at` or of a stream, which nothing catches.
pub mod Combat
pub mod Travel
pub mod Gather
pub mod Roster
mod Tests
use scalable_cross_platform.Prelude.{
  ℕ, zero, suc, ◌+◌, ◌%◌, ◌^◌, Bool, true, false, not, Option, none, some, List, [], ◌∷◌, ◌++◌,
  ◌==◌, if◌then◌else◌, add_size,
}
use scalable_cross_platform.Prelude.Float.{Float}
use scalable_cross_platform.Prelude.Table.{lookup, contains, insert, erase, modify, keys}
use scalable_cross_platform.Game.Vector.{Vector2}
use scalable_cross_platform.Game.Player.{Player, Collectable}
use scalable_cross_platform.Game.Message.{
  ServerMessage, movement, someone_dies, status_update, someone_jumps, collectable_despawn,
  collectable_spawn, disconnection, new_player,
}
use scalable_cross_platform.Game.Attack.{Attack}
use scalable_cross_platform.Game.Collection.{Collection}
use scalable_cross_platform.Game.Aura.{Auras}

module _ (fl : Float) where
  open fl use {F}

  -- A `MatchSession`, or an `NPC`, which sends nothing and never disconnects.
  pub record Session : Type 0 where
    pub player : Player fl
    pub auras : Auras fl
    pub account : ℕ
    pub is_npc : Bool
    pub disconnection_time : ℕ

  -- `Attack` with the session that it holds. The attacker is the key.
  pub record AttackEntry : Type 0 where
    pub attacked : ℕ
    pub attack : Attack fl

  -- `Jump`. The jumper is the key.
  pub record Jump : Type 0 where
    pub timer : F
    pub destination_map : ℕ
    pub destination_position : Vector2 fl

  -- `Collection` with the collectable that it holds. The collector is the key.
  pub record CollectionEntry : Type 0 where
    pub collectable : ℕ
    pub collection : Collection fl

  pub record Portal : Type 0 where
    pub position : Vector2 fl
    pub destination_map : ℕ
    pub destination_position : Vector2 fl

  -- `calls` are the `Send…` that were called on the sessions, each with the session's id, in their
  -- order. `departures` are the sessions that were handed to the map manager with their
  -- destination, `signed_out` the accounts that were signed out, `despawned` the ids of the artificial
  -- players whose spawner was told, `transfers` the sessions that arrive from other maps.
  pub record Match : Type 0 where
    pub sessions : List (ℕ × Session)
    pub attacks : List (ℕ × AttackEntry)
    pub jumps : List (ℕ × Jump)
    pub collections : List (ℕ × CollectionEntry)
    pub collectables : List (ℕ × Collectable fl)
    pub portals : List Portal
    pub transfers : List (Vector2 fl × Session)
    pub map_id : ℕ
    pub next_id : ℕ
    pub calls : List (ℕ × ServerMessage fl)
    pub departures : List (ℕ × Vector2 fl × Session)
    pub signed_out : List ℕ
    pub despawned : List ℕ

  -- A call on one session.
  abbrev pub call : ℕ → ServerMessage fl → Match → Match
  call id message m = record m { calls = m.calls ++ ((id, message) ∷ []) }

  -- The loop over `m_Sessions`, for every session or for every one but `id`.
  abbrev pub to_all : ServerMessage fl → List ℕ → List (ℕ × ServerMessage fl)
  to_all message [] = []
  to_all message (i ∷ is) = (i, message) ∷ to_all message is

  abbrev pub to_others : ℕ → ServerMessage fl → List ℕ → List (ℕ × ServerMessage fl)
  to_others id message [] = []
  to_others id message (i ∷ is) =
      if id == i then to_others id message is else (i, message) ∷ to_others id message is

  abbrev pub call_all : ServerMessage fl → Match → Match
  call_all message m = record m { calls = m.calls ++ to_all message (keys m.sessions) }

  abbrev pub call_others : ℕ → ServerMessage fl → Match → Match
  call_others id message m = record m { calls = m.calls ++ to_others id message (keys m.sessions) }

  unfoldable pub send_movement : ℕ → Vector2 fl → Match → Match
  send_movement id destination m = call_others id (movement id destination) m

  unfoldable pub send_someone_dies : ℕ → Match → Match
  send_someone_dies id m = call_others id (someone_dies id) m

  unfoldable pub send_someone_jumps : ℕ → Match → Match
  send_someone_jumps id m = call_others id (someone_jumps id) m

  unfoldable pub send_disconnection : ℕ → Match → Match
  send_disconnection id m = call_all (disconnection id) m

  unfoldable pub send_collectable_spawn : Collectable fl → Match → Match
  send_collectable_spawn c m = call_all (collectable_spawn c) m

  unfoldable pub send_collectable_despawn : ℕ → Match → Match
  send_collectable_despawn id m = call_all (collectable_despawn id) m

  unfoldable pub send_new_player : ℕ → Player fl → Match → Match
  send_new_player id p m = call_all (new_player id p) m

  -- `SendStatusUpdate`, whose `at` throws for an id that is no session's.
  unfoldable pub send_status_update : ℕ → Match → Option Match
  send_status_update id m = elim (lookup id m.sessions) [
    | none ↦ none
    | some s ↦ some (
        call_all (status_update id s.player.hp s.player.max_hp s.player.shield s.player.max_shield)
          m)
  ]

  -- `CalculateNextID`.
  unfoldable pub calculate_next_id : Match → ℕ × Match
  calculate_next_id m = (m.next_id, record m { next_id = add_size m.next_id 1 })

  abbrev pub with_session : ℕ → (Session → Session) → Match → Match
  with_session id f m = record m { sessions = modify id f m.sessions }
