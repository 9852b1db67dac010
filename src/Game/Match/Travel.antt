-- ===== src/Game/Match/Travel.antt =====
-- How sessions leave a match and arrive in one: `ActiveJump`, `UpdateJumps` and `UpdateTransfers` of
-- Match.h, with Jump.cpp and Portal.h. The message of a world state may be too large (see
-- Game.Message), and then its writing throws, which nothing catches.
pub mod Peace
use scalable_cross_platform.Prelude.{
  ℕ, Bool, true, false, not, Option, none, some, List, [], ◌∷◌, ◌++◌, ◌==◌, if◌then◌else◌, map,
}
use scalable_cross_platform.Prelude.Float.{Float}
use scalable_cross_platform.Prelude.Table.{lookup, contains, insert, erase, modify, keys}
use scalable_cross_platform.Game.Vector
use scalable_cross_platform.Game.Vector.{Vector2}
use scalable_cross_platform.Game.Player.{Player, new_entity}
use scalable_cross_platform.Memory.Exception.{ok, thrown}
use scalable_cross_platform.Game.Message.{
  WorldState, ServerMessage, world_state, jump_result, outgoing,
}
use scalable_cross_platform.Game.Aura.{Auras, InternalAura, internal_copy}
use scalable_cross_platform.Game.Match.{
  Session, Jump, Portal, Match, AttackEntry, call, send_someone_jumps, send_new_player,
  calculate_next_id,
}

module _ (fl : Float) where
  open fl use {F, lit, sub, div, of_ℕ}

  abbrev pub jump_time : F
  jump_time = lit 35 1

  abbrev pub portal_radius : F
  portal_radius = lit 10 0

  -- The loop over `m_Portals`: the first portal that is near enough.
  unfoldable pub near_portal : Vector2 fl → List (Portal fl) → Option (Portal fl)
  near_portal position [] = none
  near_portal position (p ∷ ps) =
      if Vector.less_equal fl (Vector.distance fl position p.position) portal_radius
      then some p
      else near_portal position ps

  -- `Match::ActiveJump`, with the session that it is given.
  unfoldable pub active_jump : ℕ → Session fl → Match fl → Match fl
  active_jump id jumper m =
      if contains id m.jumps then m else (elim (near_portal jumper.player.position m.portals) [
        | none ↦ call fl id (jump_result false) m
        | some p ↦ call fl id (jump_result true) (record m {
          jumps =
              insert id
                (record {
                  timer = jump_time;
                  destination_map = p.destination_map;
                  destination_position = p.destination_position;
                })
                m.jumps;
        })
      ])

  -- One round of `UpdateJumps` with `Jump::Update`, for the entry of `id`.
  unfoldable pub update_jump : ℕ → ℕ → Match fl → Match fl
  update_jump time_difference id m = elim (lookup id m.jumps) [
    | none ↦ m
    | some j ↦ elim (lookup id m.sessions) [
      | none ↦ record m { jumps = erase id m.jumps }
      | some s ↦
          if Vector.less_equal fl j.timer (lit 0 0)
          then (let n = send_someone_jumps fl id m in
              record n {
                jumps = erase id n.jumps;
                sessions = erase id n.sessions;
                departures = n.departures ++ ((j.destination_map, j.destination_position, s) ∷ []);
              })
          else record m {
            jumps =
                modify id
                  (λ (k : Jump fl). record k {
                    timer = sub k.timer (div (of_ℕ time_difference) (lit 1000 0));
                  })
                  m.jumps;
          }
    ]
  ]

  unfoldable pub update_jump_entries : ℕ → List ℕ → Match fl → Match fl
  update_jump_entries time_difference [] m = m
  update_jump_entries time_difference (id ∷ ids) m =
      update_jump_entries time_difference ids (update_jump time_difference id m)

  unfoldable pub update_jumps : ℕ → Match fl → Match fl
  update_jumps time_difference m = update_jump_entries time_difference (keys m.jumps) m

  abbrev pub values {ℓ} : {V : Type ℓ} → List (ℕ × V) → List V
  values [] = []
  values ((k, v) ∷ m) = v ∷ values m

  -- What `SendWorldState` reads.
  unfoldable pub world_of : ℕ → Player fl → Match fl → WorldState fl
  world_of id player m = record {
    id = id;
    player = player;
    map_id = m.map_id;
    sessions = map (λ e. (e.0, e.1.player)) m.sessions;
    attacks = map (λ e. (e.0, e.1.attacked)) m.attacks;
    portals = map (λ (p : Portal fl). p.position) m.portals;
    collectables = values m.collectables;
  }

  -- The world state of a session that comes in.
  unfoldable pub arrival : Session fl → Match fl → ServerMessage fl
  arrival s m = let (id, n) = calculate_next_id fl m in world_state (world_of id s.player n)

  -- The match with a session that has come in.
  unfoldable pub entered : Session fl → Match fl → Match fl
  entered s m =
      let (id, n) = calculate_next_id fl m in
      let o = send_new_player fl id s.player (call fl id (arrival s m) n) in
      record o { sessions = insert id s o.sessions }

  -- A session comes in: it gets an id and the world state, the others get the new player. Whether
  -- `SendWorldState` throws does not depend on what `malloc` gives.
  unfoldable pub enter : Session fl → Match fl → Option (Match fl)
  enter s m = elim (outgoing fl (λ i. 0) (arrival s m)) [
    | ok message ↦ some (entered s m)
    | thrown e ↦ none
  ]

  -- The copy of an aura that a new session takes over.
  unfoldable pub copy_auras : Auras fl → Auras fl
  copy_auras [] = []
  copy_auras ((id, a) ∷ as_) = (id, internal_copy fl a) ∷ copy_auras as_

  -- The player and the session on the new map.
  unfoldable pub transferred : ℕ → Vector2 fl → Session fl → Session fl
  transferred map_id position old = record old {
    player = record old.player {
      entity = new_entity fl position old.player.speed;
      map_id = map_id;
    };
    auras = copy_auras old.auras;
  }

  unfoldable pub enter_all : List (Vector2 fl × Session fl) → Match fl → Option (Match fl)
  enter_all [] m = some m
  enter_all ((position, old) ∷ rest) m = elim (enter (transferred m.map_id position old) m) [
    | none ↦ none
    | some n ↦ enter_all rest n
  ]

  -- `UpdateTransfers`.
  unfoldable pub update_transfers : Match fl → Option (Match fl)
  update_transfers m = elim (enter_all m.transfers m) [
    | none ↦ none
    | some n ↦ some (record n { transfers = [] })
  ]
