-- ===== src/Game/Message.antt =====
-- The messages that GameServer/GameServer/MatchSession.h, GameSession.h, Match.h
-- (`SendWorldState`) and Messages/NewPlayerMessage.cpp send: the body size that each declares and
-- the fields that it puts.
pub mod Sizes
pub mod Exact
mod Tests
use scalable_cross_platform.Prelude.{
  ℕ, ◌+◌, ◌*◌, ◌%◌, ◌^◌, Bool, true, false, List, [], ◌∷◌, ◌++◌, map, length, if◌then◌else◌,
}
use scalable_cross_platform.Prelude.Float.{Float}
use scalable_cross_platform.Memory.Exception.{Result}
use scalable_cross_platform.Memory.Stream.{Stream, Kind, u8, u16, u32, u64, f32, Primitive}
use scalable_cross_platform.Protocol.Opcodes.{
  ServerOpcode, server_code, s_authentification_challenge, s_new_player, s_world_state, s_movement,
  s_disconnection, s_you_die, s_someone_dies, s_damage_done, s_damage_received, s_out_of_range,
  s_status_update, s_start_attack, s_stop_attack, s_cancel_attack, s_attack_response,
  s_someone_jumps, s_jump_result, s_collecting, s_collection_result, s_collectable_spawn,
  s_collectable_despawn, s_disconnection_cancelled, s_time_response, s_disconnection_started,
}
use scalable_cross_platform.Protocol.Outgoing.{field, compose}
use scalable_cross_platform.Game.Vector.{Vector2}
use scalable_cross_platform.Game.Player.{
  Player, player_size, serialize_player, Collectable, collectable_size, serialize_collectable,
}

abbrev opcode : ServerOpcode → Primitive
opcode o = field u16 (server_code o)

abbrev flag : Bool → Primitive
flag value = field u8 (if value then 1 else 0)

-- `size += static_cast<std::uint16_t>(…)`, once for each entry.
unfoldable pub grow : ℕ → List ℕ → ℕ
grow size [] = size
grow size (n ∷ ns) = grow ((size + n % 2 ^ 16) % 2 ^ 16) ns

module _ (fl : Float) where
  open fl use {lit, bits}

  -- What `SendWorldState` reads of the match and of the session that it greets.
  pub record WorldState : Type 0 where
    pub id : ℕ
    pub player : Player fl
    pub map_id : ℕ
    pub sessions : List (ℕ × Player fl)
    pub attacks : List (ℕ × ℕ)
    pub portals : List (Vector2 fl)
    pub collectables : List (Collectable fl)

  unfoldable pub world_state_size : WorldState → ℕ
  world_state_size w =
      grow
        (grow
          (grow
            (grow ((2 + player_size fl w.player + 8 * 6 + 4 * 2) % 2 ^ 16)
              (map (λ s. 8 + player_size fl s.1) w.sessions))
            (map (λ a. 8 * 2) w.attacks))
          (map (λ p. 4 * 2 + 8) w.portals))
        (map (λ c. collectable_size fl) w.collectables)

  pub put_sessions : List (ℕ × Player fl) → List Primitive
  put_sessions [] = []
  put_sessions ((id, p) ∷ ss) = field u64 id ∷ (serialize_player fl p ++ put_sessions ss)

  pub put_attacks : List (ℕ × ℕ) → List Primitive
  put_attacks [] = []
  put_attacks ((attacker, attacked) ∷ rest) =
      field u64 attacker ∷ field u64 attacked ∷ put_attacks rest

  pub put_portals : List (Vector2 fl) → List Primitive
  put_portals [] = []
  put_portals (p ∷ ps) = field f32 (bits p.x) ∷ field f32 (bits p.y) ∷ field u64 0 ∷ put_portals ps

  pub put_collectables : List (Collectable fl) → List Primitive
  put_collectables [] = []
  put_collectables (c ∷ cs) = serialize_collectable fl c ++ put_collectables cs

  unfoldable pub serialize_world_state : WorldState → List Primitive
  unfolding put_sessions put_attacks put_portals put_collectables
  serialize_world_state w =
      (opcode s_world_state ∷ field u64 w.id ∷ [])
      ++ (serialize_player fl w.player
          ++ ((field u64 w.map_id
                ∷ field f32 (bits (lit 210 0))
                ∷ field f32 (bits (lit 135 0))
                ∷ field u64 (length w.sessions)
                ∷ [])
              ++ (put_sessions w.sessions
                  ++ (field u64 (length w.attacks)
                      ∷ (put_attacks w.attacks
                          ++ (field u64 (length w.portals)
                              ∷ (put_portals w.portals
                                  ++ (field u64 (length w.collectables)
                                      ∷ put_collectables w.collectables))))))))

  -- One constructor for each `Send…`.
  pub data ServerMessage : Type 0 where
    authentification_challenge you_die out_of_range cancel_attack disconnection_cancelled
          disconnection_started :
        ServerMessage
    new_player : ℕ → Player fl → ServerMessage
    world_state : WorldState → ServerMessage
    movement : ℕ → Vector2 fl → ServerMessage
    disconnection someone_dies stop_attack someone_jumps collecting collectable_despawn :
        ℕ → ServerMessage
    damage_done : ℕ → ℕ → ServerMessage
    damage_received : ℕ → ServerMessage
    status_update : ℕ → ℕ → ℕ → ℕ → ℕ → ServerMessage
    start_attack : ℕ → ℕ → ServerMessage
    attack_response jump_result collection_result : Bool → ServerMessage
    collectable_spawn : Collectable fl → ServerMessage
    time_response : ℕ → ℕ → ServerMessage

  -- The argument of the constructor of `OutgoingMessage`.
  unfoldable pub body_size : ServerMessage → ℕ
  unfolding world_state_size
  body_size authentification_challenge = 2
  body_size you_die = 2
  body_size out_of_range = 2
  body_size cancel_attack = 2
  body_size disconnection_cancelled = 2
  body_size disconnection_started = 2
  body_size (new_player id p) = (2 + 8 + player_size fl p) % 2 ^ 16
  body_size (world_state w) = world_state_size w
  body_size (movement id v) = 2 + 8 + 4 * 2
  body_size (disconnection id) = 2 + 8
  body_size (someone_dies id) = 2 + 8
  body_size (stop_attack id) = 2 + 8
  body_size (someone_jumps id) = 2 + 8
  body_size (collecting id) = 2 + 8
  body_size (collectable_despawn id) = 2 + 8
  body_size (damage_done id damage) = 2 + 8 + 4
  body_size (damage_received damage) = 2 + 4
  body_size (status_update id hp max_hp shield max_shield) = 2 + 8 + 4 * 4
  body_size (start_attack attacker attacked) = 2 + 8 * 2
  body_size (attack_response value) = 2 + 1
  body_size (jump_result result) = 2 + 1
  body_size (collection_result result) = 2 + 1
  body_size (collectable_spawn c) = (2 + collectable_size fl) % 2 ^ 16
  body_size (time_response counter time) = 2 + 4 * 2

  -- What goes through `GetStreamWriter() << …`.
  unfoldable pub fields : ServerMessage → List Primitive
  unfolding serialize_world_state
  fields authentification_challenge = opcode s_authentification_challenge ∷ []
  fields you_die = opcode s_you_die ∷ []
  fields out_of_range = opcode s_out_of_range ∷ []
  fields cancel_attack = opcode s_cancel_attack ∷ []
  fields disconnection_cancelled = opcode s_disconnection_cancelled ∷ []
  fields disconnection_started = opcode s_disconnection_started ∷ []
  fields (new_player id p) = (opcode s_new_player ∷ field u64 id ∷ []) ++ serialize_player fl p
  fields (world_state w) = serialize_world_state w
  fields (movement id v) =
      opcode s_movement ∷ field u64 id ∷ field f32 (bits v.x) ∷ field f32 (bits v.y) ∷ []
  fields (disconnection id) = opcode s_disconnection ∷ field u64 id ∷ []
  fields (someone_dies id) = opcode s_someone_dies ∷ field u64 id ∷ []
  fields (stop_attack id) = opcode s_stop_attack ∷ field u64 id ∷ []
  fields (someone_jumps id) = opcode s_someone_jumps ∷ field u64 id ∷ []
  fields (collecting id) = opcode s_collecting ∷ field u64 id ∷ []
  fields (collectable_despawn id) = opcode s_collectable_despawn ∷ field u64 id ∷ []
  fields (damage_done id damage) = opcode s_damage_done ∷ field u64 id ∷ field u32 damage ∷ []
  fields (damage_received damage) = opcode s_damage_received ∷ field u32 damage ∷ []
  fields (status_update id hp max_hp shield max_shield) =
      opcode s_status_update
      ∷ field u64 id
      ∷ field u32 hp
      ∷ field u32 max_hp
      ∷ field u32 shield
      ∷ field u32 max_shield
      ∷ []
  fields (start_attack attacker attacked) =
      opcode s_start_attack ∷ field u64 attacker ∷ field u64 attacked ∷ []
  fields (attack_response value) = opcode s_attack_response ∷ flag value ∷ []
  fields (jump_result result) = opcode s_jump_result ∷ flag result ∷ []
  fields (collection_result result) = opcode s_collection_result ∷ flag result ∷ []
  fields (collectable_spawn c) = opcode s_collectable_spawn ∷ serialize_collectable fl c
  fields (time_response counter time) =
      opcode s_time_response ∷ field u32 counter ∷ field u32 time ∷ []

  -- The buffer that is handed to `Session::Send`.
  unfoldable pub outgoing : (ℕ → ℕ) → ServerMessage → Result Stream
  outgoing junk m = compose junk (body_size m) (fields m)
