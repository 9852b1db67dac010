-- ===== src/Protocol/Opcodes.antt =====
-- GameServerPublic/GameServerPublic/Protocol/Include/Public/Opcodes.h.
use scalable_cross_platform.Prelude.{ℕ}

pub data ServerOpcode : Type 0 where
  s_authentification_challenge s_new_player s_world_state s_movement s_disconnection s_you_die
        s_someone_dies s_damage_done s_damage_received s_out_of_range s_status_update s_start_attack
        s_stop_attack s_cancel_attack s_attack_response s_someone_jumps s_jump_result s_collecting
        s_collection_result s_collectable_spawn s_collectable_despawn s_disconnection_cancelled
        s_time_response s_disconnection_started :
      ServerOpcode

unfoldable pub server_code : ServerOpcode → ℕ
server_code s_authentification_challenge = 0
server_code s_new_player = 1
server_code s_world_state = 2
server_code s_movement = 3
server_code s_disconnection = 4
server_code s_you_die = 5
server_code s_someone_dies = 6
server_code s_damage_done = 7
server_code s_damage_received = 8
server_code s_out_of_range = 9
server_code s_status_update = 10
server_code s_start_attack = 11
server_code s_stop_attack = 12
server_code s_cancel_attack = 13
server_code s_attack_response = 14
server_code s_someone_jumps = 15
server_code s_jump_result = 16
server_code s_collecting = 17
server_code s_collection_result = 18
server_code s_collectable_spawn = 19
server_code s_collectable_despawn = 20
server_code s_disconnection_cancelled = 21
server_code s_time_response = 22
server_code s_disconnection_started = 23

pub data ClientOpcode : Type 0 where
  c_authentification_challenge c_movement c_start_attack c_stop_attack c_jump c_collect c_keep_alive
        c_start_disconnection c_time_request c_cancel_disconnection :
      ClientOpcode

unfoldable pub client_code : ClientOpcode → ℕ
client_code c_authentification_challenge = 0
client_code c_movement = 1
client_code c_start_attack = 2
client_code c_stop_attack = 3
client_code c_jump = 4
client_code c_collect = 5
client_code c_keep_alive = 6
client_code c_start_disconnection = 7
client_code c_time_request = 8
client_code c_cancel_disconnection = 9

abbrev pub client_opcode_size : ℕ
client_opcode_size = 10
