-- ===== src/Network/Receive/Tests.antt =====
-- Two messages that arrive in three chunks, through a receive buffer of eight bytes.
use scalable_cross_platform.Prelude.{
  ℕ, ◌+◌, ◌≤◌, ◌≡◌, refl, Bool, true, false, List, [], ◌∷◌, arith,
}
use scalable_cross_platform.Memory.Bytes.{to_bytes, from_bytes, write_at, read_at}
use scalable_cross_platform.Memory.Buffer.{resize, fill}
use scalable_cross_platform.Network.Buffer.{
  remaining_space, active_size, advance_read, advance_write,
}
use scalable_cross_platform.Network.Framing.{feed_all}
use scalable_cross_platform.Network.Receive.{
  normalize_buffer, fill_message, start_message, extract_step, extract, extract_messages,
  async_read_some, handle_read, receive, receive_all, room, started,
}
use scalable_cross_platform.Network.Receive.Delivery.{
  connection_delivers, receive_all-refines, started-IsReady, room-pos,
}
use scalable_cross_platform.Network.Receive.Active.{view}

abbrev zeros : ℕ → ℕ
zeros i = 0

abbrev accept_all : ℕ → ℕ → Bool
accept_all size command = true

abbrev bodies : List (List ℕ)
bodies = (1 ∷ 0 ∷ 7 ∷ []) ∷ (2 ∷ 0 ∷ []) ∷ []

abbrev chunks : List (List ℕ)
chunks = (3 ∷ []) ∷ (0 ∷ 1 ∷ 0 ∷ 7 ∷ 2 ∷ []) ∷ (0 ∷ 2 ∷ 0 ∷ []) ∷ []

connection_delivers_example :
    ((receive_all zeros accept_all 2 (started zeros accept_all 8) chunks).delivered ≡ bodies)
    × ((receive_all zeros accept_all 2 (started zeros accept_all 8) chunks).closed ≡ false)
unfolding normalize_buffer fill_message start_message extract_step extract extract_messages
    async_read_some handle_read receive receive_all room started write_at read_at resize fill
    remaining_space active_size advance_read advance_write to_bytes from_bytes
connection_delivers_example =
    connection_delivers zeros accept_all 2 8 (omega arith) (omega arith) chunks bodies refl
      (
        record { has_opcode = omega arith; sized = omega arith; accepted = refl },
        (record { has_opcode = omega arith; sized = omega arith; accepted = refl }, tt),
      )
      (omega arith, (omega arith, (omega arith, tt)))

receive_all-refines_example :
    view (receive_all zeros accept_all 2 (started zeros accept_all 8) chunks)
    ≡ feed_all accept_all (view (started zeros accept_all 8)) chunks
unfolding normalize_buffer fill_message start_message extract_step extract extract_messages
    async_read_some handle_read receive receive_all room started write_at read_at resize fill
    remaining_space active_size advance_read advance_write to_bytes from_bytes
receive_all-refines_example =
    receive_all-refines zeros accept_all 2 8 (omega arith) chunks (started zeros accept_all 8)
      (started-IsReady zeros accept_all 2 8 (omega arith) (omega arith))
      (omega arith, (omega arith, (omega arith, tt)))

room-pos_example : 8 ≤ room zeros accept_all 2 (started zeros accept_all 8) + 3
room-pos_example =
    room-pos zeros accept_all 2 8 (omega arith) (started zeros accept_all 8)
      (started-IsReady zeros accept_all 2 8 (omega arith) (omega arith)) (unfold started in refl)
