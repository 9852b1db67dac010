-- ===== src/Game/Session/Tests.antt =====
-- A session whose state counts the bytes that its handlers find unread.
use scalable_cross_platform.Prelude.{
  ℕ, ◌+◌, ◌-◌, ◌≡◌, refl, true, List, [], ◌∷◌, arith, length, replicate,
}
use scalable_cross_platform.Memory.Bytes.{from_bytes}
use scalable_cross_platform.Memory.Exception.{StreamException, out_of_bounds}
use scalable_cross_platform.Game.Session.{
  PreprocessedMessage, is_valid_header, handled, Handler, escaped, update_session,
}
use scalable_cross_platform.Game.Session.Dispatch.{Finishes, update_session-short}
use scalable_cross_platform.Game.Session.Received.{receive_messages, received_messages-Finishes}

abbrev counting : Handler ℕ
counting n stream metadata = handled true (n + length stream.bytes - stream.position)

abbrev handlers : List (Handler ℕ)
handlers = replicate 10 counting

abbrev bodies : List (List ℕ)
bodies = (1 ∷ 0 ∷ 7 ∷ []) ∷ (6 ∷ 0 ∷ []) ∷ (8 ∷ 0 ∷ 5 ∷ []) ∷ []

received_messages-Finishes_example :
    Finishes ℕ handlers 2
      (receive_messages 100 [] bodies)
      (update_session ℕ handlers 2 true 0 (receive_messages 100 [] bodies))
received_messages-Finishes_example =
    received_messages-Finishes ℕ handlers 100 2 true 0 bodies refl (
      unfold is_valid_header from_bytes in
      (
        record { has_opcode = omega arith; sized = omega arith; accepted = refl },
        (
          record { has_opcode = omega arith; sized = omega arith; accepted = refl },
          (record { has_opcode = omega arith; sized = omega arith; accepted = refl }, tt),
        ),
      ))

abbrev bare : PreprocessedMessage
bare = record { data_bytes = 1 ∷ []; metadata = 0 }

update_session-short_example :
    (e : StreamException) × (update_session ℕ handlers 5 true 0 (bare ∷ [])
      ≡ escaped (out_of_bounds e))
    × (e.byte_buffer_size ≡ 1)
update_session-short_example = update_session-short ℕ handlers 4 true 0 bare [] (omega arith)
