-- ===== src/Network/Send/Tests.antt =====
-- Two rounds of sending, with a buffer of five bytes.
use scalable_cross_platform.Prelude.{ℕ, ◌≡◌, refl, List, [], ◌∷◌, ◌++◌, arith}
use scalable_cross_platform.Memory.Bytes.{write_at, read_at}
use scalable_cross_platform.Memory.Buffer.{resize, fill}
use scalable_cross_platform.Network.Buffer.{
  remaining_space, active_size, advance_read, advance_write,
}
use scalable_cross_platform.Network.Send.{
  idle, async_process_sending_queue, enqueue_byte_buffer, append_message, fresh_buffer, make_room,
  place_message, pack_messages, flush_buffer, end_sendings, next_buffer, taken, write_handler,
}
use scalable_cross_platform.Network.Send.Flow.{pending}
use scalable_cross_platform.Network.Send.Run.{
  Event, end_round, written, run, requested, sends_in_order, sends_everything,
}

abbrev zeros : ℕ → ℕ
zeros i = 0

-- Two messages share a buffer, the next is too large for one, and the socket takes what it likes.
abbrev rounds : List Event
rounds =
    end_round ((1 ∷ 2 ∷ []) ∷ (3 ∷ 4 ∷ []) ∷ (5 ∷ 6 ∷ 7 ∷ 8 ∷ 9 ∷ 10 ∷ []) ∷ [])
    ∷ written 3
    ∷ end_round ((11 ∷ []) ∷ [])
    ∷ written 1
    ∷ []

abbrev all_written : List Event
all_written = rounds ++ (written 6 ∷ written 1 ∷ [])

sends_in_order_example :
    (run zeros 5 idle rounds).wire ++ pending (run zeros 5 idle rounds).buffers ≡ requested rounds
unfolding run end_sendings flush_buffer pack_messages make_room place_message append_message
    fresh_buffer enqueue_byte_buffer async_process_sending_queue next_buffer taken write_handler
    write_at read_at resize fill remaining_space active_size advance_read advance_write
sends_in_order_example = sends_in_order zeros 5 (omega arith) rounds (
  (omega arith, (omega arith, (omega arith, tt))),
  (omega arith, ((omega arith, tt), (omega arith, tt))),
)

sends_everything_example : (run zeros 5 idle all_written).wire ≡ requested all_written
unfolding run end_sendings flush_buffer pack_messages make_room place_message append_message
    fresh_buffer enqueue_byte_buffer async_process_sending_queue next_buffer taken write_handler
    write_at read_at resize fill remaining_space active_size advance_read advance_write
sends_everything_example =
    sends_everything zeros 5 (omega arith) all_written
      (
        (omega arith, (omega arith, (omega arith, tt))),
        (omega arith, ((omega arith, tt), (omega arith, (omega arith, (omega arith, tt))))),
      )
      refl refl
