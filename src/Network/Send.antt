-- ===== src/Network/Send.antt =====
-- The sending half of Connection/Connection/Network/Include/Private/Connection.h. `in_flight` is
-- what the socket was last asked to write and has not reported on, and `wire` is all that it has
-- written.
pub mod Flow
pub mod Packing
pub mod Run
mod Tests
use scalable_cross_platform.Prelude.{
  ℕ, zero, suc, ◌+◌, ◌-◌, ◌^◌, ◌≤◌, Bool, true, false, not, Option, none, some, List, [], ◌∷◌, ◌++◌,
  length, take, ltb, leb, ◌==◌, if◌then◌else◌,
}
use scalable_cross_platform.Memory.Bytes.{write_at, read_at}
use scalable_cross_platform.Memory.Buffer.{resize}
use scalable_cross_platform.Network.Buffer.{
  NetworkByteBuffer, empty_buffer, remaining_space, active_size, advance_read, advance_write,
}

pub record Sender : Type 0 where
  pub buffers : List NetworkByteBuffer
  pub processing : Bool
  pub closed : Bool
  pub in_flight : Option (List ℕ)
  pub wire : List ℕ

abbrev pub idle : Sender
idle = record { buffers = []; processing = false; closed = false; in_flight = none; wire = [] }

-- `AsyncProcessSendingQueue`. It is only called when the queue is not empty.
unfoldable pub async_process_sending_queue : Sender → Sender
async_process_sending_queue c = if c.processing then c else (elim c.buffers [
  | [] ↦ c
  | b ∷ _ ↦ record c {
    processing = true;
    in_flight = some (read_at b.bytes b.read_position (active_size b));
  }
])

-- `EnqueueByteBuffer`. The buffer moves into the queue.
unfoldable pub enqueue_byte_buffer : Sender → NetworkByteBuffer → Sender
enqueue_byte_buffer c b = async_process_sending_queue (record c { buffers = c.buffers ++ (b ∷ []) })

-- The message is copied behind the write position.
unfoldable pub append_message : NetworkByteBuffer → List ℕ → NetworkByteBuffer
append_message b message =
    advance_write (record b { bytes = write_at b.bytes b.write_position message }) (length message)

module _ (junk : ℕ → ℕ) where
  unfoldable pub fresh_buffer : ℕ → NetworkByteBuffer
  fresh_buffer size = record empty_buffer { bytes = resize junk [] size }

  -- The first half of the body of `EndSendings`' loop: a buffer without room for the message goes.
  unfoldable pub make_room : ℕ → Sender × NetworkByteBuffer → List ℕ → Sender × NetworkByteBuffer
  make_room size (c, b) message =
      if ltb (remaining_space b) (length message)
      then (enqueue_byte_buffer c b, fresh_buffer size)
      else (c, b)

  -- The second half: a message that is larger than a whole buffer goes in one of its own.
  unfoldable pub place_message : Sender × NetworkByteBuffer → List ℕ → Sender × NetworkByteBuffer
  place_message (c, b) message =
      if leb (length message) (remaining_space b)
      then (c, append_message b message)
      else (enqueue_byte_buffer c (append_message (fresh_buffer (length message)) message), b)

  unfoldable pub pack_messages :
      ℕ → Sender × NetworkByteBuffer → List (List ℕ) → Sender × NetworkByteBuffer
  pack_messages size s [] = s
  pack_messages size s (message ∷ messages) =
      pack_messages size (place_message (make_room size s message) message) messages

  unfoldable pub flush_buffer : Sender × NetworkByteBuffer → Sender
  flush_buffer (c, b) = if ltb 0 (active_size b) then enqueue_byte_buffer c b else c

  -- `EndSendings` over the messages that the connection hook holds. Its result is `not closed`.
  unfoldable pub end_sendings : ℕ → Sender → List (List ℕ) → Sender
  end_sendings size c messages = flush_buffer (pack_messages size (c, fresh_buffer size) messages)

-- The end of `WriteHandler`: what is left in the queue is gone on with.
unfoldable pub next_buffer : Sender → Sender
next_buffer c = elim c.buffers [ [] ↦ c | _ ∷ _ ↦ async_process_sending_queue c ]

-- The first `n` bytes of what the socket was asked to write.
unfoldable pub taken : Option (List ℕ) → ℕ → List ℕ
taken none n = []
taken (some bs) n = take n bs

-- `WriteHandler`. `none` is an error of the socket; `some n` are the first `n` bytes in flight,
-- which the socket has written.
unfoldable pub write_handler : Sender → Option ℕ → Sender
write_handler c none = record c { closed = true; in_flight = none }
write_handler c (some n) = elim c.buffers [
  | [] ↦ c
  | b ∷ rest ↦
      let sent = advance_read b n in
      next_buffer (record c {
        processing = false;
        in_flight = none;
        wire = c.wire ++ taken c.in_flight n;
        buffers = if active_size sent == 0 then rest else sent ∷ rest;
      })
]
