-- ===== src/Network/Receive.antt =====
-- The receiving half of Connection/Connection/Network/Include/Private/Connection.h, over the two
-- positions of its buffer. `junk` is what fresh memory holds; `valid` is the session hook's
-- `IsValidHeader`; the messages handed to `ProcessReceivedMessage` are kept in `delivered`.
pub mod Active
pub mod Refine
pub mod Extract
pub mod Reading
pub mod Delivery
mod Tests
use scalable_cross_platform.Prelude.{
  ℕ, zero, suc, ◌+◌, ◌-◌, ◌*◌, ◌%◌, ◌^◌, ◌≤◌, Bool, true, false, not, ◌&&◌, Option, none, some,
  List, [], ◌∷◌, ◌++◌, length, ltb, leb, ◌==◌, if◌then◌else◌, sub_size,
}
use scalable_cross_platform.Memory.Bytes.{from_bytes, write_at, read_at}
use scalable_cross_platform.Memory.Buffer.{resize}
use scalable_cross_platform.Network.Buffer.{
  NetworkByteBuffer, empty_buffer, remaining_space, active_size, advance_read, advance_write,
}
use scalable_cross_platform.Network.Framing.{Loop, stop, continue, u16_of}

pub record Receiver : Type 0 where
  pub buffer : NetworkByteBuffer
  pub extracted : Option NetworkByteBuffer
  pub closed : Bool
  pub delivered : List (List ℕ)

-- `Connection::Close`, as far as the receiving half sees it.
unfoldable pub close : Receiver → Receiver
close c = record c { closed = true }

-- `NormalizeBuffer`: what has been read makes room at the front.
unfoldable pub normalize_buffer : NetworkByteBuffer → NetworkByteBuffer
normalize_buffer b =
    if ltb 0 b.read_position
    then record {
      bytes =
          if b.read_position == b.write_position
          then b.bytes
          else write_at b.bytes 0 (read_at b.bytes b.read_position (active_size b));
      read_position = 0;
      write_position = sub_size b.write_position b.read_position;
    }
    else b

-- The rest of `ExtractMessages`' round, once `m_ExtractedMessage` is `m`.
unfoldable pub fill_message : Receiver → NetworkByteBuffer → Loop Receiver
fill_message c m =
    if ltb (active_size c.buffer) (remaining_space m)
    then stop (record c {
      buffer = advance_read c.buffer (active_size c.buffer);
      extracted = some (
          advance_write
            (record m {
              bytes =
                  write_at m.bytes m.write_position
                    (read_at c.buffer.bytes c.buffer.read_position (active_size c.buffer));
            })
            (active_size c.buffer));
    })
    else continue (record c {
      buffer = advance_read c.buffer (remaining_space m);
      extracted = none;
      delivered =
          c.delivered
          ++ (write_at m.bytes m.write_position
                (read_at c.buffer.bytes c.buffer.read_position (remaining_space m))
              ∷ []);
    })

module _ (junk : ℕ → ℕ) (valid : ℕ → ℕ → Bool) where
  -- `m_ExtractedMessage == nullptr`: the header is looked at, and only its size is consumed.
  unfoldable pub start_message : Receiver → Loop Receiver
  start_message c =
      let size = u16_of (read_at c.buffer.bytes c.buffer.read_position 2) in
      let command = u16_of (read_at c.buffer.bytes (c.buffer.read_position + 2) 2) in
      let d : Receiver = record c { buffer = advance_read c.buffer 2 } in
      if ltb (active_size c.buffer) 4
      then stop c
      else (if not (valid size command)
          then stop (close d)
          else fill_message d (record empty_buffer { bytes = resize junk [] size }))

  -- One round of the `while` of `ExtractMessages`.
  unfoldable pub extract_step : Receiver → Loop Receiver
  extract_step c =
      if active_size c.buffer == 0
      then stop c
      else (elim c.extracted [ none ↦ start_message c | some m ↦ fill_message c m ])

  unfoldable pub extract : ℕ → Receiver → Receiver
  extract zero c = c
  extract (suc fuel) c = elim (extract_step c) [ stop d ↦ d | continue d ↦ extract fuel d ]

  -- Each round that goes on reads a byte at least, so this fuel is enough: see Receive/Refine.
  unfoldable pub extract_messages : Receiver → Receiver
  extract_messages c = extract (suc (active_size c.buffer)) c

  -- `AsyncReadSome` up to the call of the socket: the connection, and the room that it offers,
  -- which was measured before the buffer grows. A closed connection asks for nothing.
  unfoldable pub async_read_some : ℕ → Receiver → Option (Receiver × ℕ)
  async_read_some multiplier c =
      if c.closed
      then none
      else (let b = normalize_buffer c.buffer in
          some (
            record c {
              buffer =
                  if remaining_space b == 0
                  then record b {
                    bytes = resize junk b.bytes ((length b.bytes * multiplier) % 2 ^ 64);
                  }
                  else b;
            },
            remaining_space b,
          ))

  -- `HandleRead` up to its last line, which is `AsyncReadSome` again. `none` is an error of the
  -- socket; `some chunk` is what the socket wrote behind the write position.
  unfoldable pub handle_read : Receiver → Option (List ℕ) → Receiver
  handle_read c none = close c
  handle_read c (some chunk) = extract_messages (record c {
    buffer =
        advance_write
          (record c.buffer { bytes = write_at c.buffer.bytes c.buffer.write_position chunk })
          (length chunk);
  })

  -- A connection that goes on reading: the room is offered, and a chunk comes.
  unfoldable pub receive : ℕ → Receiver → List ℕ → Receiver
  receive multiplier c chunk = elim (async_read_some multiplier c) [
    | none ↦ c
    | some (d, room) ↦ handle_read d (some chunk)
  ]

  unfoldable pub receive_all : ℕ → Receiver → List (List ℕ) → Receiver
  receive_all multiplier c [] = c
  receive_all multiplier c (chunk ∷ chunks) =
      receive_all multiplier (receive multiplier c chunk) chunks

  -- How many bytes the socket is allowed to bring.
  unfoldable pub room : ℕ → Receiver → ℕ
  room multiplier c = elim (async_read_some multiplier c) [ none ↦ 0 | some (d, n) ↦ n ]

  -- A connection behind `Start`, with a receive buffer of the given size.
  unfoldable pub started : ℕ → Receiver
  started size = record {
    buffer = record empty_buffer { bytes = resize junk [] size };
    extracted = none;
    closed = false;
    delivered = [];
  }

  -- Each chunk has at most the size that was offered for it.
  abbrev pub Offered : ℕ → Receiver → List (List ℕ) → Type 0
  Offered multiplier c [] = Unit {0}
  Offered multiplier c (chunk ∷ chunks) =
      (length chunk ≤ room multiplier c) × Offered multiplier (receive multiplier c chunk) chunks
