-- ===== src/Network/Receive/Delivery.antt =====
-- A connection delivers the messages that were sent to it, whatever the chunks in which their bytes
-- arrive.
use scalable_cross_platform.Prelude.{
  ℕ, ◌+◌, ◌-◌, ◌^◌, ◌≤◌, ◌<◌, ◌≡◌, refl, sym, ap, ◌∙◌, inl, inr, Bool, true, false, Option, none,
  some, List, [], ◌∷◌, arith, length, Bool-cases, All, flatten, map,
}
use scalable_cross_platform.Memory.Buffer.{length-resize}
use scalable_cross_platform.Network.Buffer.{NetworkByteBuffer, remaining_space, remaining_space-eq}
use scalable_cross_platform.Network.Framing.{Framer, start, feed, feed_all}
use scalable_cross_platform.Network.Framing.Steps.{Pending, feed_open, feed_closed, append}
use scalable_cross_platform.Network.Framing.Leftover.{settle-leftover}
use scalable_cross_platform.Network.Framing.Messages.{framed, IsSendable, feed_all-framed}
use scalable_cross_platform.Network.Receive.{
  Receiver, normalize_buffer, async_read_some, handle_read, receive, receive_all, room, started,
  Offered,
}
use scalable_cross_platform.Network.Receive.Active.{
  active, progress, view, IsPartial, IsValid, length-active,
}
use scalable_cross_platform.Network.Receive.Reading.{
  Normalized, normalize-Normalized, handle_read-refines, handle_read-length,
}

-- What holds between two reads.
pub record IsReady (size : ℕ) (c : Receiver) : Type 0 where
  pub valid : IsValid c
  pub leftover : length (view c).input < 4
  pub sized : length c.buffer.bytes ≡ size

Pending-progress : (x : Option NetworkByteBuffer) → IsPartial x → Pending (progress x)
Pending-progress none p = tt
Pending-progress (some m) p = omega arith

module _ (junk : ℕ → ℕ) (accepts : ℕ → ℕ → Bool) (multiplier size : ℕ) (enough : 4 ≤ size) where
  module _ (c : Receiver) (r : IsReady size c) (open_ : c.closed ≡ false) where
    abbrev normal : NetworkByteBuffer
    normal = normalize_buffer c.buffer

    normalized : Normalized c.buffer normal
    normalized = normalize-Normalized c.buffer r.valid.buffer

    unread_small : c.buffer.write_position - c.buffer.read_position < 4
    unread_small =
        omega (arith, length-active c.buffer r.valid.buffer, ap length input_open, r.leftover)
      where
        input_open : (view c).input ≡ active c.buffer
        input_open = rw open_

    remaining_normal : remaining_space normal ≡ size - normal.write_position
    remaining_normal =
        remaining_space-eq normal normalized.sound ∙ omega (arith, normalized.same_length, r.sized)

    -- There is room, so the buffer is never grown.
    async_read_some-eq :
        async_read_some junk accepts multiplier c
        ≡ some (record c { buffer = normal }, size - normal.write_position)
    unfolding async_read_some
    async_read_some-eq = ground (arith, open_, remaining_normal, normalized.filled, unread_small)

    offered : room junk accepts multiplier c ≡ size - normal.write_position
    unfolding room
    offered = rw (async_read_some-eq, room)

    receive-eq :
        (chunk : List ℕ)
        → receive junk accepts multiplier c chunk
          ≡ handle_read junk accepts (record c { buffer = normal }) (some chunk)
    unfolding receive
    receive-eq chunk = rw (async_read_some-eq, receive)

    -- A connection that is not closed and is between two reads, with a receive buffer of at least 4
    -- bytes, offers the socket all of the buffer but at most three bytes.
    pub room-pos : size ≤ room junk accepts multiplier c + 3
    room-pos = omega (arith, offered, normalized.filled, unread_small)

    receive-open :
        (chunk : List ℕ)
        → length chunk ≤ room junk accepts multiplier c
        → (view (receive junk accepts multiplier c chunk) ≡ feed accepts (view c) chunk)
          × IsReady size (receive junk accepts multiplier c chunk)
    receive-open chunk h =
        let (p, q) =
          handle_read-refines junk accepts (record c { buffer = normal }) chunk settled open_
            fits in
        let fed : view (receive junk accepts multiplier c chunk) ≡ feed accepts (view c) chunk =
          rw (receive-eq chunk) (p ∙ ap (λ v. feed accepts v chunk) same_view) in
        (
          fed,
          record {
            valid = rw (receive-eq chunk) q;
            leftover = omega (arith, ap (λ (v : Framer). length v.input) fed, small);
            sized = rw (receive-eq chunk) (
                handle_read-length junk accepts (record c { buffer = normal }) chunk fits
                ∙ normalized.same_length
                ∙ r.sized);
          },
        )
      where
        settled : IsValid (record c { buffer = normal })
        settled = record { buffer = normalized.sound; extracted = r.valid.extracted }

        fits : normal.write_position + length chunk ≤ length normal.bytes
        fits = omega (arith, offered, normalized.same_length, r.sized, normalized.sound.within)

        same_view : view (record c { buffer = normal }) ≡ view c
        same_view = rw (open_, normalized.same_active)

        small : length (feed accepts (view c) chunk).input < 4
        small = rw (feed_open accepts (view c) chunk open_) (
            settle-leftover accepts (append (view c) chunk)
              (Pending-progress c.extracted r.valid.extracted))

  receive-closed :
      (c : Receiver) (chunk : List ℕ)
      → c.closed ≡ true
      → receive junk accepts multiplier c chunk ≡ c
  unfolding receive async_read_some
  receive-closed c chunk shut = rw shut

  receive-refines :
      (c : Receiver) (chunk : List ℕ)
      → IsReady size c
      → length chunk ≤ room junk accepts multiplier c
      → (view (receive junk accepts multiplier c chunk) ≡ feed accepts (view c) chunk)
        × IsReady size (receive junk accepts multiplier c chunk)
  receive-refines c chunk r h = elim (Bool-cases c.closed) [
    | inl shut ↦ rw (receive-closed c chunk shut) (sym (feed_closed accepts (view c) chunk shut), r)
    | inr open_ ↦ receive-open c r open_ chunk h
  ]

  -- Let a connection with a receive buffer of at least 4 bytes be between two reads: its positions
  -- are in order, a message under way is not complete, fewer than 4 bytes are unread, and the buffer
  -- has its first size. Over any sequence of chunks, each of which has at most the size that the
  -- connection offers for it, the connection then delivers, keeps and closes as the framer does that
  -- works on plain lists.
  pub receive_all-refines :
      (chunks : List (List ℕ)) (c : Receiver)
      → IsReady size c
      → Offered junk accepts multiplier c chunks
      → view (receive_all junk accepts multiplier c chunks) ≡ feed_all accepts (view c) chunks
  unfolding receive_all feed_all
  receive_all-refines [] c r o = refl
  receive_all-refines (chunk ∷ chunks) c r o =
      let (p, q) = receive-refines c chunk r o.0 in
      receive_all-refines chunks _ q o.1 ∙ ap (λ v. feed_all accepts v chunks) p

  module _ (bounded : size < 2 ^ 63) where
    started-view : view (started junk accepts size) ≡ start
    unfolding started scalable_cross_platform.Memory.Bytes.read_at
    started-view = refl

    pub started-IsReady : IsReady size (started junk accepts size)
    unfolding started scalable_cross_platform.Memory.Bytes.read_at
    started-IsReady = record {
      valid = record {
        buffer = record {
          ordered = omega arith;
          within = omega arith;
          bounded = omega (arith, length-resize junk [] size);
        };
        extracted = tt;
      };
      leftover = omega arith;
      sized = length-resize junk [] size;
    }

    -- The bodies of messages are sent one behind the other, each with its size in front, and each
    -- holds an opcode, has a size of 16 bits and a header that the session hook accepts. The bytes
    -- arrive in chunks, each of which has at most the size that the connection offered for it. If the
    -- receive buffer has at least 4 bytes, and fewer than 2 ^ 63, exactly these bodies are handed to
    -- the session hook, in their order, and the connection stays open.
    pub connection_delivers :
        (chunks bodies : List (List ℕ))
        → flatten chunks ≡ flatten (map framed bodies)
        → All (IsSendable accepts) bodies
        → Offered junk accepts multiplier (started junk accepts size) chunks
        → ((receive_all junk accepts multiplier (started junk accepts size) chunks).delivered
            ≡ bodies)
          × ((receive_all junk accepts multiplier (started junk accepts size) chunks).closed
              ≡ false)
    connection_delivers chunks bodies e b o =
        (ap (λ (v : Framer). v.delivered) same, ap (λ (v : Framer). v.closed) same)
      where
        same :
            view (receive_all junk accepts multiplier (started junk accepts size) chunks)
            ≡ record start { delivered = bodies }
        same =
            receive_all-refines chunks (started junk accepts size) started-IsReady o
            ∙ ap (λ v. feed_all accepts v chunks) started-view
            ∙ feed_all-framed accepts chunks bodies e b
