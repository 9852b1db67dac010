-- ===== src/Network/Receive/Active.antt =====
-- What lies in the receive buffer of a connection, and a connection seen as a framer.
use scalable_cross_platform.Prelude.{
  ℕ, ◌+◌, ◌-◌, ◌^◌, ◌≤◌, ◌<◌, ◌≡◌, sym, ap, ◌∙◌, Option, none, some, List, [], arith, length, take,
  drop, drop-drop, drop-take, take-take, if◌then◌else◌,
}
use scalable_cross_platform.Memory.Bytes.{read_at, length-read_at}
use scalable_cross_platform.Network.Buffer.{
  NetworkByteBuffer, IsSound, advance_read, advance_read-eq,
}
use scalable_cross_platform.Network.Framing.{Framer}
use scalable_cross_platform.Network.Receive.{Receiver}

-- The bytes that have arrived and have not been read.
abbrev pub active : NetworkByteBuffer → List ℕ
active b = read_at b.bytes b.read_position (b.write_position - b.read_position)

-- What of a message has arrived, and how much is missing.
abbrev pub progress : Option NetworkByteBuffer → Option (List ℕ × ℕ)
progress none = none
progress (some m) = some (take m.write_position m.bytes, length m.bytes - m.write_position)

-- A connection as a framer. A closed one reads nothing more of what it has.
abbrev pub view : Receiver → Framer
view c = record {
  partial = progress c.extracted;
  input = if c.closed then [] else active c.buffer;
  closed = c.closed;
  delivered = c.delivered;
}

abbrev pub IsPartial : Option NetworkByteBuffer → Type 0
IsPartial none = Unit {0}
IsPartial (some m) = (m.write_position < length m.bytes) × (length m.bytes < 2 ^ 63)

pub record IsValid (c : Receiver) : Type 0 where
  pub buffer : IsSound c.buffer
  pub extracted : IsPartial c.extracted

module _ (b : NetworkByteBuffer) (s : IsSound b) where
  pub length-active : length (active b) ≡ b.write_position - b.read_position
  length-active =
      length-read_at b.bytes b.read_position (b.write_position - b.read_position) (omega arith)

  pub read_at-active :
      (n k : ℕ)
      → n + k ≤ b.write_position - b.read_position
      → read_at b.bytes (b.read_position + n) k ≡ take k (drop n (active b))
  unfolding read_at
  read_at-active n k h =
      ap (take k) (sym (drop-drop n b.read_position b.bytes))
      ∙ sym (
          take-take k (b.write_position - b.read_position - n)
            (drop n (drop b.read_position b.bytes)) (omega arith))
      ∙ ap (take k)
          (sym (drop-take n (b.write_position - b.read_position) (drop b.read_position b.bytes)))

  pub active-advance :
      (n : ℕ)
      → n ≤ b.write_position - b.read_position
      → active (advance_read b n) ≡ drop n (active b)
  unfolding read_at
  active-advance n h =
      rw (advance_read-eq b n s (omega arith), drop-take n, drop-drop n b.read_position b.bytes)
        (ap (λ k. take k (drop (b.read_position + n) b.bytes)) (omega arith))

  pub advance_read-IsSound :
      (n : ℕ) → n ≤ b.write_position - b.read_position → IsSound (advance_read b n)
  advance_read-IsSound n h = rw (advance_read-eq b n s (omega arith)) (omega arith)
