-- ===== src/Network/Buffer.antt =====
-- Connection/Connection/Network/Include/Private/NetworkByteBuffer.h and NetworkByteBufferPosition.h:
-- a byte buffer with the positions up to which it has been read and written.
use scalable_cross_platform.Prelude.{
  ℕ, ◌+◌, ◌-◌, ◌^◌, ◌≤◌, ◌<◌, ◌≡◌, List, [], arith, length, add_size, sub_size,
}

pub record NetworkByteBuffer : Type 0 where
  pub bytes : List ℕ
  pub read_position : ℕ
  pub write_position : ℕ

abbrev pub empty_buffer : NetworkByteBuffer
empty_buffer = record { bytes = []; read_position = 0; write_position = 0 }

unfoldable pub remaining_space : NetworkByteBuffer → ℕ
remaining_space b = sub_size (length b.bytes) b.write_position

unfoldable pub active_size : NetworkByteBuffer → ℕ
active_size b = sub_size b.write_position b.read_position

-- `GetReadPosition() += n` and `GetWritePosition() += n`.
unfoldable pub advance_read : NetworkByteBuffer → ℕ → NetworkByteBuffer
advance_read b n = record b { read_position = add_size b.read_position n }

unfoldable pub advance_write : NetworkByteBuffer → ℕ → NetworkByteBuffer
advance_write b n = record b { write_position = add_size b.write_position n }

-- What has been read was written, and what was written lies in the buffer.
pub record IsSound (b : NetworkByteBuffer) : Type 0 where
  pub ordered : b.read_position ≤ b.write_position
  pub within : b.write_position ≤ length b.bytes
  pub bounded : length b.bytes < 2 ^ 63

-- In a sound buffer no subtraction of the two sizes wraps.
pub active_size-eq :
    (b : NetworkByteBuffer) → IsSound b → active_size b ≡ b.write_position - b.read_position
unfolding active_size
active_size-eq b s = omega arith

pub remaining_space-eq :
    (b : NetworkByteBuffer) → IsSound b → remaining_space b ≡ length b.bytes - b.write_position
unfolding remaining_space
remaining_space-eq b s = omega arith

pub advance_read-eq :
    (b : NetworkByteBuffer) (n : ℕ)
    → IsSound b
    → b.read_position + n ≤ b.write_position
    → advance_read b n ≡ record b { read_position = b.read_position + n }
unfolding advance_read
advance_read-eq b n s h = ground arith
