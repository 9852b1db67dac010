-- ===== src/Memory/Stream.antt =====
-- Connection/Connection/Memory/Include/Public: ByteStreamOperator.h, ByteStreamReader.h,
-- ByteStreamWriter.h, StreamReader.h and StreamWriter.h.
use scalable_cross_platform.Prelude.{
  ℕ, List, [], ◌∷◌, Option, none, some, length, add_size, ltb, if◌then◌else◌,
}
use scalable_cross_platform.Memory.Bytes.{to_bytes, from_bytes, write_at, read_at}
use scalable_cross_platform.Memory.Exception.{
  reader, writer, out_of_bounds, Result, ok, thrown, ◌>>=◌,
}

-- The types for which `<<` and `>>` are overloaded.
pub data Kind : Type 0 where
  u8 i8 u16 i16 u32 i32 u64 i64 f32 f64 : Kind

-- `sizeof`
unfoldable pub size_of : Kind → ℕ
size_of u8 = 1
size_of i8 = 1
size_of u16 = 2
size_of i16 = 2
size_of u32 = 4
size_of i32 = 4
size_of u64 = 8
size_of i64 = 8
size_of f32 = 4
size_of f64 = 8

-- A value of one of these types, by its bit pattern.
pub record Primitive : Type 0 where
  pub kind : Kind
  pub pattern_bits : ℕ

-- A stream over a byte buffer: the bytes that the buffer owns, and `m_Position`.
pub record Stream : Type 0 where
  pub bytes : List ℕ
  pub position : ℕ

-- `ByteStreamOperator::Operate` with the writer's `MemoryCopy`.
unfoldable pub operate_write : Stream → List ℕ → Option Stream
operate_write s xs =
    if ltb (length s.bytes) (add_size s.position (length xs))
    then none
    else some (record {
      bytes = write_at s.bytes s.position xs;
      position = add_size s.position (length xs);
    })

-- `ByteStreamOperator::Operate` with the reader's `MemoryCopy`.
unfoldable pub operate_read : Stream → ℕ → Option (List ℕ × Stream)
operate_read s n =
    if ltb (length s.bytes) (add_size s.position n)
    then none
    else some (read_at s.bytes s.position n, record s { position = add_size s.position n })

-- `StreamWriter::PrimitiveOperate`, which each `<<` calls.
unfoldable pub put : Stream → Primitive → Result Stream
unfolding operate_write
put s p = elim (operate_write s (to_bytes (size_of p.kind) p.pattern_bits)) [
  | some t ↦ ok t
  | none ↦ thrown (
      out_of_bounds (record {
        byte_buffer_size = length s.bytes;
        stream_type = writer;
        stream_position = s.position;
        data_size = size_of p.kind;
      }))
]

-- `StreamReader::PrimitiveOperate`, which each `>>` calls.
unfoldable pub get : Stream → Kind → Result (Primitive × Stream)
unfolding operate_read
get s k = elim (operate_read s (size_of k)) [
  | some (xs, t) ↦ ok (record { kind = k; pattern_bits = from_bytes xs }, t)
  | none ↦ thrown (
      out_of_bounds (record {
        byte_buffer_size = length s.bytes;
        stream_type = reader;
        stream_position = s.position;
        data_size = size_of k;
      }))
]

-- `stream << p << q << …`
unfoldable pub put_all : Stream → List Primitive → Result Stream
put_all s [] = ok s
put_all s (p ∷ ps) = do t ← put s p; put_all t ps

-- `stream >> p >> q >> …`
unfoldable pub get_all : Stream → List Kind → Result (List Primitive × Stream)
get_all s [] = ok ([], s)
get_all s (k ∷ ks) = do (p, t) ← get s k; (ps, u) ← get_all t ks; ok (p ∷ ps, u)
