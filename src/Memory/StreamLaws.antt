-- ===== src/Memory/StreamLaws.antt =====
-- What the streams of Memory/Stream do: a chain of `<<` that fits lays down its bytes, one that
-- does not fit throws, and a reader gets back what a writer put.
use scalable_cross_platform.Prelude.{
  ℕ, ◌+◌, ◌^◌, ◌≤◌, ◌<◌, ◌≡◌, refl, sym, ap, ◌∙◌, List, [], ◌∷◌, ◌++◌, map, arith, length,
  length-append, All, drop, drop-drop, drop-append_right, take-append_left, take-all, append_assoc,
}
use native.Mathlib.Decide.{dec_le}
use scalable_cross_platform.Memory.Bytes.{
  to_bytes, from_bytes, write_at, read_at, length-to_bytes, length-write_at, write_at-write_at,
  write_at-nil, drop-write_at, from_bytes-to_bytes,
}
use scalable_cross_platform.Memory.Exception.{writer, StreamException, out_of_bounds, ok, thrown}
use scalable_cross_platform.Memory.Stream.{
  Kind, u8, size_of, Primitive, Stream, operate_write, operate_read, put, get, put_all, get_all,
}

-- The bytes of a chain of values, and how many they are.
unfoldable pub encode : List Primitive → List ℕ
encode [] = []
encode (p ∷ ps) = to_bytes (size_of p.kind) p.pattern_bits ++ encode ps

abbrev pub width : List Primitive → ℕ
width [] = 0
width (p ∷ ps) = size_of p.kind + width ps

pub length-encode : (ps : List Primitive) → length (encode ps) ≡ width ps
unfolding encode
length-encode [] = refl
length-encode (p ∷ ps) = omega (
  arith,
  length-append (to_bytes (size_of p.kind) p.pattern_bits) (encode ps),
  length-to_bytes (size_of p.kind) p.pattern_bits,
  length-encode ps,
)

pub width-append : (ps qs : List Primitive) → width (ps ++ qs) ≡ width ps + width qs
width-append [] qs = omega arith
width-append (p ∷ ps) qs = omega (arith, width-append ps qs)

size_of-le : (k : Kind) → size_of k ≤ 8
unfolding size_of
size_of-le u8 = omega arith
size_of-le k = omega arith

-- The stream behind a value that was put.
abbrev pub written : Stream → Primitive → Stream
written s p = record {
  bytes = write_at s.bytes s.position (to_bytes (size_of p.kind) p.pattern_bits);
  position = s.position + size_of p.kind;
}

length-written :
    (s : Stream) (p : Primitive)
    → s.position + size_of p.kind ≤ length s.bytes
    → length (written s p).bytes ≡ length s.bytes
length-written s p h =
    length-write_at s.bytes s.position (to_bytes (size_of p.kind) p.pattern_bits)
      (omega (arith, length-to_bytes (size_of p.kind) p.pattern_bits))

put_fits :
    (s : Stream) (p : Primitive)
    → s.position + size_of p.kind ≤ length s.bytes
    → length s.bytes < 2 ^ 64
    → put s p ≡ ok (written s p)
unfolding put operate_write
put_fits s p h k = ground (arith, length-to_bytes (size_of p.kind) p.pattern_bits)

put_refused :
    (s : Stream) (p : Primitive)
    → s.position ≤ length s.bytes
    → length s.bytes < s.position + size_of p.kind
    → length s.bytes + 8 < 2 ^ 64
    → put s p
      ≡ thrown (
          out_of_bounds (record {
            byte_buffer_size = length s.bytes;
            stream_type = writer;
            stream_position = s.position;
            data_size = size_of p.kind;
          }))
unfolding put operate_write
put_refused s p g h k =
    ground (arith, length-to_bytes (size_of p.kind) p.pattern_bits, size_of-le p.kind)

-- A chain of `<<` whose values fit behind the position lays down their bytes there, in order,
-- moves the position behind them and touches nothing else.
pub put_all_fits :
    (ps : List Primitive) (s : Stream)
    → s.position + width ps ≤ length s.bytes
    → length s.bytes < 2 ^ 64
    → put_all s ps
      ≡ ok (record {
        bytes = write_at s.bytes s.position (encode ps);
        position = s.position + width ps;
      })
unfolding put_all encode
put_all_fits [] s h k = ground (arith, write_at-nil s.bytes s.position)
put_all_fits (p ∷ ps) s h k = rw (put_fits s p (omega arith) k) (
    put_all_fits ps (written s p) (omega (arith, length-written s p))
      (omega (arith, length-written s p))
    ∙ ground (
      arith,
      write_at-write_at s.bytes s.position (omega arith) (to_bytes (size_of p.kind) p.pattern_bits)
          (encode ps),
      length-to_bytes (size_of p.kind) p.pattern_bits,
    ))

-- A chain of `<<` whose values do not all fit behind the position, which is in the buffer, throws an
-- out-of-bounds exception of the writer, which holds the size of the buffer, as long as sizes near
-- 2 ^ 64 do not occur.
pub put_all_refused :
    (ps : List Primitive) (s : Stream)
    → s.position ≤ length s.bytes
    → length s.bytes < s.position + width ps
    → length s.bytes + 8 < 2 ^ 64
    → (e : StreamException) × (put_all s ps ≡ thrown (out_of_bounds e))
      × (e.stream_type ≡ writer)
      × (e.byte_buffer_size ≡ length s.bytes)
unfolding put_all
put_all_refused [] s g h k = absurd (omega arith)
put_all_refused (p ∷ ps) s g h k = elim (dec_le (s.position + size_of p.kind) (length s.bytes)) [
  | yes fits ↦
      let same : length (written s p).bytes ≡ length s.bytes = length-written s p fits in
      let (e, q, t, b) =
        put_all_refused ps (written s p) (omega arith) (omega arith) (omega arith) in
      (e, rw (put_fits s p fits (omega arith)) q, t, b ∙ same)
  | no over ↦ (
    record {
      byte_buffer_size = length s.bytes;
      stream_type = writer;
      stream_position = s.position;
      data_size = size_of p.kind;
    },
    rw (put_refused s p g (omega arith) k),
    refl,
    refl,
  )
]

-- A value whose bit pattern fits its type.
abbrev pub IsRepresentable : Primitive → Type 0
IsRepresentable p = p.pattern_bits < 256 ^ size_of p.kind

get_reads :
    (s : Stream) (k : Kind)
    → s.position + size_of k ≤ length s.bytes
    → length s.bytes < 2 ^ 64
    → get s k
      ≡ ok (
        record { kind = k; pattern_bits = from_bytes (read_at s.bytes s.position (size_of k)) },
        record s { position = s.position + size_of k },
      )
unfolding get operate_read
get_reads s k h g = ground arith

read_front :
    (s : Stream) (p : Primitive) (rest : List ℕ)
    → drop s.position s.bytes ≡ to_bytes (size_of p.kind) p.pattern_bits ++ rest
    → IsRepresentable p
    → from_bytes (read_at s.bytes s.position (size_of p.kind)) ≡ p.pattern_bits
unfolding read_at
read_front s p rest e r =
    rw
      (
        e,
        take-append_left (size_of p.kind) laid rest (omega (arith, measured)),
        take-all (size_of p.kind) laid (omega (arith, measured)),
      )
      (from_bytes-to_bytes (size_of p.kind) p.pattern_bits r)
  where
    laid : List ℕ
    laid = to_bytes (size_of p.kind) p.pattern_bits

    measured : length laid ≡ size_of p.kind
    measured = length-to_bytes (size_of p.kind) p.pattern_bits

drop_front :
    (s : Stream) (p : Primitive) (rest : List ℕ)
    → drop s.position s.bytes ≡ to_bytes (size_of p.kind) p.pattern_bits ++ rest
    → drop (s.position + size_of p.kind) s.bytes ≡ rest
drop_front s p rest e =
    sym (drop-drop (size_of p.kind) s.position s.bytes)
    ∙ rw e (
        drop-append_right (size_of p.kind) laid rest (omega (arith, measured))
        ∙ ap (λ k. drop k rest) {y = 0} (omega (arith, measured)))
  where
    laid : List ℕ
    laid = to_bytes (size_of p.kind) p.pattern_bits

    measured : length laid ≡ size_of p.kind
    measured = length-to_bytes (size_of p.kind) p.pattern_bits

abbrev pub kinds : List Primitive → List Kind
kinds = map (λ p. p.kind)

-- A chain of `>>` over the bytes of a chain of values gives the values.
pub get_all_reads :
    (ps : List Primitive) (s : Stream) (rest : List ℕ)
    → drop s.position s.bytes ≡ encode ps ++ rest
    → s.position + width ps ≤ length s.bytes
    → length s.bytes < 2 ^ 64
    → All IsRepresentable ps
    → get_all s (kinds ps) ≡ ok (ps, record s { position = s.position + width ps })
unfolding get_all encode
get_all_reads [] s rest e h k r = ground arith
get_all_reads (p ∷ ps) s rest e h k r =
    rw
      (
        get_reads s p.kind (omega arith) k,
        read_front s p (encode ps ++ rest) split r.0,
        get_all_reads ps (record s { position = s.position + size_of p.kind }) rest
            (drop_front s p (encode ps ++ rest) split) (omega arith) k r.1,
      )
      (ground arith)
  where
    split :
        drop s.position s.bytes ≡ to_bytes (size_of p.kind) p.pattern_bits ++ (encode ps ++ rest)
    split = e ∙ append_assoc (to_bytes (size_of p.kind) p.pattern_bits) (encode ps) rest

-- If a chain of values, each of which fits its type, fits behind the position of a buffer of fewer
-- than 2 ^ 64 bytes, an exact fit included, then the writer puts it without an exception, and a reader
-- that starts where the writer did gets back what was put, value by value, and ends where the writer
-- ended.
pub put_all-get_all :
    (ps : List Primitive) (s : Stream)
    → s.position + width ps ≤ length s.bytes
    → length s.bytes < 2 ^ 64
    → All IsRepresentable ps
    → (t : Stream) × (put_all s ps ≡ ok t)
      × (get_all (record t { position = s.position }) (kinds ps) ≡ ok (ps, t))
put_all-get_all ps s h k r = (
  record { bytes = full; position = s.position + width ps },
  put_all_fits ps s h k,
  get_all_reads ps (record { bytes = full; position = s.position })
      (drop (s.position + length (encode ps)) s.bytes)
      (drop-write_at s.bytes s.position (omega arith) (encode ps)) (omega (arith, same))
      (omega (arith, same)) r,
)
  where
    full : List ℕ
    full = write_at s.bytes s.position (encode ps)

    same : length full ≡ length s.bytes
    same = length-write_at s.bytes s.position (encode ps) (omega (arith, length-encode ps))
