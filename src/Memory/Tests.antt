-- ===== src/Memory/Tests.antt =====
-- The theorems on streams at concrete values.
use scalable_cross_platform.Prelude.{◌≡◌, List, [], ◌∷◌, arith}
use scalable_cross_platform.Memory.Exception.{StreamException, writer, ok, thrown, out_of_bounds}
use scalable_cross_platform.Memory.Stream.{Primitive, Stream, u8, u16, size_of, put_all, get_all}
use scalable_cross_platform.Memory.StreamLaws.{kinds, put_all-get_all, put_all_refused}

abbrev values : List Primitive
values = record { kind = u16; pattern_bits = 513 } ∷ record { kind = u8; pattern_bits = 7 } ∷ []

abbrev room : Stream
room = record { bytes = 0 ∷ 0 ∷ 0 ∷ 0 ∷ []; position = 1 }

put_all-get_all_example :
    (t : Stream) × (put_all room values ≡ ok t)
    × (get_all (record t { position = 1 }) (kinds values) ≡ ok (values, t))
put_all-get_all_example =
    put_all-get_all values room (unfold size_of in omega arith) (omega arith)
      (unfold size_of in omega arith, (unfold size_of in omega arith, tt))

put_all_refused_example :
    (e : StreamException) × (put_all (record room { position = 2 }) values
      ≡ thrown (out_of_bounds e))
    × (e.stream_type ≡ writer)
    × (e.byte_buffer_size ≡ 4)
put_all_refused_example =
    put_all_refused values (record room { position = 2 }) (omega arith)
      (unfold size_of in omega arith) (omega arith)
