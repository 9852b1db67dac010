-- ===== src/Memory/Bytes.antt =====
-- How a value of the machine lies in memory: little-endian bytes, as on the hosts that the
-- framework runs on. The source copies the bytes of a variable (`&value`, `sizeof(value)`).
use scalable_cross_platform.Prelude.{
  ℕ, zero, suc, ◌+◌, ◌*◌, ◌/◌, ◌%◌, ◌^◌, ◌≤◌, ◌<◌, ◌≡◌, refl, sym, ap, ◌∙◌, List, [], ◌∷◌, ◌++◌,
  append_assoc, arith, length, take, drop, length-append, length-take, length-drop, take-all,
  take-append_left, take-append_right, drop-append_right, take-append-drop, drop-drop, drop-all,
  append-nil,
}
use native.Mathlib.Nat.{pow-suc}

unfoldable pub to_bytes : ℕ → ℕ → List ℕ
to_bytes zero v = []
to_bytes (suc w) v = (v % 256) ∷ to_bytes w (v / 256)

unfoldable pub from_bytes : List ℕ → ℕ
from_bytes [] = 0
from_bytes (b ∷ bs) = b + 256 * from_bytes bs

pub length-to_bytes : (w v : ℕ) → length (to_bytes w v) ≡ w
unfolding to_bytes
length-to_bytes zero v = refl
length-to_bytes (suc w) v = ap suc (length-to_bytes w (v / 256))

div-lt-pow : (w v : ℕ) → v < 256 ^ suc w → v / 256 < 256 ^ w
div-lt-pow w v h = omega (arith, pow-suc 256 w)

-- Reading back what was laid down gives the value, if the width holds it.
pub from_bytes-to_bytes : (w v : ℕ) → v < 256 ^ w → from_bytes (to_bytes w v) ≡ v
unfolding to_bytes from_bytes
from_bytes-to_bytes zero v h = omega arith
from_bytes-to_bytes (suc w) v h = omega (arith, from_bytes-to_bytes w (v / 256) (div-lt-pow w v h))

-- `std::memcpy(bytes + position, data, length)`.
unfoldable pub write_at : List ℕ → ℕ → List ℕ → List ℕ
write_at bs p xs = take p bs ++ (xs ++ drop (p + length xs) bs)

write_at_lem :
    (bs : List ℕ) (p : ℕ) (xs : List ℕ)
    → write_at bs p xs ≡ take p bs ++ (xs ++ drop (p + length xs) bs)
unfolding write_at
write_at_lem bs p xs = refl

pub write_at-nil : (bs : List ℕ) (p : ℕ) → write_at bs p [] ≡ bs
unfolding write_at
write_at-nil bs p = ap (λ k. take p bs ++ drop k bs) (omega arith) ∙ take-append-drop p bs

-- A write over the whole buffer leaves nothing of it.
pub write_at-whole : (bs xs : List ℕ) → length bs ≡ length xs → write_at bs 0 xs ≡ xs
unfolding write_at
write_at-whole bs xs e = ap (◌++◌ xs) (drop-all (0 + length xs) bs (omega arith)) ∙ append-nil xs

-- A write up to the end of the buffer.
pub write_at-end :
    (bs : List ℕ) (p : ℕ) (xs : List ℕ)
    → length bs ≤ p + length xs
    → write_at bs p xs ≡ take p bs ++ xs
unfolding write_at
write_at-end bs p xs h =
    ap (λ r. take p bs ++ (xs ++ r)) (drop-all (p + length xs) bs h)
    ∙ ap (◌++◌ (take p bs)) (append-nil xs)

-- The `n` bytes from `bytes + position` on.
unfoldable pub read_at : List ℕ → ℕ → ℕ → List ℕ
read_at bs p n = take n (drop p bs)

pub length-write_at :
    (bs : List ℕ) (p : ℕ) (xs : List ℕ)
    → p + length xs ≤ length bs
    → length (write_at bs p xs) ≡ length bs
unfolding write_at
length-write_at bs p xs h = omega (
  arith,
  length-append (take p bs) (xs ++ drop (p + length xs) bs),
  length-append xs (drop (p + length xs) bs),
  length-take p bs,
  length-drop (p + length xs) bs,
)

pub length-read_at : (bs : List ℕ) (p n : ℕ) → p + n ≤ length bs → length (read_at bs p n) ≡ n
unfolding read_at
length-read_at bs p n h = omega (arith, length-take n (drop p bs), length-drop p bs)

module _ (bs : List ℕ) (p : ℕ) (h : p ≤ length bs) where
  length-prefix : length (take p bs) ≡ p
  length-prefix = omega (arith, length-take p bs)

  take-write_at : (xs : List ℕ) → take p (write_at bs p xs) ≡ take p bs
  unfolding write_at
  take-write_at xs =
      take-append_left p (take p bs) (xs ++ drop (p + length xs) bs) (omega (arith, length-prefix))
      ∙ take-all p (take p bs) (omega (arith, length-prefix))

  pub drop-write_at : (xs : List ℕ) → drop p (write_at bs p xs) ≡ xs ++ drop (p + length xs) bs
  unfolding write_at
  drop-write_at xs =
      drop-append_right p (take p bs) (xs ++ drop (p + length xs) bs) (omega (arith, length-prefix))
      ∙ ap (λ k. drop k (xs ++ drop (p + length xs) bs)) {y = 0} (omega (arith, length-prefix))

  -- Bytes written and then read from the same place come back.
  pub read_at-write_at : (xs : List ℕ) → read_at (write_at bs p xs) p (length xs) ≡ xs
  unfolding read_at
  read_at-write_at xs = rw (drop-write_at xs) (
      take-append_left (length xs) xs (drop (p + length xs) bs) (omega arith)
      ∙ take-all (length xs) xs (omega arith))

  pub take_past-write_at : (xs : List ℕ) → take (p + length xs) (write_at bs p xs) ≡ take p bs ++ xs
  unfolding write_at
  take_past-write_at xs =
      take-append_right (p + length xs) (take p bs) (xs ++ drop (p + length xs) bs)
        (omega (arith, length-prefix))
      ∙ ap (◌++◌ (take p bs)) (
          ap (λ k. take k (xs ++ drop (p + length xs) bs)) {y = length xs}
            (omega (arith, length-prefix))
          ∙ take-append_left (length xs) xs (drop (p + length xs) bs) (omega arith)
          ∙ take-all (length xs) xs (omega arith))

  pub drop_past-write_at :
      (xs : List ℕ) (m : ℕ)
      → drop (p + length xs + m) (write_at bs p xs) ≡ drop (p + length xs + m) bs
  drop_past-write_at xs m =
      sym (drop-drop (length xs + m) p (write_at bs p xs) ∙ regroup (write_at bs p xs))
      ∙ rw (drop-write_at xs) (
          drop-append_right (length xs + m) xs (drop (p + length xs) bs) (omega arith)
          ∙ ap (λ k. drop k (drop (p + length xs) bs)) {y = m} (omega arith)
          ∙ drop-drop m (p + length xs) bs)
    where
      regroup : (zs : List ℕ) → drop (p + (length xs + m)) zs ≡ drop (p + length xs + m) zs
      regroup zs = ap (λ k. drop k zs) (omega arith)

  -- Two writes, the second behind the first, are one write.
  pub write_at-write_at :
      (xs ys : List ℕ) → write_at (write_at bs p xs) (p + length xs) ys ≡ write_at bs p (xs ++ ys)
  write_at-write_at xs ys =
      write_at_lem (write_at bs p xs) (p + length xs) ys
      ∙ rw (take_past-write_at xs, drop_past-write_at xs (length ys), write_at_lem bs p (xs ++ ys))
          (append_assoc (take p bs) xs (ys ++ drop (p + length xs + length ys) bs)
            ∙ ap (◌++◌ (take p bs)) (
                sym (append_assoc xs ys (drop (p + length xs + length ys) bs))
                ∙ ap (λ k. (xs ++ ys) ++ drop k bs) (omega (arith, length-append xs ys))))
