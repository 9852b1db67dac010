-- ===== src/Memory/Buffer.antt =====
-- Connection/Connection/Memory/Include/Public/ByteBuffer.h. A buffer is the bytes that it owns, and
-- `m_Size` is their number. `junk i` is what the allocator's memory holds at index `i`; an
-- allocation that fails, whose result every caller drops, is left out.
use scalable_cross_platform.Prelude.{
  ℕ, zero, suc, ◌+◌, ◌-◌, ◌≤◌, ◌≡◌, refl, ap, ◌∙◌, List, [], ◌∷◌, ◌++◌, arith, length, take, drop,
  length-append, length-take, take-all, take-append_left,
}
use scalable_cross_platform.Memory.Bytes.{write_at}

take-nil : (n : ℕ) → take {A = ℕ} n [] ≡ []
take-nil zero = refl
take-nil (suc n) = refl

module _ (junk : ℕ → ℕ) where
  unfoldable pub fill : ℕ → ℕ → List ℕ
  fill i zero = []
  fill i (suc n) = junk i ∷ fill (suc i) n

  -- `ByteBuffer::Resize`: `realloc` keeps what fits.
  unfoldable pub resize : List ℕ → ℕ → List ℕ
  resize bs n = take n bs ++ fill (length bs) (n - length bs)

  pub length-fill : (i n : ℕ) → length (fill i n) ≡ n
  unfolding fill
  length-fill i zero = refl
  length-fill i (suc n) = ap suc (length-fill (suc i) n)

  pub length-resize : (bs : List ℕ) (n : ℕ) → length (resize bs n) ≡ n
  unfolding resize
  length-resize bs n = omega (
    arith,
    length-append (take n bs) (fill (length bs) (n - length bs)),
    length-take n bs,
    length-fill (length bs) (n - length bs),
  )

  -- A resize to a larger size keeps every byte.
  pub take-resize : (bs : List ℕ) (n : ℕ) → length bs ≤ n → take (length bs) (resize bs n) ≡ bs
  unfolding resize
  take-resize bs n h =
      take-append_left (length bs) (take n bs) (fill (length bs) (n - length bs))
        (omega (arith, length-take n bs))
      ∙ rw (take-all n bs h) (take-all (length bs) bs (omega arith))

  drop-fill : (k i n : ℕ) → drop k (fill i n) ≡ fill (i + k) (n - k)
  unfolding fill
  drop-fill zero i n = ap (λ j. fill j n) (omega arith) ∙ ap (fill (i + 0)) (omega arith)
  drop-fill (suc k) i zero = ap (fill (i + suc k)) {x = 0} (omega arith)
  drop-fill (suc k) i (suc n) =
      drop-fill k (suc i) n
      ∙ ap (λ j. fill j (n - k)) (omega arith)
      ∙ ap (fill (i + suc k)) (omega arith)

  resize-nil : (n : ℕ) → resize [] n ≡ fill 0 n
  unfolding resize
  resize-nil n = ap (λ bs. bs ++ fill 0 (n - 0)) (take-nil n) ∙ ap (fill 0) (omega arith)

  -- A write to all of a fresh buffer but its last byte leaves that byte as it was in memory.
  pub write_at-but_last :
      (n : ℕ) (xs : List ℕ)
      → length xs ≡ n
      → write_at (resize [] (suc n)) 0 xs ≡ xs ++ (junk n ∷ [])
  unfolding write_at
  write_at-but_last n xs e = ap (◌++◌ xs) (
      ap (drop (0 + length xs)) (resize-nil (suc n))
      ∙ drop-fill (0 + length xs) 0 (suc n)
      ∙ ap (fill (0 + (0 + length xs))) (omega arith)
      ∙ ap (λ j. fill j 1) (omega arith)
      ∙ last)
    where
      last : fill n 1 ≡ junk n ∷ []
      last = unfold fill in refl
