-- ===== src/Network/Framing/Chunks.antt =====
-- The framer of Network/Framing looks at the bytes and not at the chunks that they come in.
use scalable_cross_platform.Prelude.{
  ℕ, zero, suc, ◌-◌, ◌≤◌, ◌<◌, ◌≡◌, refl, sym, ap, ◌∙◌, inl, inr, Bool, true, false, Option, none,
  some, List, [], ◌∷◌, ◌++◌, append-nil, append_assoc, arith, length, take, drop, flatten,
  length-append, length-drop, take-append_left, drop-append_left, Bool-cases,
}
use native.Mathlib.Decide.{dec_lt}
use scalable_cross_platform.Network.Framing.{
  Framer, start, Loop, stop, continue, header_size_of, header_command_of, u16_of, complete,
  open_message, frame_step, frame, settle, feed, feed_all,
}
use scalable_cross_platform.Network.Framing.Steps.{
  Pending, append, Shrinks, complete-continue, waiting, completed, complete_short, complete_long,
  complete_long-append, complete-merge, frame_step_nil, frame_step-Shrinks, resume, settle-resume,
  settle-complete, settle-open, feed_open, feed_closed, open_message-short, open_message-good,
  open_message-bad,
}

module _ (valid : ℕ → ℕ → Bool) where
  module _ (b : List ℕ) where
    -- The rest of a message may come in two parts.
    feed-complete :
        (s : Framer) (got : List ℕ) (missing : ℕ)
        → s.closed ≡ false
        → ((t : Framer)
            → complete s got missing ≡ continue t
            → feed valid (settle valid t) b ≡ settle valid (append t b))
        → feed valid (resume valid (complete s got missing)) b
          ≡ resume valid (complete (append s b) got missing)
    feed-complete s got missing open_ ih = elim (dec_lt (length s.input) missing) [
      | yes short ↦ rw (complete_short s got missing short) (
          feed_open valid (waiting s got missing) b open_
          ∙ settle-complete valid (append (waiting s got missing) b) (got ++ s.input)
              (missing - length s.input) refl (omega arith)
          ∙ ap (resume valid) (complete-merge s got missing b short))
      | no long ↦ rw (complete_long s got missing (omega arith)) (
          ih (completed s got missing) (complete_long s got missing (omega arith))
          ∙ sym (ap (resume valid) (complete_long-append s got missing b (omega arith))))
    ]

    header_size-append : (i : List ℕ) → 4 ≤ length i → header_size_of (i ++ b) ≡ header_size_of i
    header_size-append i h = ap u16_of (take-append_left 2 i b (omega arith))

    header_command-append :
        (i : List ℕ) → 4 ≤ length i → header_command_of (i ++ b) ≡ header_command_of i
    header_command-append i h = ap u16_of (
        ap (take 2) (drop-append_left 2 i b (omega arith))
        ∙ take-append_left 2 (drop 2 i) b (omega (arith, length-drop 2 i)))

    feed-open_message :
        (s : Framer)
        → s.partial ≡ none
        → s.closed ≡ false
        → 0 < length s.input
        → ((t : Framer)
            → length t.input < length s.input
            → t.closed ≡ false
            → Pending t.partial
            → feed valid (settle valid t) b ≡ settle valid (append t b))
        → feed valid (resume valid (open_message valid s)) b ≡ settle valid (append s b)
    feed-open_message s e open_ some_input ih = elim (dec_lt (length s.input) 4) [
      | yes short ↦ rw (open_message-short valid s short) (feed_open valid s b open_)
      | no long ↦
          rw (settle-open valid (append s b) e (omega (arith, length-append s.input b)))
            (elim (Bool-cases (valid (header_size_of s.input) (header_command_of s.input))) [
              | inl good ↦ rw (open_message-good valid s (omega arith) good) (
                  feed-complete (record s { input = drop 2 s.input }) [] (header_size_of s.input)
                    open_ (from_rest (omega arith))
                  ∙ sym (ap (resume valid) (good-append (omega arith) good)))
              | inr bad ↦ rw (open_message-bad valid s (omega arith) bad) (
                  feed_closed valid (record s { input = []; closed = true }) b refl
                  ∙ sym (ap (resume valid) (bad-append (omega arith) bad)))
            ])
    ]
      where
        rest : Framer
        rest = record s { input = drop 2 s.input }

        from_rest :
            4 ≤ length s.input
            → (t : Framer) → complete rest [] (header_size_of s.input) ≡ continue t
            → feed valid (settle valid t) b ≡ settle valid (append t b)
        from_rest long t q =
            let (shorter, same, fresh) = complete-continue rest t [] (header_size_of s.input) q in
            ih t (omega (arith, length-drop 2 s.input)) (same ∙ open_) (rw fresh tt)

        still :
            4 ≤ length s.input
            → valid (header_size_of (s.input ++ b)) (header_command_of (s.input ++ b))
              ≡ valid (header_size_of s.input) (header_command_of s.input)
        still long = rw (header_size-append s.input long, header_command-append s.input long)

        good-append :
            4 ≤ length s.input
            → valid (header_size_of s.input) (header_command_of s.input) ≡ true
            → open_message valid (append s b) ≡ complete (append rest b) [] (header_size_of s.input)
        good-append long good =
            open_message-good valid (append s b) (omega (arith, length-append s.input b))
              (still long ∙ good)
            ∙ rw (header_size-append s.input long, drop-append_left 2 s.input b (omega arith))

        bad-append :
            4 ≤ length s.input
            → valid (header_size_of s.input) (header_command_of s.input) ≡ false
            → open_message valid (append s b) ≡ stop (record s { input = []; closed = true })
        bad-append long bad =
            open_message-bad valid (append s b) (omega (arith, length-append s.input b))
              (still long ∙ bad)

    feed-settle :
        (n : ℕ) (s : Framer)
        → length s.input < n
        → s.closed ≡ false
        → Pending s.partial
        → feed valid (settle valid s) b ≡ settle valid (append s b)
    feed-settle zero s h open_ p = absurd (omega arith)
    feed-settle (suc n) s h open_ p = go (feed-settle n) s.partial refl p
      where
        go :
            ((t : Framer)
              → length t.input < n
              → t.closed ≡ false
              → Pending t.partial
              → feed valid (settle valid t) b ≡ settle valid (append t b))
            → (q : Option (List ℕ × ℕ)) → s.partial ≡ q
            → Pending q
            → feed valid (settle valid s) b ≡ settle valid (append s b)
        go ih none e r = elim (dec_lt 0 (length s.input)) [
          | yes some_input ↦
              rw (settle-open valid s e some_input)
                (feed-open_message s e open_ some_input (λ t shorter. ih t (omega arith)))
          | no no_input ↦
              rw (settle-resume valid s p, frame_step_nil valid s (omega arith))
                (feed_open valid s b open_)
        ]
        go ih (some (got, missing)) e r = rw (settle-complete valid s got missing e r) (
            feed-complete s got missing open_ later
            ∙ sym (settle-complete valid (append s b) got missing e r))
          where
            later :
                (t : Framer)
                → complete s got missing ≡ continue t
                → feed valid (settle valid t) b ≡ settle valid (append t b)
            later t q =
                let (shorter, same, fresh) = complete-continue s t got missing q in
                ih t (omega arith) (same ∙ open_) (rw fresh tt)

  frame-Pending : (f : ℕ) (s : Framer) → Pending s.partial → Pending (frame valid f s).partial
  unfolding frame
  frame-Pending zero s p = p
  frame-Pending (suc f) s p = elim (dec_lt 0 (length s.input)) [
    | yes some_input ↦
        go (frame_step valid s) (frame_step-Shrinks valid s.partial s some_input refl p)
          (frame-Pending f)
    | no no_input ↦ rw (frame_step_nil valid s (omega arith), frame) p
  ]
    where
      go :
          (l : Loop Framer)
          → Shrinks (length s.input) l
          → ((t : Framer) → Pending t.partial → Pending (frame valid f t).partial)
          → let r : Framer = elim l [ stop t ↦ t | continue t ↦ frame valid f t ] in
            Pending r.partial
      go (stop t) sh ih = sh
      go (continue t) sh ih = ih t sh.1

  pub feed-Pending :
      (s : Framer) (a : List ℕ) → Pending s.partial → Pending (feed valid s a).partial
  unfolding settle
  feed-Pending s a p = elim (Bool-cases s.closed) [
    | inl shut ↦ rw (feed_closed valid s a shut) p
    | inr open_ ↦ rw (feed_open valid s a open_) (frame-Pending (suc (length (s.input ++ a))) _ p)
  ]

  -- Two chunks, one after the other, are one chunk.
  pub feed-append :
      (s : Framer) (a b : List ℕ)
      → Pending s.partial
      → feed valid (feed valid s a) b ≡ feed valid s (a ++ b)
  feed-append s a b p = elim (Bool-cases s.closed) [
    | inl shut ↦
        rw (
          feed_closed valid s a shut,
          feed_closed valid s b shut,
          feed_closed valid s (a ++ b) shut,
        )
    | inr open_ ↦
        rw (feed_open valid s a open_, feed_open valid s (a ++ b) open_)
          (feed-settle b (suc (length (s.input ++ a))) (append s a) (omega arith) open_ p
            ∙ ap (λ i. settle valid (record s { input = i })) (append_assoc s.input a b))
  ]

  feed_all-flatten_at :
      (cs : List (List ℕ)) (s : Framer) (c : List ℕ)
      → Pending s.partial
      → feed_all valid (feed valid s c) cs ≡ feed valid s (c ++ flatten cs)
  unfolding feed_all
  feed_all-flatten_at [] s c p = ap (feed valid s) (sym (append-nil c))
  feed_all-flatten_at (d ∷ cs) s c p =
      feed_all-flatten_at cs (feed valid s c) d (feed-Pending s c p)
      ∙ feed-append s c (d ++ flatten cs) p

  -- From the start of a connection, whatever chunks the bytes come in, the framer ends in the state
  -- that it reaches when they all come at once: the messages delivered, the part of a message under
  -- way and whether the connection was closed depend on the bytes alone.
  pub feed_all-flatten :
      (cs : List (List ℕ)) → feed_all valid start cs ≡ feed valid start (flatten cs)
  unfolding feed_all
  feed_all-flatten [] = unfold feed settle frame frame_step in refl
  feed_all-flatten (c ∷ cs) = feed_all-flatten_at cs start c tt
