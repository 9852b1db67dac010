-- ===== src/Network/Send/Run.antt =====
-- A connection that sends: rounds of `EndSendings` and what the socket reports, in any order.
use scalable_cross_platform.Prelude.{
  ℕ, ◌^◌, ◌≤◌, ◌<◌, ◌≡◌, refl, sym, ap, ◌∙◌, false, Option, none, some, List, [], ◌∷◌, ◌++◌,
  append-nil, append_assoc, length, All, flatten,
}
use mathlib.Core.Bool.{true≢false}
use mathlib.Core.Option.{some-ne-none}
use scalable_cross_platform.Network.Send.{Sender, idle, end_sendings, write_handler}
use scalable_cross_platform.Network.Send.Flow.{
  pending, writing, quiet, failed, IsFlowing, written-IsFlowing, failure-IsFlowing,
}
use scalable_cross_platform.Network.Send.Packing.{IsSmall, end_sendings-IsFlowing}

pub data Event : Type 0 where
  end_round : List (List ℕ) → Event
  written : ℕ → Event
  failure : Event

abbrev pub CanWrite : Option (List ℕ) → ℕ → Type 0
CanWrite none n = ⊥
CanWrite (some bs) n = n ≤ length bs

-- All that was to be sent, in the order in which it was to be sent.
abbrev pub requested : List Event → List ℕ
requested [] = []
requested (end_round messages ∷ es) = flatten messages ++ requested es
requested (written n ∷ es) = requested es
requested (failure ∷ es) = requested es

module _ (junk : ℕ → ℕ) (size : ℕ) where
  abbrev pub step : Sender → Event → Sender
  step c (end_round messages) = end_sendings junk size c messages
  step c (written n) = write_handler c (some n)
  step c failure = write_handler c none

  unfoldable pub run : Sender → List Event → Sender
  run c [] = c
  run c (e ∷ es) = run (step c e) es

  -- The socket reports only on what it was asked to write, and never more than that.
  abbrev pub CanHappen : Sender → Event → Type 0
  CanHappen c (end_round messages) = All IsSmall messages
  CanHappen c (written n) = CanWrite c.in_flight n
  CanHappen c failure = CanWrite c.in_flight 0

  abbrev pub Possible : Sender → List Event → Type 0
  Possible c [] = Unit {0}
  Possible c (e ∷ es) = CanHappen c e × Possible (step c e) es

  written-flow :
      (c : Sender) (n : ℕ) (sent : List ℕ) (o : Option (List ℕ))
      → c.in_flight ≡ o
      → CanWrite o n
      → IsFlowing sent c
      → IsFlowing sent (write_handler c (some n))
  written-flow c n sent none e h f = absurd h
  written-flow c n sent (some bs) e h f = written-IsFlowing sent c f bs n e h

  failure-flow :
      (c : Sender) (sent : List ℕ) (o : Option (List ℕ))
      → c.in_flight ≡ o
      → CanWrite o 0
      → IsFlowing sent c
      → IsFlowing sent (write_handler c none)
  failure-flow c sent none e h f = absurd h
  failure-flow c sent (some bs) e h f = elim f.busy [
    | writing b rest q p i ↦ failure-IsFlowing sent c f p
    | quiet q p i ↦ absurd (some-ne-none bs (sym e ∙ i))
    | failed k p i ↦ absurd (some-ne-none bs (sym e ∙ i))
  ]

  module _ (bounded : size < 2 ^ 63) where
    run-IsFlowing :
        (es : List Event) (sent : List ℕ) (c : Sender)
        → IsFlowing sent c
        → Possible c es
        → IsFlowing (sent ++ requested es) (run c es)
    unfolding run
    run-IsFlowing [] sent c f p = rw (append-nil sent) f
    run-IsFlowing (end_round messages ∷ es) sent c f p =
        rw⁻¹ (append_assoc sent (flatten messages) (requested es)) (
          run-IsFlowing es (sent ++ flatten messages) _
            (end_sendings-IsFlowing junk size bounded sent c messages p.0 f) p.1)
    run-IsFlowing (written n ∷ es) sent c f p =
        run-IsFlowing es sent _ (written-flow c n sent c.in_flight refl p.0 f) p.1
    run-IsFlowing (failure ∷ es) sent c f p =
        run-IsFlowing es sent _ (failure-flow c sent c.in_flight refl p.0 f) p.1

    idle-IsFlowing : IsFlowing [] idle
    idle-IsFlowing = record { whole = refl; sound = tt; busy = quiet refl refl refl }

    -- Let messages of fewer than 2 ^ 63 bytes be sent in any number of rounds, over a send buffer of
    -- fewer than 2 ^ 63 bytes, and let the socket report, in between and in any order, that it wrote
    -- some of the bytes it was given, or an error. At every time what was written, and behind it the
    -- unread bytes of the queued buffers, are the bytes of all the messages, in their order.
    pub sends_in_order :
        (es : List Event)
        → Possible idle es
        → (run idle es).wire ++ pending (run idle es).buffers ≡ requested es
    sends_in_order es p = (run-IsFlowing es [] idle idle-IsFlowing p).whole

    -- Let messages of fewer than 2 ^ 63 bytes be sent in any number of rounds, over a send buffer of
    -- fewer than 2 ^ 63 bytes, and let the socket report, in between and in any order, what it wrote
    -- of the bytes it was given, or an error. Whenever no write is under way and the connection is not
    -- closed, every byte of every message was written, in order.
    pub sends_everything :
        (es : List Event)
        → Possible idle es
        → (run idle es).in_flight ≡ none
        → (run idle es).closed ≡ false
        → (run idle es).wire ≡ requested es
    sends_everything es p n o = elim flow.busy [
      | writing b rest q k i ↦ absurd (some-ne-none _ (sym i ∙ n))
      | quiet q k i ↦
          sym (append-nil (run idle es).wire)
          ∙ ap (λ bs. (run idle es).wire ++ pending bs) (sym q)
          ∙ flow.whole
      | failed k r i ↦ absurd (true≢false (sym k ∙ o))
    ]
      where
        flow : IsFlowing (requested es) (run idle es)
        flow = run-IsFlowing es [] idle idle-IsFlowing p
