-- ===== src/Game/Collection/Announcement.antt =====
-- How often the start of a collection is announced.
use scalable_cross_platform.Prelude.{
  ℕ, ◌+◌, ◌≤◌, ◌≡◌, refl, ◌∙◌, Bool, true, false, not, List, [], ◌∷◌, arith, if◌then◌else◌,
}
use mathlib.Core.Path.{subst}
use scalable_cross_platform.Prelude.Float.{Float}
use scalable_cross_platform.Game.Vector
use scalable_cross_platform.Game.Collection.{
  CollectionResult, collected, collecting, cancelled_before_collecting, cancelled_while_collecting,
  Collection, Collector, new_collection, keep_collecting, is_far, has_left, collect_near,
  update_collection,
}

abbrev pub times : Bool → ℕ
times true = 1
times false = 0

-- What the result says of the announcements, those before included: none or one, and one if
-- something was collected or given up while collecting.
abbrev pub Announced : CollectionResult → ℕ → Type 0
Announced collected n = n ≡ 1
Announced collecting n = n ≤ 1
Announced cancelled_before_collecting n = n ≤ 1
Announced cancelled_while_collecting n = n ≡ 1

module _ (fl : Float) where
  -- Updates of a collection, until one gives a result other than `collecting`: the last result, and
  -- how often `SendCollecting` was called.
  unfoldable pub follow :
      CollectionResult × Collection fl × Bool
      → (Collection fl → CollectionResult × ℕ)
      → CollectionResult × ℕ
  follow (collecting, d, sent) rest = let (r, n) = rest d in (r, times sent + n)
  follow (collected, d, sent) rest = (collected, times sent)
  follow (cancelled_before_collecting, d, sent) rest = (cancelled_before_collecting, times sent)
  follow (cancelled_while_collecting, d, sent) rest = (cancelled_while_collecting, times sent)

  unfoldable pub run_collection : Collection fl → List (Collector fl × ℕ) → CollectionResult × ℕ
  unfolding follow
  run_collection c [] = (collecting, 0)
  run_collection c ((p, d) ∷ rounds) =
      follow (update_collection fl c p d) (λ e. run_collection e rounds)

  -- One update.
  abbrev IsCounted : Collection fl → CollectionResult × Collection fl × Bool → Type 0
  IsCounted c (r, d, sent) =
      (times c.started + times sent ≡ times d.started) × Announced r (times d.started)

  update-IsCounted :
      (c : Collection fl) (p : Collector fl) (t : ℕ) → IsCounted c (update_collection fl c p t)
  unfolding update_collection collect_near keep_collecting
  update-IsCounted c p t =
      go (is_far fl c p) (has_left fl c p) (Vector.less_equal fl c.timer (fl.lit 0 0)) c.started
    where
      at_start : Bool → Collection fl
      at_start started = record c { started = started }

      go :
          (far left due started : Bool)
          → (let near : CollectionResult × Collection fl =
                if left
                then (cancelled_while_collecting, at_start true)
                else (if due
                    then (collected, at_start true)
                    else (collecting, keep_collecting fl (at_start true) t)) in
              let out : CollectionResult × Collection fl × Bool =
                if far
                then (if left
                    then (cancelled_before_collecting, at_start started, false)
                    else (collecting, keep_collecting fl (at_start started) t, false))
                else (let (result, d) = near in (result, d, not started)) in
              IsCounted (at_start started) out)
      go true true due true = (refl, omega arith)
      go true true due false = (refl, omega arith)
      go true false due true = (refl, omega arith)
      go true false due false = (refl, omega arith)
      go false true due true = (refl, refl)
      go false true due false = (refl, refl)
      go false false true true = (refl, refl)
      go false false true false = (refl, refl)
      go false false false true = (refl, omega arith)
      go false false false false = (refl, omega arith)

  follow-Announced :
      (c : Collection fl) (o : CollectionResult × Collection fl × Bool)
      → (rest : Collection fl → CollectionResult × ℕ)
      → ((d : Collection fl) → Announced (rest d).0 (times d.started + (rest d).1))
      → IsCounted c o
      → Announced (follow o rest).0 (times c.started + (follow o rest).1)
  unfolding follow
  follow-Announced c (collected, d, sent) rest h k = k.0 ∙ k.1
  follow-Announced c (cancelled_before_collecting, d, sent) rest h k = omega (arith, k.0, k.1)
  follow-Announced c (cancelled_while_collecting, d, sent) rest h k = k.0 ∙ k.1
  follow-Announced c (collecting, d, sent) rest h k = moved (rest d).0 (omega (arith, k.0)) (h d)
    where
      moved :
          (r : CollectionResult)
          → times d.started + (rest d).1 ≡ times c.started + (times sent + (rest d).1)
          → Announced r (times d.started + (rest d).1)
          → Announced r (times c.started + (times sent + (rest d).1))
      moved r e x = subst (Announced r) e x

  times-small : (b : Bool) → times b + 0 ≤ 1
  times-small true = omega arith
  times-small false = omega arith

  run-Announced :
      (rounds : List (Collector fl × ℕ)) (c : Collection fl)
      → Announced (run_collection c rounds).0 (times c.started + (run_collection c rounds).1)
  unfolding run_collection
  run-Announced [] c = times-small c.started
  run-Announced ((p, t) ∷ rounds) c =
      follow-Announced c (update_collection fl c p t) (λ e. run_collection e rounds)
        (run-Announced rounds) (update-IsCounted c p t)

  -- Wherever the collector goes and whatever time passes, from the command to the result the start of
  -- the collection is announced at most once, and exactly once if something is collected or given up
  -- while collecting.
  pub run_collection-Announced :
      (target place : Vector.Vector2 fl) (time : fl.F) (rounds : List (Collector fl × ℕ))
      → Announced
          (run_collection (new_collection fl target time place) rounds).0
          (run_collection (new_collection fl target time place) rounds).1
  unfolding new_collection
  run_collection-Announced target place time rounds =
      subst (Announced (run_collection (new_collection fl target time place) rounds).0)
        (omega arith) (run-Announced rounds (new_collection fl target time place))
