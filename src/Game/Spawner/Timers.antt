-- ===== src/Game/Spawner/Timers.antt =====
-- A spawner keeps its timers in order, so that one look at the front finds every timer that has run
-- out, and what it owns is spawned or waits, never both and never neither.
use scalable_cross_platform.Prelude.{
  ℕ, zero, suc, ◌+◌, ◌-◌, ◌≤◌, ◌<◌, ◌≡◌, refl, ap, List, [], ◌∷◌, ◌++◌, map, arith, length,
  replicate, All, length-append, length-replicate,
}
use scalable_cross_platform.Game.Spawner.{
  Spawner, new_spawner, pop_due, tick, update_spawner, despawn,
}

-- Increasing, and nothing above the respawn time.
abbrev pub IsOrdered : ℕ → List ℕ → Type 0
IsOrdered time [] = Unit {0}
IsOrdered time (t ∷ ts) = (t ≤ time) × All (λ u. t ≤ u) ts × IsOrdered time ts

tick_lem : (d t : ℕ) → tick d t ≡ t - d
unfolding tick
tick_lem d t = ground arith

module _ (time d : ℕ) where
  tick-All : (t : ℕ) (ts : List ℕ) → All (λ u. t ≤ u) ts → All (λ u. tick d t ≤ u) (map (tick d) ts)
  tick-All t [] h = tt
  tick-All t (u ∷ ts) h = (omega (arith, tick_lem d t, tick_lem d u, h.0), tick-All t ts h.1)

  tick-IsOrdered : (ts : List ℕ) → IsOrdered time ts → IsOrdered time (map (tick d) ts)
  tick-IsOrdered [] h = tt
  tick-IsOrdered (t ∷ ts) h =
      (omega (arith, tick_lem d t, h.0), tick-All t ts h.1, tick-IsOrdered ts h.2)

module _ (time : ℕ) where
  pop_due-IsOrdered : (ts : List ℕ) → IsOrdered time ts → IsOrdered time (pop_due ts).1
  unfolding pop_due
  pop_due-IsOrdered [] h = h
  pop_due-IsOrdered (suc t ∷ ts) h = h
  pop_due-IsOrdered (zero ∷ ts) h = pop_due-IsOrdered ts h.2

  above-positive : (t : ℕ) (ts : List ℕ) → All (λ u. suc t ≤ u) ts → All (λ u. 0 < u) ts
  above-positive t [] h = tt
  above-positive t (u ∷ ts) h = (omega (arith, h.0), above-positive t ts h.1)

  -- In order, no timer that has run out hides behind one that has not.
  pop_due-positive : (ts : List ℕ) → IsOrdered time ts → All (λ u. 0 < u) (pop_due ts).1
  unfolding pop_due
  pop_due-positive [] h = tt
  pop_due-positive (suc t ∷ ts) h = (omega arith, above-positive t ts h.1)
  pop_due-positive (zero ∷ ts) h = pop_due-positive ts h.2

  snoc-All :
      (t : ℕ) (ts : List ℕ) → t ≤ time → All (λ u. t ≤ u) ts → All (λ u. t ≤ u) (ts ++ (time ∷ []))
  snoc-All t [] g h = (g, tt)
  snoc-All t (u ∷ ts) g h = (h.0, snoc-All t ts g h.1)

  snoc-IsOrdered : (ts : List ℕ) → IsOrdered time ts → IsOrdered time (ts ++ (time ∷ []))
  snoc-IsOrdered [] h = (omega arith, tt, tt)
  snoc-IsOrdered (t ∷ ts) h = (h.0, snoc-All t ts h.0 h.1, snoc-IsOrdered ts h.2)

  zeros-All : (n : ℕ) → All (λ u. 0 ≤ u) (replicate n 0)
  zeros-All zero = tt
  zeros-All (suc n) = (omega arith, zeros-All n)

  zeros-IsOrdered : (n : ℕ) → IsOrdered time (replicate n 0)
  zeros-IsOrdered zero = tt
  zeros-IsOrdered (suc n) = (omega arith, zeros-All n, zeros-IsOrdered n)

pop_due-length : (ts : List ℕ) → (pop_due ts).0 + length (pop_due ts).1 ≡ length ts
unfolding pop_due
pop_due-length [] = refl
pop_due-length (suc t ∷ ts) = omega arith
pop_due-length (zero ∷ ts) = omega (arith, pop_due-length ts)

length-map : (d : ℕ) (ts : List ℕ) → length (map (tick d) ts) ≡ length ts
length-map d [] = refl
length-map d (t ∷ ts) = ap suc (length-map d ts)

-- A spawner in a match: rounds in which it spawns what is due, and ends of what was spawned.
pub data Event : Type 0 where
  round : ℕ → Event
  end : Event

-- The spawner, and how many of its own are there.
unfoldable pub spawning : Spawner × ℕ → Event → Spawner × ℕ
spawning (s, there) (round d) = let (count, t) = update_spawner s d in (t, there + count)
spawning (s, there) end = (despawn s, there - 1)

unfoldable pub spawning_all : Spawner × ℕ → List Event → Spawner × ℕ
spawning_all w [] = w
spawning_all w (e ∷ es) = spawning_all (spawning w e) es

-- Only what is there comes to an end.
abbrev pub Ends : Spawner × ℕ → List Event → Type 0
Ends w [] = Unit {0}
Ends w (round d ∷ es) = Ends (spawning w (round d)) es
Ends w (end ∷ es) = (0 < w.1) × Ends (spawning w end) es

pub record IsKept (size : ℕ) (w : Spawner × ℕ) : Type 0 where
  pub ordered : IsOrdered w.0.time w.0.timers
  pub kept : length w.0.timers + w.1 ≡ size

module _ (size : ℕ) where
  round-IsKept : (w : Spawner × ℕ) (d : ℕ) → IsKept size w → IsKept size (spawning w (round d))
  unfolding spawning update_spawner
  round-IsKept w d k = record {
    ordered =
        tick-IsOrdered w.0.time d (pop_due w.0.timers).1
          (pop_due-IsOrdered w.0.time w.0.timers k.ordered);
    kept = omega (arith, k.kept, pop_due-length w.0.timers, length-map d (pop_due w.0.timers).1);
  }

  end-IsKept : (w : Spawner × ℕ) → 0 < w.1 → IsKept size w → IsKept size (spawning w end)
  unfolding spawning despawn
  end-IsKept w h k = record {
    ordered = snoc-IsOrdered w.0.time w.0.timers k.ordered;
    kept = omega (arith, k.kept, h, length-append w.0.timers (w.0.time ∷ []));
  }

  spawning_all-IsKept_from :
      (es : List Event) (w : Spawner × ℕ)
      → IsKept size w
      → Ends w es
      → IsKept size (spawning_all w es)
  unfolding spawning_all
  spawning_all-IsKept_from [] w k h = k
  spawning_all-IsKept_from (round d ∷ es) w k h =
      spawning_all-IsKept_from es _ (round-IsKept w d k) h
  spawning_all-IsKept_from (end ∷ es) w k h = spawning_all-IsKept_from es _ (end-IsKept w h.0 k) h.1

  module _ (time : ℕ) where
    new-IsKept : IsKept size (new_spawner size time, 0)
    unfolding new_spawner
    new-IsKept = record {
      ordered = zeros-IsOrdered time size;
      kept = omega (arith, length-replicate {A = ℕ} size 0);
    }

    -- After any rounds of a new spawner of `size`, and any ends of what it had spawned, its timers are
    -- in increasing order and none is above the respawn time, and the timers together with what is
    -- spawned and there are `size`.
    pub spawning_all-IsKept :
        (es : List Event)
        → Ends (new_spawner size time, 0) es
        → IsKept size (spawning_all (new_spawner size time, 0) es)
    spawning_all-IsKept es h = spawning_all-IsKept_from es _ new-IsKept h

    -- After any rounds of a new spawner, and any ends of what it had spawned, the next round spawns
    -- everything whose time has run out: every timer that it does not pop is above 0.
    pub round_leaves_positive :
        (es : List Event)
        → Ends (new_spawner size time, 0) es
        → All (λ u. 0 < u) (pop_due (spawning_all (new_spawner size time, 0) es).0.timers).1
    round_leaves_positive es h =
        pop_due-positive _ _ (spawning_all-IsKept_from es _ new-IsKept h).ordered
