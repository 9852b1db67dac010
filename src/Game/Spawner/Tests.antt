-- ===== src/Game/Spawner/Tests.antt =====
-- Two things to spawn, which come back after thirty milliseconds.
use scalable_cross_platform.Prelude.{◌<◌, List, [], ◌∷◌, arith, All}
use scalable_cross_platform.Game.Spawner.{new_spawner, pop_due, update_spawner, despawn}
use scalable_cross_platform.Game.Spawner.Timers.{
  Event, round, end, spawning, spawning_all, IsKept, spawning_all-IsKept, round_leaves_positive,
}

abbrev evening : List Event
evening = round 16 ∷ end ∷ round 20 ∷ end ∷ round 16 ∷ []

spawning_all-IsKept_example : IsKept 2 (spawning_all (new_spawner 2 30, 0) evening)
unfolding new_spawner spawning update_spawner pop_due despawn
spawning_all-IsKept_example = spawning_all-IsKept 2 30 evening (omega arith, (omega arith, tt))

round_leaves_positive_example :
    All (λ u. 0 < u) (pop_due (spawning_all (new_spawner 2 30, 0) evening).0.timers).1
unfolding new_spawner spawning update_spawner pop_due despawn
round_leaves_positive_example = round_leaves_positive 2 30 evening (omega arith, (omega arith, tt))
