-- ===== src/Game/Collection/Tests.antt =====
-- A collector who walks up to a crystal and waits for it.
use scalable_cross_platform.Prelude.{ℕ, ◌≡◌, refl, List, [], ◌∷◌}
use scalable_cross_platform.Prelude.Decimal.{decimal}
use scalable_cross_platform.Game.Vector.{
  Vector2, plus, minus, magnitude, distance, same_vector, greater, less_equal, equal, nearly_equal,
}
use scalable_cross_platform.Game.Collection.{
  collected, Collector, new_collection, keep_collecting, collect_near, update_collection,
}
use scalable_cross_platform.Game.Collection.Announcement.{
  Announced, follow, run_collection, run_collection-Announced,
}

abbrev crystal : Vector2 decimal
crystal = record { x = 5000000; y = 7000000 }

abbrev beside : Vector2 decimal
beside = record { x = 5000000; y = 7880000 }

abbrev away : Vector2 decimal
away = record { x = 9000000; y = 7880000 }

abbrev walk : List (Collector decimal × ℕ)
walk =
    (record { position = away; destination = beside }, 1000)
    ∷ (record { position = beside; destination = beside }, 1000)
    ∷ (record { position = beside; destination = beside }, 1000)
    ∷ []

walk_collects :
    (run_collection decimal (new_collection decimal crystal 2000000 beside) walk).0 ≡ collected
unfolding run_collection follow new_collection keep_collecting collect_near update_collection plus
    distance magnitude minus same_vector greater less_equal equal nearly_equal
walk_collects = refl

run_collection-Announced_example :
    Announced
      (run_collection decimal (new_collection decimal crystal 2000000 beside) walk).0
      (run_collection decimal (new_collection decimal crystal 2000000 beside) walk).1
run_collection-Announced_example = run_collection-Announced decimal crystal beside 2000000 walk
