-- ===== src/Game/Spawner.antt =====
-- The timers of GameServer/GameServer/NPCSpawner.h, and those of CollectableSpawner.h, which are the
-- same code.
pub mod Timers
mod Tests
use scalable_cross_platform.Prelude.{
  ℕ, zero, suc, ◌+◌, ◌-◌, List, [], ◌∷◌, ◌++◌, map, replicate, leb, if◌then◌else◌,
}

-- `m_Time` and `m_Timers`.
pub record Spawner : Type 0 where
  pub time : ℕ
  pub timers : List ℕ

-- The constructor.
unfoldable pub new_spawner : ℕ → ℕ → Spawner
new_spawner size time = record { time = time; timers = replicate size 0 }

-- The `while` of `Update`: how many timers at the front have run out, and the others.
unfoldable pub pop_due : List ℕ → ℕ × List ℕ
pop_due [] = (0, [])
pop_due (suc t ∷ ts) = (0, suc t ∷ ts)
pop_due (zero ∷ ts) = let (n, rest) = pop_due ts in (suc n, rest)

-- `timer -= timeDifference <= timer ? timeDifference : timer`
unfoldable pub tick : ℕ → ℕ → ℕ
tick time_difference timer =
    if leb time_difference timer then timer - time_difference else timer - timer

-- `Update`: how many are to be spawned.
unfoldable pub update_spawner : Spawner → ℕ → ℕ × Spawner
update_spawner s time_difference =
    let (count, rest) = pop_due s.timers in
    (count, record s { timers = map (tick time_difference) rest })

-- `Despawn`.
unfoldable pub despawn : Spawner → Spawner
despawn s = record s { timers = s.timers ++ (s.time ∷ []) }
