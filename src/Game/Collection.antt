-- ===== src/Game/Collection.antt =====
-- GameServer/GameServer/Collection.h and Collection.cpp: a player who collects something, from the
-- command to the result.
pub mod Announcement
mod Tests
use scalable_cross_platform.Prelude.{
  ℕ, ◌+◌, Bool, true, false, not, ◌&&◌, List, [], ◌∷◌, if◌then◌else◌,
}
use scalable_cross_platform.Prelude.Float.{Float}
use scalable_cross_platform.Game.Vector.{Vector2}
use scalable_cross_platform.Game.Vector

pub data CollectionResult : Type 0 where
  collected collecting cancelled_before_collecting cancelled_while_collecting : CollectionResult

module _ (fl : Float) where
  open fl use {F, lit, sub, div, of_ℕ}

  -- `target` is the position of the collectable, `place` is `m_Position`, the destination that the
  -- collector had when he gave the command, and `started` is `m_Collecting`.
  pub record Collection : Type 0 where
    pub target : Vector2 fl
    pub place : Vector2 fl
    pub timer : F
    pub started : Bool

  -- The constructor.
  unfoldable pub new_collection : Vector2 fl → F → Vector2 fl → Collection
  new_collection target time place = record {
    target = target;
    place = place;
    timer = time;
    started = false;
  }

  -- What an update reads of the collector.
  pub record Collector : Type 0 where
    pub position : Vector2 fl
    pub destination : Vector2 fl

  -- The end of `Update`.
  unfoldable pub keep_collecting : Collection → ℕ → Collection
  keep_collecting c time_difference = record c {
    timer = sub c.timer (div (of_ℕ time_difference) (lit 1000 0));
  }

  abbrev pub is_far : Collection → Collector → Bool
  is_far c p =
      Vector.greater fl
        (Vector.distance fl p.position
          (Vector.plus fl c.target (record { x = lit 0 0; y = lit 88 2 })))
        (lit 25 2)

  abbrev pub has_left : Collection → Collector → Bool
  has_left c p = not (Vector.same_vector fl p.destination c.place)

  -- The branch of a collector who is near.
  unfoldable pub collect_near : Collection → Collector → ℕ → CollectionResult × Collection
  collect_near c p time_difference =
      if has_left c p
      then (cancelled_while_collecting, c)
      else (if Vector.less_equal fl c.timer (lit 0 0)
          then (collected, c)
          else (collecting, keep_collecting c time_difference))

  -- `Collection::Update`: the result, the collection, and whether `SendCollecting` was called.
  unfoldable pub update_collection :
      Collection → Collector → ℕ → CollectionResult × Collection × Bool
  update_collection c p time_difference =
      if is_far c p
      then (if has_left c p
          then (cancelled_before_collecting, c, false)
          else (collecting, keep_collecting c time_difference, false))
      else (let (result, d) = collect_near (record c { started = true }) p time_difference in
          (result, d, not c.started))
