-- ===== src/Game/Match/Gather.antt =====
-- How things are collected in a match: `Collect`, `UpdateCollections` and `UpdateCollectableSpawner`
-- of Match.h.
use scalable_cross_platform.Prelude.{ℕ, true, false, not, none, some, List, [], ◌∷◌, if◌then◌else◌}
use scalable_cross_platform.Prelude.Float.{Float}
use scalable_cross_platform.Prelude.Table.{lookup, contains, insert, erase, modify, keys}
use scalable_cross_platform.Game.Player.{Collectable}
use scalable_cross_platform.Game.Message.{ServerMessage, collection_result}
use scalable_cross_platform.Game.Message
use scalable_cross_platform.Game.Collection.{
  CollectionResult, collected, collecting, cancelled_before_collecting, cancelled_while_collecting,
  new_collection, update_collection,
}
use scalable_cross_platform.Game.Match.{
  Session, CollectionEntry, Match, call, send_collectable_spawn, send_collectable_despawn,
  calculate_next_id,
}

module _ (fl : Float) where
  -- `Match::Collect`, with the session that it is given.
  unfoldable pub collect : ℕ → Session fl → ℕ → Match fl → Match fl
  collect id collector collectable_id m =
      if contains id m.collections then m else (elim (lookup collectable_id m.collectables) [
        | none ↦ m
        | some c ↦ record m {
          collections =
              insert id
                (record {
                  collectable = collectable_id;
                  collection = new_collection fl c.position c.time collector.player.destination;
                })
                m.collections;
        }
      ])

  -- The cases of `UpdateCollections` on the result.
  unfoldable pub settle_collection : ℕ → ℕ → CollectionResult → Match fl → Match fl
  settle_collection id collectable_id collected m =
      let n = send_collectable_despawn fl collectable_id (call fl id (collection_result true) m) in
      record n {
        collections = erase id n.collections;
        collectables = erase collectable_id n.collectables;
      }
  settle_collection id collectable_id cancelled_before_collecting m = record m {
    collections = erase id m.collections;
  }
  settle_collection id collectable_id cancelled_while_collecting m =
      let n = call fl id (collection_result false) m in
      record n { collections = erase id n.collections }
  settle_collection id collectable_id collecting m = m

  -- One round of `UpdateCollections`, for the entry of `id`.
  unfoldable pub update_collection_entry : ℕ → ℕ → Match fl → Match fl
  update_collection_entry time_difference id m = elim (lookup id m.collections) [
    | none ↦ m
    | some e ↦ elim (lookup id m.sessions) [
      | none ↦ record m { collections = erase id m.collections }
      | some s ↦
          if not (contains e.collectable m.collectables)
          then (let n = call fl id (collection_result false) m in
              record n { collections = erase id n.collections })
          else (let (result, c, announced) =
                update_collection fl e.collection
                  (record { position = s.player.position; destination = s.player.destination })
                  time_difference in
              let n : Match fl = record m {
                collections =
                    modify id (λ (x : CollectionEntry fl). record x { collection = c })
                      m.collections;
              } in
              settle_collection id e.collectable result
                (if announced then call fl id (Message.collecting e.collectable) n else n))
    ]
  ]

  unfoldable pub update_collection_entries : ℕ → List ℕ → Match fl → Match fl
  update_collection_entries time_difference [] m = m
  update_collection_entries time_difference (id ∷ ids) m =
      update_collection_entries time_difference ids (update_collection_entry time_difference id m)

  unfoldable pub update_collections : ℕ → Match fl → Match fl
  update_collections time_difference m =
      update_collection_entries time_difference (keys m.collections) m

  -- `UpdateCollectableSpawner`, for the collectables that spawners make: they get their ids here.
  unfoldable pub spawn_collectables : List (Collectable fl) → Match fl → Match fl
  spawn_collectables [] m = m
  spawn_collectables (c ∷ cs) m =
      let (id, n) = calculate_next_id fl m in
      let d : Collectable fl = record c { id = id } in
      spawn_collectables cs
        (send_collectable_spawn fl d (record n { collectables = insert id d n.collectables }))
