-- ===== src/Game/Match/Travel/Peace.antt =====
-- Arrivals and departures keep the peace of a match.
use scalable_cross_platform.Prelude.{
  ℕ, ◌<◌, ◌≡◌, refl, Bool, true, Option, some, inl, inr, List, [], ◌∷◌, Bool-cases, Option-cases,
  All,
}
use scalable_cross_platform.Prelude.Float.{Float}
use scalable_cross_platform.Prelude.Table.{lookup, keys}
use scalable_cross_platform.Prelude.Table.Laws.{insert-Entries, erase-Entries}
use scalable_cross_platform.Memory.Exception.{ok}
use scalable_cross_platform.Memory.Stream.{Stream}
use scalable_cross_platform.Game.Message.{outgoing}
use scalable_cross_platform.Game.Vector
use scalable_cross_platform.Game.Vector.{Vector2}
use scalable_cross_platform.Game.Player.{Player, Collectable}
use scalable_cross_platform.Game.Match.{
  Session, Match, calculate_next_id, send_new_player, send_someone_jumps, send_collectable_spawn,
}
use scalable_cross_platform.Game.Match.Combat.Safety.{IsPeaceful}
use scalable_cross_platform.Game.Match.Travel.{
  update_jump, update_jump_entries, update_jumps, arrival, entered, enter, enter_all, transferred,
  update_transfers,
}
use scalable_cross_platform.Game.Match.Gather.{spawn_collectables}
use scalable_cross_platform.Game.Match.Roster.{spawn_players}

module _ (fl : Float) where
  entered-IsPeaceful :
      (s : Session fl) (m : Match fl)
      → 0 < s.player.hp
      → IsPeaceful fl m
      → IsPeaceful fl (entered fl s m)
  unfolding entered calculate_next_id send_new_player
  entered-IsPeaceful s m h p = record {
    no_self = p.no_self;
    alive = insert-Entries (λ i x. 0 < x.player.hp) m.next_id s m.sessions h p.alive;
  }

  -- The world states of sessions that come in one after the other are written without an exception.
  abbrev pub AreSent : List (Vector2 fl × Session fl) → Match fl → Type 0
  AreSent [] m = Unit
  AreSent ((position, old) ∷ rest) m =
      ((out : Stream) × (outgoing fl (λ i. 0) (arrival fl (transferred fl m.map_id position old) m)
          ≡ ok out))
      × AreSent rest (entered fl (transferred fl m.map_id position old) m)

  abbrev pub Passed : Option (Match fl) → Type 0
  Passed o = (n : Match fl) × (o ≡ some n) × IsPeaceful fl n

  enter-eq :
      (s : Session fl) (m : Match fl) (out : Stream)
      → outgoing fl (λ i. 0) (arrival fl s m) ≡ ok out
      → enter fl s m ≡ some (entered fl s m)
  unfolding enter
  enter-eq s m out e = rw (e, enter) refl

  enter_all-Passed :
      (l : List (Vector2 fl × Session fl)) (m : Match fl)
      → All (λ e. 0 < e.1.player.hp) l
      → AreSent l m
      → IsPeaceful fl m
      → Passed (enter_all fl l m)
  unfolding enter_all transferred
  enter_all-Passed [] m h w p = (m, refl, p)
  enter_all-Passed ((position, old) ∷ rest) m h w p =
      let s = transferred fl m.map_id position old in
      let (n, e, q) =
        enter_all-Passed rest (entered fl s m) h.1 w.1 (entered-IsPeaceful s m h.0 p) in
      (n, rw (enter-eq s m w.0.0 w.0.1, enter_all) e, q)

  pub update_transfers-Passed :
      (m : Match fl)
      → All (λ e. 0 < e.1.player.hp) m.transfers
      → AreSent m.transfers m
      → IsPeaceful fl m
      → Passed (update_transfers fl m)
  unfolding update_transfers
  update_transfers-Passed m h w p =
      let (n, e, q) = enter_all-Passed m.transfers m h w p in
      (
        record n { transfers = [] },
        rw (e, update_transfers) refl,
        record { no_self = q.no_self; alive = q.alive },
      )

  pub spawn_players-Passed :
      (has_ai : List ℕ → Bool) (l : List (List ℕ × Player fl)) (m : Match fl)
      → All (λ e. (has_ai e.0 ≡ true) × (0 < e.1.hp)) l
      → IsPeaceful fl m
      → Passed (spawn_players fl has_ai l m)
  unfolding spawn_players calculate_next_id send_new_player
  spawn_players-Passed has_ai [] m h p = (m, refl, p)
  spawn_players-Passed has_ai ((ai, x) ∷ l) m h p =
      rw (h.0.0, spawn_players)
        (spawn_players-Passed has_ai l _ h.1 (record {
          no_self = p.no_self;
          alive = insert-Entries (λ i s. 0 < s.player.hp) m.next_id _ m.sessions h.0.1 p.alive;
        }))

  pub spawn_collectables-IsPeaceful :
      (l : List (Collectable fl)) (m : Match fl)
      → IsPeaceful fl m
      → IsPeaceful fl (spawn_collectables fl l m)
  unfolding spawn_collectables calculate_next_id send_collectable_spawn
  spawn_collectables-IsPeaceful [] m p = p
  spawn_collectables-IsPeaceful (c ∷ cs) m p =
      spawn_collectables-IsPeaceful cs _ (record { no_self = p.no_self; alive = p.alive })

  module _ (time_difference : ℕ) where
    update_jump-IsPeaceful :
        (id : ℕ) (m : Match fl)
        → IsPeaceful fl m
        → IsPeaceful fl (update_jump fl time_difference id m)
    unfolding update_jump send_someone_jumps
    update_jump-IsPeaceful id m p = elim (Option-cases (lookup id m.jumps)) [
      | inl e ↦ rw (e, update_jump) p
      | inr (j, e) ↦ elim (Option-cases (lookup id m.sessions)) [
        | inl f ↦
            rw (e, update_jump)
              (rw (f, update_jump) (record { no_self = p.no_self; alive = p.alive }))
        | inr (s, f) ↦ elim (Bool-cases (Vector.less_equal fl j.timer (fl.lit 0 0))) [
          | inl d ↦
              rw (e, update_jump)
                (rw (f, update_jump)
                  (rw (d) (record {
                    no_self = p.no_self;
                    alive = erase-Entries (λ i x. 0 < x.player.hp) id m.sessions p.alive;
                  })))
          | inr d ↦
              rw (e, update_jump)
                (rw (f, update_jump) (rw (d) (record { no_self = p.no_self; alive = p.alive })))
        ]
      ]
    ]

    update_jump_entries-IsPeaceful :
        (ids : List ℕ) (m : Match fl)
        → IsPeaceful fl m
        → IsPeaceful fl (update_jump_entries fl time_difference ids m)
    unfolding update_jump_entries
    update_jump_entries-IsPeaceful [] m p = p
    update_jump_entries-IsPeaceful (id ∷ ids) m p =
        update_jump_entries-IsPeaceful ids _ (update_jump-IsPeaceful id m p)

    pub update_jumps-IsPeaceful :
        (m : Match fl) → IsPeaceful fl m → IsPeaceful fl (update_jumps fl time_difference m)
    unfolding update_jumps
    update_jumps-IsPeaceful m p = update_jump_entries-IsPeaceful (keys m.jumps) m p
