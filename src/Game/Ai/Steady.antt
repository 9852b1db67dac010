-- ===== src/Game/Ai/Steady.antt =====
-- What the steps of an artificial player leave of the match.
use scalable_cross_platform.Prelude.{ℕ, ◌<◌, ◌≡◌, ◌≢◌, refl, ap, ◌∙◌, Bool, true, some}
use scalable_cross_platform.Prelude.Float.{Float}
use scalable_cross_platform.Prelude.Table.{contains}
use scalable_cross_platform.Prelude.Table.Laws.{lookup_of_contains, contains-modify, modify-Entries}
use scalable_cross_platform.Game.Vector.{Vector2}
use scalable_cross_platform.Game.Match.{Match, send_movement}
use scalable_cross_platform.Game.Match.Combat
use scalable_cross_platform.Game.Match.Combat.Safety.{IsPeaceful}
use scalable_cross_platform.Game.Match.Combat.Start.{start-IsPeaceful}
use scalable_cross_platform.Game.Match.Roster.{move_player}
use scalable_cross_platform.Game.Ai.{
  Draws, walk, wander, follow, run_away, within_range, within_half_range,
}

module _ (fl : Float) where
  -- The same sessions are there, and the match is peaceful.
  pub record IsSteady (m n : Match fl) : Type 0 where
    pub present : (k : ℕ) → contains k n.sessions ≡ contains k m.sessions
    pub peaceful : IsPeaceful fl n

  pub IsSteady-refl : (m : Match fl) → IsPeaceful fl m → IsSteady m m
  IsSteady-refl m p = record { present = λ k. refl; peaceful = p }

  pub IsSteady-trans : {m n o : Match fl} → IsSteady m n → IsSteady n o → IsSteady m o
  IsSteady-trans a b = record { present = λ k. b.present k ∙ a.present k; peaceful = b.peaceful }

  pub walk-IsSteady :
      (id : ℕ) (destination : Vector2 fl) (m : Match fl)
      → IsPeaceful fl m
      → IsSteady m (walk fl id destination m)
  unfolding walk send_movement
  walk-IsSteady id v m p = record {
    present = λ k. contains-modify k id (move_player fl v) m.sessions;
    peaceful = record {
      no_self = p.no_self;
      alive =
          modify-Entries (λ i s. 0 < s.player.hp) id (move_player fl v) m.sessions (λ s a. a)
            p.alive;
    };
  }

  pub wander-IsSteady :
      (id : ℕ) (draws : Draws fl) (m : Match fl)
      → IsPeaceful fl m
      → IsSteady m (wander fl id draws m)
  unfolding wander
  wander-IsSteady id draws m p = walk-IsSteady id _ m p

  module _ (id : ℕ) (m : Match fl) (c : contains id m.sessions ≡ true) (p : IsPeaceful fl m) where
    pub run_away-IsSteady : (n : Match fl) × (run_away fl id m ≡ some n) × IsSteady m n
    unfolding run_away
    run_away-IsSteady =
        let (s, e) = lookup_of_contains id m.sessions c in
        rw (e, run_away) (_, refl, walk-IsSteady id _ m p)

    module _ (other : ℕ) (d : contains other m.sessions ≡ true) where
      pub follow-IsSteady :
          (draws : Draws fl) → (n : Match fl) × (follow fl id other draws m ≡ some n) × IsSteady m n
      unfolding follow
      follow-IsSteady draws =
          let (s, e) = lookup_of_contains id m.sessions c in
          let (t, f) = lookup_of_contains other m.sessions d in
          rw (e, follow) (rw (f, follow) (_, refl, walk-IsSteady id _ m p))

      pub within_range-some : (b : Bool) × (within_range fl id other m ≡ some b)
      unfolding within_range
      within_range-some =
          let (s, e) = lookup_of_contains id m.sessions c in
          let (t, f) = lookup_of_contains other m.sessions d in
          rw (e, within_range) (rw (f, within_range) (_, refl))

      pub within_half_range-some : (b : Bool) × (within_half_range fl id other m ≡ some b)
      unfolding within_half_range
      within_half_range-some =
          let (s, e) = lookup_of_contains id m.sessions c in
          let (t, f) = lookup_of_contains other m.sessions d in
          rw (e, within_half_range) (rw (f, within_half_range) (_, refl))

    -- An attack on another session.
    pub start-IsSteady :
        (other : ℕ)
        → id ≢ other
        → (n : Match fl) × (Combat.start fl id other m ≡ some n)
          × (n.sessions ≡ m.sessions)
          × IsSteady m n
    start-IsSteady other h =
        let (n, e, f, q) = start-IsPeaceful fl id other m h c p in
        (n, e, f, record { present = λ k. ap (contains k) f; peaceful = q })
