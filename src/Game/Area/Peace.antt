-- ===== src/Game/Area/Peace.antt =====
-- Areas keep the peace of a match.
use scalable_cross_platform.Prelude.{
  ℕ, ◌<◌, ◌≡◌, sym, inl, inr, List, [], ◌∷◌, Bool-cases, Option-cases,
}
use mathlib.Core.Path.{subst}
use scalable_cross_platform.Prelude.Float.{Float}
use scalable_cross_platform.Prelude.Table.{lookup, contains, keys}
use scalable_cross_platform.Prelude.Table.Laws.{modify-Entries}
use scalable_cross_platform.Game.Player.{Player}
use scalable_cross_platform.Game.Match.{Session, Match, with_session}
use scalable_cross_platform.Game.Match.Combat.Safety.{IsPeaceful}
use scalable_cross_platform.Game.Area.{
  Area, keep_present, protect, unprotect, is_inside, visit, visit_all, update_area, update_areas,
}
use scalable_cross_platform.Game.Area.Protection.{protect-player, unprotect-player}

module _ (fl : Float) where
  same_player-IsPeaceful :
      (id : ℕ) (f : Session fl → Session fl) (m : Match fl)
      → ((s : Session fl) → (f s).player ≡ s.player)
      → IsPeaceful fl m
      → IsPeaceful fl (with_session fl id f m)
  same_player-IsPeaceful id f m h p = record {
    no_self = p.no_self;
    alive =
        modify-Entries (λ i s. 0 < s.player.hp) id f m.sessions
          (λ s a. subst (λ (q : Player fl). 0 < q.hp) (sym (h s)) a) p.alive;
  }

  visit-IsPeaceful :
      (id : ℕ) (a : Area fl) (m : Match fl) → IsPeaceful fl m → IsPeaceful fl (visit fl id (a, m)).1
  unfolding visit
  visit-IsPeaceful id a m p = elim (Option-cases (lookup id m.sessions)) [
    | inl e ↦ rw (e, visit) p
    | inr (s, e) ↦ elim (Bool-cases (is_inside fl a s.player)) [
      | inl b ↦ elim (Bool-cases (contains id a.sessions_on_area)) [
        | inl c ↦ rw (e, visit) (rw (b) (rw (c) p))
        | inr c ↦
            rw (e, visit)
              (rw (b) (rw (c) (same_player-IsPeaceful id (protect fl) m (protect-player fl) p)))
      ]
      | inr b ↦ elim (Bool-cases (contains id a.sessions_on_area)) [
        | inl c ↦
            rw (e, visit)
              (rw (b) (rw (c) (same_player-IsPeaceful id (unprotect fl) m (unprotect-player fl) p)))
        | inr c ↦ rw (e, visit) (rw (b) (rw (c) p))
      ]
    ]
  ]

  visit_all-IsPeaceful :
      (ids : List ℕ) (r : Area fl × Match fl)
      → IsPeaceful fl r.1
      → IsPeaceful fl (visit_all fl ids r).1
  unfolding visit_all
  visit_all-IsPeaceful [] r p = p
  visit_all-IsPeaceful (id ∷ ids) r p =
      visit_all-IsPeaceful ids (visit fl id r) (visit-IsPeaceful id r.0 r.1 p)

  pub update_areas-IsPeaceful :
      (areas : List (Area fl)) (m : Match fl)
      → IsPeaceful fl m
      → IsPeaceful fl (update_areas fl areas m).1
  unfolding update_areas update_area
  update_areas-IsPeaceful [] m p = p
  update_areas-IsPeaceful (a ∷ as_) m p = update_areas-IsPeaceful as_ (update_area fl a m).1 (
      visit_all-IsPeaceful (keys m.sessions)
        (record a { sessions_on_area = keep_present fl m a.sessions_on_area }, m) p)
