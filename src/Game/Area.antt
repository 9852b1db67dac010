-- ===== src/Game/Area.antt =====
-- GameServer/GameServer/ScriptableArea.h with DemilitarizedArea.h, on a match. A session on an area is
-- held by its key.
pub mod Protection
pub mod Update
pub mod Peace
mod Tests
use scalable_cross_platform.Prelude.{
  ℕ, Bool, true, false, not, Option, none, some, List, [], ◌∷◌, if◌then◌else◌, ltb,
}
use scalable_cross_platform.Prelude.Float.{Float}
use scalable_cross_platform.Prelude.Table.{lookup, contains, insert, erase, keys}
use scalable_cross_platform.Game.Vector
use scalable_cross_platform.Game.Vector.{Vector2}
use scalable_cross_platform.Game.Player.{Player}
use scalable_cross_platform.Game.Aura.{
  demilitarized_protection, add_internal_aura, remove_internal_aura,
}
use scalable_cross_platform.Game.Match.{Session, Match, with_session}

module _ (fl : Float) where
  open fl use {F}

  pub record Area : Type 0 where
    pub position : Vector2 fl
    pub radius : F
    pub sessions_on_area : List (ℕ × Bool)

  -- The first loop of `Update`: who is not in the match any more is not on the area.
  unfoldable pub keep_present : Match fl → List (ℕ × Bool) → List (ℕ × Bool)
  keep_present m [] = []
  keep_present m ((id, b) ∷ rest) =
      if contains id m.sessions then (id, b) ∷ keep_present m rest else keep_present m rest

  -- `DemilitarizedArea::OnAreaEnter` and `OnAreaExit`.
  unfoldable pub protect : Session fl → Session fl
  protect s =
      if ltb s.player.faction 3
      then record s { auras = add_internal_aura fl s.auras demilitarized_protection }
      else s

  unfoldable pub unprotect : Session fl → Session fl
  unprotect s = record s { auras = remove_internal_aura fl s.auras 1 }

  unfoldable pub is_inside : Area → Player fl → Bool
  is_inside a p = Vector.less_equal fl (Vector.distance fl a.position p.position) a.radius

  -- One round of the second loop.
  unfoldable pub visit : ℕ → Area × Match fl → Area × Match fl
  visit id (a, m) = elim (lookup id m.sessions) [
    | none ↦ (a, m)
    | some s ↦
        if is_inside a s.player
        then (if contains id a.sessions_on_area then (a, m) else (
          record a { sessions_on_area = insert id true a.sessions_on_area },
          with_session fl id protect m,
        ))
        else (if contains id a.sessions_on_area
            then (
              record a { sessions_on_area = erase id a.sessions_on_area },
              with_session fl id unprotect m,
            )
            else (a, m))
  ]

  unfoldable pub visit_all : List ℕ → Area × Match fl → Area × Match fl
  visit_all [] r = r
  visit_all (id ∷ ids) r = visit_all ids (visit id r)

  unfoldable pub update_area : Area → Match fl → Area × Match fl
  update_area a m =
      visit_all (keys m.sessions)
        (record a { sessions_on_area = keep_present m a.sessions_on_area }, m)

  -- `Match::UpdateAreas`.
  unfoldable pub update_areas : List Area → Match fl → List Area × Match fl
  update_areas [] m = ([], m)
  update_areas (a ∷ as_) m =
      let (b, n) = update_area a m in let (bs, o) = update_areas as_ n in (b ∷ bs, o)
