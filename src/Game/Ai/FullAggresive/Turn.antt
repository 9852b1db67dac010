-- ===== src/Game/Ai/FullAggresive/Turn.antt =====
-- The update of an aggresive artificial player (FullAggresiveNPCAI.h) as a part of the update of its
-- match: `Update` of NPC.h up to the auras.
use scalable_cross_platform.Prelude.{
  ℕ, ◌≡◌, refl, sym, inl, inr, true, Option, none, some, if◌then◌else◌, Bool-cases, ==_refl,
}
use mathlib.Core.Path.{subst}
use scalable_cross_platform.Prelude.Float.{Float}
use scalable_cross_platform.Prelude.Table.{contains}
use scalable_cross_platform.Game.Match.{Match}
use scalable_cross_platform.Game.Match.Combat.Safety.{IsPeaceful}
use scalable_cross_platform.Game.Match.Roster.Peace.{Stays}
use scalable_cross_platform.Game.Ai.{Draws}
use scalable_cross_platform.Game.Ai.Seen.{Sees}
use scalable_cross_platform.Game.Ai.FullAggresive.{
  FullAggresiveAi, someone_disappear, update_ai, updated, happen,
}
use scalable_cross_platform.Game.Ai.FullAggresive.Run.{happen-Ends}

module _ (fl : Float) where
  -- The behaviour at the time of its update: an enemy that went since was announced.
  unfoldable pub told : Option ℕ → FullAggresiveAi fl → Match fl → FullAggresiveAi fl
  told none ai m = ai
  told (some e) ai m = if contains e m.sessions then ai else someone_disappear fl ai.enemy_id ai

  -- What the update does to the match.
  unfoldable pub think : Draws fl → fl.F → ℕ → FullAggresiveAi fl → Match fl → Option (Match fl)
  think draws delta_time id ai m = elim (update_ai fl draws delta_time id (told ai.enemy ai m) m) [
    | none ↦ none
    | some r ↦ some r.1
  ]

  module _ (ai : FullAggresiveAi fl) (m : Match fl) where
    abbrev SeesEnemy : FullAggresiveAi fl → Type 0
    SeesEnemy b = Sees fl b.enemy b.enemy_id m

    told-Sees :
        (o : Option ℕ)
        → ai.enemy ≡ o
        → ((e : ℕ) → o ≡ some e → ai.enemy_id ≡ e)
        → SeesEnemy (told o ai m)
    unfolding told someone_disappear
    told-Sees none x h = subst (λ o. Sees fl o ai.enemy_id m) (sym x) tt
    told-Sees (some e) x h = elim (Bool-cases (contains e m.sessions)) [
      | inl c ↦ rw (c) (subst (λ o. Sees fl o ai.enemy_id m) (sym x) (h e refl, c))
      | inr c ↦ rw (c) (rw (==_refl ai.enemy_id) tt)
    ]

    -- With an enemy, if any, under the id that is noted, and in a peaceful match, the update uses no
    -- session that is gone and leaves the match peaceful and its player in it.
    pub think-Stays :
        (draws : Draws fl) (delta_time : fl.F) (id : ℕ)
        → ((e : ℕ) → ai.enemy ≡ some e → ai.enemy_id ≡ e)
        → contains id m.sessions ≡ true
        → IsPeaceful fl m
        → Stays fl id (think draws delta_time id ai m)
    unfolding think happen
    think-Stays draws delta_time id h c p =
        let (b, n, e, w) =
          happen-Ends fl id (updated draws delta_time) (told ai.enemy ai m) m tt
            (record { here = c; peaceful = p; sees = told-Sees ai.enemy refl h }) in
        (n, rw (e, think) refl, w.here, w.peaceful)
