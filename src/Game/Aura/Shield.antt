-- ===== src/Game/Aura/Shield.antt =====
-- What auras do to the shield.
use scalable_cross_platform.Prelude.{
  ℕ, ◌+◌, ◌^◌, ◌≤◌, ◌<◌, ◌≡◌, refl, ◌∙◌, Bool, true, false, not, [], ◌∷◌, arith, leb, if◌then◌else◌,
}
use scalable_cross_platform.Prelude.Float.{Float}
use scalable_cross_platform.Game.Vector
use scalable_cross_platform.Game.Player.{Player}
use scalable_cross_platform.Game.Aura.{
  InternalAura, shield_regenerator, attacker, demilitarized_protection, Auras, regenerated,
  regenerate, update_aura, update_auras,
}

module _ (fl : Float) where
  -- The shield grows, and not above its maximum; the health points stay.
  pub record IsRegenerated (p q : Player fl) : Type 0 where
    pub grows : p.shield ≤ q.shield
    pub bounded : q.shield ≤ q.max_shield
    pub maximum : q.max_shield ≡ p.max_shield
    pub health : q.hp ≡ p.hp

  abbrev share : Player fl → ℕ
  share p = fl.trunc (fl.mul (fl.of_ℕ p.max_shield) (fl.lit 4 2))

  module _ (p : Player fl) (h : p.shield ≤ p.max_shield) (w : p.max_shield + share p < 2 ^ 32) where
    same-IsRegenerated : IsRegenerated p p
    same-IsRegenerated = record { grows = omega arith; bounded = h; maximum = refl; health = refl }

    regenerated-bounds : (p.shield ≤ regenerated fl p) × (regenerated fl p ≤ p.max_shield)
    unfolding regenerated
    regenerated-bounds = ground (arith, h, w)

    more-IsRegenerated : IsRegenerated p (record p { shield = regenerated fl p })
    more-IsRegenerated = record {
      grows = regenerated-bounds.0;
      bounded = regenerated-bounds.1;
      maximum = refl;
      health = refl;
    }

    regenerate-IsRegenerated : (c r d : fl.F) → IsRegenerated p (regenerate fl c r d p).1
    unfolding regenerate
    regenerate-IsRegenerated c r d =
        go (Vector.less_equal fl c (fl.lit 0 0)) (leb p.max_shield p.shield)
          (Vector.less_equal fl r (fl.lit 0 0))
      where
        go :
            (rested full due : Bool)
            → (let out : InternalAura fl × Player fl × Bool =
                  if not rested
                  then (shield_regenerator (fl.sub c d) r, p, false)
                  else (if full
                      then (shield_regenerator c r, p, false)
                      else (if not due then (shield_regenerator c (fl.sub r d), p, false) else (
                        shield_regenerator c (fl.lit 1 0),
                        record p { shield = regenerated fl p },
                        true,
                      ))) in
                IsRegenerated p out.1)
        go false full due = same-IsRegenerated
        go true true due = same-IsRegenerated
        go true false false = same-IsRegenerated
        go true false true = more-IsRegenerated

    update_aura-IsRegenerated :
        (d : fl.F) (a : InternalAura fl) → IsRegenerated p (update_aura fl d a p).1
    unfolding update_aura
    update_aura-IsRegenerated d (shield_regenerator c r) = regenerate-IsRegenerated c r d
    update_aura-IsRegenerated d (attacker t) = same-IsRegenerated
    update_aura-IsRegenerated d demilitarized_protection = same-IsRegenerated

  -- If a player's shield is not above its maximum, and the maximum and four hundredths of it do not
  -- reach 2 ^ 32 together, then an update of any auras never lowers the shield, never brings it above
  -- its maximum, and leaves the maximum and the health points as they are.
  pub update_auras-IsRegenerated :
      (d : fl.F) (as_ : Auras fl) (p : Player fl)
      → p.shield ≤ p.max_shield
      → p.max_shield + fl.trunc (fl.mul (fl.of_ℕ p.max_shield) (fl.lit 4 2)) < 2 ^ 32
      → IsRegenerated p (update_auras fl d as_ p).1
  unfolding update_auras
  update_auras-IsRegenerated d [] p h w = same-IsRegenerated p h w
  update_auras-IsRegenerated d ((id, a) ∷ as_) p h w =
      let f = update_aura-IsRegenerated p h w d a in
      let g = update_auras-IsRegenerated d as_ _ f.bounded (rw f.maximum w) in
      record {
        grows = omega (arith, f.grows, g.grows);
        bounded = g.bounded;
        maximum = g.maximum ∙ f.maximum;
        health = g.health ∙ f.health;
      }
