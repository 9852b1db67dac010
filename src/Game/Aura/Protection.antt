-- ===== src/Game/Aura/Protection.antt =====
-- Who may be attacked.
use scalable_cross_platform.Prelude.{
  ◌≡◌, refl, sym, ap, ◌∙◌, Bool, true, false, not, [], ◌∷◌, if◌then◌else◌,
}
use mathlib.Core.Bool.{true≢false}
use scalable_cross_platform.Prelude.Float.{Float}
use scalable_cross_platform.Game.Vector
use scalable_cross_platform.Game.Aura.{
  InternalAura, shield_regenerator, attacker, demilitarized_protection, Auras, on_damage_done,
  damage_done_auras, aura_is_attacking, is_attacking, aura_is_pvp, all_pvp, is_pvp, combat_time,
}

module _ (fl : Float) where
  abbrev pub is_protection : InternalAura fl → Bool
  is_protection (shield_regenerator c r) = false
  is_protection (attacker t) = false
  is_protection demilitarized_protection = true

  abbrev pub has_protection : Auras fl → Bool
  has_protection [] = false
  has_protection ((id, a) ∷ as_) = if is_protection a then true else has_protection as_

  abbrev pub has_attacker : Auras fl → Bool
  has_attacker [] = false
  has_attacker ((id, shield_regenerator c r) ∷ as_) = has_attacker as_
  has_attacker ((id, attacker t) ∷ as_) = true
  has_attacker ((id, demilitarized_protection) ∷ as_) = has_attacker as_

  all_pvp-attacking : (as_ : Auras fl) → all_pvp fl true as_ ≡ true
  unfolding all_pvp aura_is_pvp
  all_pvp-attacking [] = refl
  all_pvp-attacking ((id, shield_regenerator c r) ∷ as_) = all_pvp-attacking as_
  all_pvp-attacking ((id, attacker t) ∷ as_) = all_pvp-attacking as_
  all_pvp-attacking ((id, demilitarized_protection) ∷ as_) = all_pvp-attacking as_

  all_pvp-peaceful : (as_ : Auras fl) → all_pvp fl false as_ ≡ not (has_protection as_)
  unfolding all_pvp aura_is_pvp
  all_pvp-peaceful [] = refl
  all_pvp-peaceful ((id, shield_regenerator c r) ∷ as_) = all_pvp-peaceful as_
  all_pvp-peaceful ((id, attacker t) ∷ as_) = all_pvp-peaceful as_
  all_pvp-peaceful ((id, demilitarized_protection) ∷ as_) = refl

  -- A player may be attacked exactly if he has not the protection of a demilitarized area, or has it
  -- and is attacking himself.
  pub is_pvp-eq :
      (as_ : Auras fl) → is_pvp fl as_ ≡ (if has_protection as_ then is_attacking fl as_ else true)
  unfolding is_pvp
  is_pvp-eq as_ = go (is_attacking fl as_) (has_protection as_) refl
    where
      go :
          (attacking protected : Bool)
          → has_protection as_ ≡ protected
          → all_pvp fl attacking as_ ≡ (if protected then attacking else true)
      go true true e = all_pvp-attacking as_
      go true false e = all_pvp-attacking as_
      go false true e = all_pvp-peaceful as_ ∙ ap not e
      go false false e = all_pvp-peaceful as_ ∙ ap not e

  module _ (lasting : Vector.greater fl (combat_time fl) (fl.lit 0 0) ≡ true) where
    done-is_attacking :
        (as_ : Auras fl)
        → has_attacker as_ ≡ true
        → is_attacking fl (damage_done_auras fl as_) ≡ true
    unfolding is_attacking damage_done_auras on_damage_done aura_is_attacking
    done-is_attacking [] h = absurd (true≢false (sym h))
    done-is_attacking ((id, shield_regenerator c r) ∷ as_) h = done-is_attacking as_ h
    done-is_attacking ((id, attacker t) ∷ as_) h = rw lasting
    done-is_attacking ((id, demilitarized_protection) ∷ as_) h = done-is_attacking as_ h

    -- If the floats put 15 above 0, then a player whose session has the attacker's aura may be
    -- attacked as soon as he has done damage, protected or not.
    pub done-is_pvp :
        (as_ : Auras fl) → has_attacker as_ ≡ true → is_pvp fl (damage_done_auras fl as_) ≡ true
    unfolding is_pvp
    done-is_pvp as_ h = rw (done-is_attacking as_ h) (all_pvp-attacking (damage_done_auras fl as_))
