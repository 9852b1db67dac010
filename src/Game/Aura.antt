-- ===== src/Game/Aura.antt =====
-- The internal auras of a session: GameServer/GameServer/ShieldRegeneratorAura.h, AttackerAura.h and
-- DemilitarizedProtectionAura.h, and the part of MatchSession.h that holds them. The auras that
-- factories make (`m_Auras`) have no hooks in this repository and are left out.
pub mod Protection
pub mod Shield
mod Tests
use scalable_cross_platform.Prelude.{
  ℕ, ◌+◌, ◌*◌, ◌%◌, ◌^◌, Bool, true, false, not, ◌&&◌, ◌||◌, Option, none, some, List, [], ◌∷◌, ltb,
  leb, add_u32, if◌then◌else◌,
}
use scalable_cross_platform.Prelude.Float.{Float}
use scalable_cross_platform.Prelude.Table.{insert, erase}
use scalable_cross_platform.Game.Vector
use scalable_cross_platform.Game.Player.{Player}

module _ (fl : Float) where
  open fl use {F, lit, sub, mul, div, of_ℕ, trunc}

  pub data InternalAura : Type 0 where
    shield_regenerator : (combat_timer regeneration_timer : F) → InternalAura
    attacker : (attack_timer : F) → InternalAura
    demilitarized_protection : InternalAura

  -- `AuraID`.
  unfoldable pub aura_id : InternalAura → ℕ
  aura_id (shield_regenerator c r) = 0
  aura_id demilitarized_protection = 1
  aura_id (attacker t) = 2

  abbrev pub combat_time : F
  combat_time = lit 15 0

  abbrev pub regeneration_time : F
  regeneration_time = lit 1 0

  unfoldable pub on_damage_received : InternalAura → InternalAura
  on_damage_received (shield_regenerator c r) = shield_regenerator combat_time r
  on_damage_received (attacker t) = attacker t
  on_damage_received demilitarized_protection = demilitarized_protection

  unfoldable pub on_damage_done : InternalAura → InternalAura
  on_damage_done (shield_regenerator c r) = shield_regenerator c r
  on_damage_done (attacker t) = attacker combat_time
  on_damage_done demilitarized_protection = demilitarized_protection

  -- `m_InternalAuras`.
  abbrev pub Auras : Type 0
  Auras = List (ℕ × InternalAura)

  -- The loops of `SendDamageDone` and `SendDamageReceived`.
  unfoldable pub damage_done_auras : Auras → Auras
  damage_done_auras [] = []
  damage_done_auras ((id, a) ∷ as_) = (id, on_damage_done a) ∷ damage_done_auras as_

  unfoldable pub damage_received_auras : Auras → Auras
  damage_received_auras [] = []
  damage_received_auras ((id, a) ∷ as_) = (id, on_damage_received a) ∷ damage_received_auras as_

  unfoldable pub aura_is_attacking : InternalAura → Bool
  aura_is_attacking (shield_regenerator c r) = false
  aura_is_attacking (attacker t) = Vector.greater fl t (lit 0 0)
  aura_is_attacking demilitarized_protection = false

  -- `MatchSession::IsAttacking`.
  unfoldable pub is_attacking : Auras → Bool
  is_attacking [] = false
  is_attacking ((id, a) ∷ as_) = if aura_is_attacking a then true else is_attacking as_

  -- `InternalAura::IsPvP`, where the session of the aura is attacking or not.
  unfoldable pub aura_is_pvp : Bool → InternalAura → Bool
  aura_is_pvp attacking (shield_regenerator c r) = true
  aura_is_pvp attacking (attacker t) = true
  aura_is_pvp attacking demilitarized_protection = attacking

  unfoldable pub all_pvp : Bool → Auras → Bool
  all_pvp attacking [] = true
  all_pvp attacking ((id, a) ∷ as_) =
      if not (aura_is_pvp attacking a) then false else all_pvp attacking as_

  -- `MatchSession::IsPvP`.
  unfoldable pub is_pvp : Auras → Bool
  is_pvp as_ = all_pvp (is_attacking as_) as_

  unfoldable pub add_internal_aura : Auras → InternalAura → Auras
  unfolding aura_id
  add_internal_aura as_ a = insert (aura_id a) a as_

  unfoldable pub remove_internal_aura : Auras → ℕ → Auras
  remove_internal_aura as_ id = erase id as_

  -- The constructor of a session that is new.
  unfoldable pub new_auras : Auras
  new_auras =
      add_internal_aura (add_internal_aura [] (shield_regenerator combat_time regeneration_time))
        (attacker (lit 0 0))

  -- `InternalCopy`, when a session goes to another map.
  unfoldable pub internal_copy : InternalAura → InternalAura
  internal_copy (shield_regenerator c r) = shield_regenerator c r
  internal_copy (attacker t) = attacker t
  internal_copy demilitarized_protection = demilitarized_protection

  -- The shield behind a regeneration, in 32 bits.
  unfoldable pub regenerated : Player fl → ℕ
  regenerated p =
      let shield = add_u32 p.shield (trunc (mul (of_ℕ p.max_shield) (lit 4 2)) % 2 ^ 32) in
      if ltb shield p.max_shield then shield else p.max_shield

  -- `ShieldRegeneratorAura::Update`: the aura, the player, and whether the status is sent.
  unfoldable pub regenerate : F → F → F → Player fl → InternalAura × Player fl × Bool
  regenerate c r delta_time p =
      if not (Vector.less_equal fl c (lit 0 0))
      then (shield_regenerator (sub c delta_time) r, p, false)
      else (if leb p.max_shield p.shield
          then (shield_regenerator c r, p, false)
          else (if not (Vector.less_equal fl r (lit 0 0))
              then (shield_regenerator c (sub r delta_time), p, false)
              else (
                shield_regenerator c regeneration_time,
                record p { shield = regenerated p },
                true,
              )))

  -- `Update` of an internal aura.
  unfoldable pub update_aura : F → InternalAura → Player fl → InternalAura × Player fl × Bool
  update_aura delta_time (shield_regenerator c r) p = regenerate c r delta_time p
  update_aura delta_time (attacker t) p = (attacker (sub t delta_time), p, false)
  update_aura delta_time demilitarized_protection p = (demilitarized_protection, p, false)

  -- The loop of `MatchSession::Update`, without what it sends.
  unfoldable pub update_auras : F → Auras → Player fl → Auras × Player fl
  update_auras delta_time [] p = ([], p)
  update_auras delta_time ((id, a) ∷ as_) p =
      let (b, q, sent) = update_aura delta_time a p in
      let (rest, s) = update_auras delta_time as_ q in ((id, b) ∷ rest, s)
