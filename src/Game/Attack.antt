-- ===== src/Game/Attack.antt =====
-- GameServer/GameServer/Attack.h and Attack.cpp. The numbers that `Random::Range` draws are
-- arguments. The `int64_t` values are taken as exact: a negative one is told by a comparison and
-- stands as its absolute value.
pub mod Damage
mod Tests
use scalable_cross_platform.Prelude.{
  ℕ, ◌+◌, ◌-◌, ◌%◌, ◌^◌, Bool, true, false, not, List, [], ◌∷◌, ltb, ◌==◌, if◌then◌else◌,
}
use scalable_cross_platform.Prelude.Float.{Float}
use scalable_cross_platform.Game.Vector.{Vector2}
use scalable_cross_platform.Game.Vector
use scalable_cross_platform.Game.Player.{Player}

pub data AttackResult : Type 0 where
  cancelled attacked_dead attacking : AttackResult

-- The calls that an update makes on the sessions and on the match.
pub data AttackCall : Type 0 where
  send_damage_done send_damage_received : ℕ → AttackCall
  send_you_die send_status_update send_out_of_range : AttackCall

abbrev pub miss_percentage : ℕ
miss_percentage = 20

-- What a hit leaves of the shield and of the health points, and what is announced.
pub record Hit : Type 0 where
  pub shield_left : ℕ
  pub hp_left : ℕ
  pub notification : ℕ

-- The health points behind `hp -= hpDamage`, and `damageNotification`.
unfoldable pub take_hp : ℕ → ℕ → ℕ → ℕ → Hit
take_hp damage shield hp hp_damage =
    if ltb hp hp_damage
    then record { shield_left = shield; hp_left = 0; notification = (hp_damage - hp) % 2 ^ 32 }
    else record { shield_left = shield; hp_left = hp - hp_damage; notification = damage }

module _ (fl : Float) where
  open fl use {F, lit, sub, mul, div, of_ℕ, trunc}

  pub record Attack : Type 0 where
    pub timer : F
    pub time : F
    pub radius : F

  -- What of a damage goes to the shield, and what does not.
  abbrev pub absorbed : Player fl → ℕ → ℕ
  absorbed p damage = trunc (mul (of_ℕ damage) p.absortion)

  abbrev pub passed : Player fl → ℕ → ℕ
  passed p damage = trunc (mul (of_ℕ damage) (sub (lit 1 0) p.absortion))

  -- `shield > 0`, `shield < 0` and the rest, for a shield that was there.
  unfoldable pub hit_shield : Player fl → ℕ → Hit
  hit_shield p damage =
      if ltb (absorbed p damage) p.shield
      then take_hp damage (p.shield - absorbed p damage) p.hp (passed p damage)
      else (if ltb p.shield (absorbed p damage)
          then take_hp damage 0 p.hp (passed p damage + (absorbed p damage - p.shield))
          else take_hp damage 0 p.hp damage)

  unfoldable pub hit : Player fl → ℕ → Hit
  hit p damage = if ltb 0 p.shield then hit_shield p damage else take_hp damage 0 p.hp damage

  -- What an update does: the attack, the attacked player, the calls in their order, the result.
  pub record Outcome : Type 0 where
    pub attack : Attack
    pub attacked : Player fl
    pub calls : List AttackCall
    pub result : AttackResult

  -- The end of `Update`.
  unfoldable pub go_on : Attack → F → Player fl → List AttackCall → Outcome
  go_on a delta_time p calls = record {
    attack = record a { timer = sub a.timer delta_time };
    attacked = p;
    calls = calls;
    result = attacking;
  }

  -- A hit that arrives.
  unfoldable pub strike : Attack → F → Player fl → ℕ → Outcome
  strike a delta_time p damage =
      let h = hit p damage in
      let q : Player fl = record p { shield = h.shield_left; hp = h.hp_left } in
      if h.hp_left == 0
      then record {
        attack = a;
        attacked = q;
        calls = send_damage_done h.notification ∷ send_you_die ∷ [];
        result = attacked_dead;
      }
      else go_on (record a { timer = a.time }) delta_time q
          (send_damage_done h.notification ∷ send_status_update ∷ send_damage_received damage ∷ [])

  -- `Attack::Update`. `chance` is drawn from 0 to 99, `drawn` by `CalculateDamage`.
  unfoldable pub update_attack : ℕ → ℕ → Bool → Attack → Player fl → Player fl → ℕ → Outcome
  update_attack chance drawn pvp a attacker p time_difference =
      let delta_time = div (of_ℕ time_difference) (lit 1000 0) in
      if Vector.less_equal fl a.timer (lit 0 0)
      then (if Vector.less_equal fl (Vector.distance fl attacker.position p.position) a.radius
          then (if not pvp
              then record { attack = a; attacked = p; calls = []; result = cancelled }
              else strike a delta_time p (if ltb chance miss_percentage then 0 else drawn))
          else go_on (record a { timer = a.time }) delta_time p (send_out_of_range ∷ []))
      else go_on a delta_time p []
