-- ===== src/Game/Aura/Tests.antt =====
-- A protected player who does damage, and a shield that regenerates.
use scalable_cross_platform.Prelude.{◌≡◌, refl, true, false, none, [], ◌∷◌, arith, if◌then◌else◌}
use scalable_cross_platform.Prelude.Decimal.{decimal}
use scalable_cross_platform.Prelude.Table.{insert}
use scalable_cross_platform.Game.Vector.{Vector2, greater, less_equal, equal, nearly_equal}
use scalable_cross_platform.Game.Player.{Player}
use scalable_cross_platform.Game.Aura.{
  demilitarized_protection, shield_regenerator, Auras, new_auras, add_internal_aura, aura_id,
  is_pvp, is_attacking, damage_done_auras, update_auras,
}
use scalable_cross_platform.Game.Aura.Protection.{is_pvp-eq, has_protection, done-is_pvp}
use scalable_cross_platform.Game.Aura.Shield.{IsRegenerated, update_auras-IsRegenerated}

abbrev protected : Auras decimal
protected = add_internal_aura decimal (new_auras decimal) (demilitarized_protection)

is_pvp-eq_example :
    is_pvp decimal protected
    ≡ (if has_protection decimal protected then is_attacking decimal protected else true)
is_pvp-eq_example = is_pvp-eq decimal protected

done-is_pvp_example : is_pvp decimal (damage_done_auras decimal protected) ≡ true
done-is_pvp_example =
    done-is_pvp decimal (unfold greater less_equal equal nearly_equal in refl) protected
      (unfold new_auras add_internal_aura aura_id insert in refl)

abbrev home : Vector2 decimal
home = record { x = 5; y = 7 }

abbrev wounded : Player decimal
wounded = record {
  entity = record {
    position = home;
    destination = home;
    origin = home;
    direction = home;
    moving = false;
    travel_distance = 0;
    speed = 3;
  };
  map_id = 1;
  max_hp = 100;
  max_shield = 50;
  hp = 90;
  shield = 49;
  min_damage = 1;
  max_damage = 4;
  absortion = 800000;
  attack_radius = 10000000;
  attack_time = 1000000;
  config = 2;
  faction = 4;
  extension = none;
}

abbrev rested : Auras decimal
rested = (0, shield_regenerator 0 0) ∷ []

update_auras-IsRegenerated_example :
    IsRegenerated decimal wounded (update_auras decimal 16 rested wounded).1
update_auras-IsRegenerated_example =
    update_auras-IsRegenerated decimal 16 rested wounded (omega arith) (omega arith)
