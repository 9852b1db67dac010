-- ===== src/Game/Attack/Tests.antt =====
-- Hits of ten points on a player whose shield absorbs eight tenths.
use scalable_cross_platform.Prelude.{ℕ, ◌+◌, ◌≡◌, ◌≢◌, ◌⊎◌, ◌↔◌, true, false, none, arith}
use scalable_cross_platform.Prelude.Decimal.{decimal}
use scalable_cross_platform.Game.Vector.{Vector2}
use scalable_cross_platform.Game.Player.{Player, Entity}
use scalable_cross_platform.Game.Attack.{Attack, take_hp, hit_shield, hit, update_attack}
use scalable_cross_platform.Game.Attack.Damage.{hit_conserves, IsFair, update_attack-IsFair}

abbrev here : Vector2 decimal
here = record { x = 5; y = 7 }

abbrev standing : Entity decimal
standing = record {
  position = here;
  destination = here;
  origin = here;
  direction = record { x = 0; y = 0 };
  moving = false;
  travel_distance = 0;
  speed = 3;
}

abbrev soldier : Player decimal
soldier = record {
  entity = standing;
  map_id = 1;
  max_hp = 100;
  max_shield = 50;
  hp = 90;
  shield = 40;
  min_damage = 1;
  max_damage = 4;
  absortion = 800000;
  attack_radius = 10000000;
  attack_time = 1000000;
  config = 2;
  faction = 4;
  extension = none;
}

abbrev worn : Player decimal
worn = record soldier { shield = 8 }

abbrev ready : Attack decimal
ready = record { timer = 0; time = 1000000; radius = 10000000 }

hit_conserves_example :
    ((hit decimal worn 10).shield_left + (hit decimal worn 10).hp_left + (8 + 2) ≡ 8 + 90)
    ↔ ((◌≢◌ {A = ℕ} 8 8) ⊎ (◌≡◌ {A = ℕ} 2 10))
hit_conserves_example =
    hit_conserves decimal worn 10 (omega arith) (unfold hit hit_shield take_hp in omega arith)

update_attack-IsFair_example :
    IsFair decimal worn (update_attack decimal 60 4 true ready soldier worn 16)
update_attack-IsFair_example = update_attack-IsFair decimal 60 4 true ready soldier worn 16
