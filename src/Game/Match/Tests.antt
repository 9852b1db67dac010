-- ===== src/Game/Match/Tests.antt =====
-- Two players on a map, one of whom attacks the other, and one who attacks himself.
use scalable_cross_platform.Prelude.{
  ℕ, ◌+◌, ◌≡◌, ◌↔◌, refl, true, false, none, some, [], ◌∷◌, arith,
}
use scalable_cross_platform.Prelude.Decimal.{decimal}
use scalable_cross_platform.Prelude.Table.{lookup, contains}
use scalable_cross_platform.Prelude.Table.Laws.{Entries}
use scalable_cross_platform.Game.Vector.{
  Vector2, less_equal, equal, nearly_equal, distance, magnitude, minus,
}
use scalable_cross_platform.Game.Player.{Player, Entity, PlayerExtension}
use scalable_cross_platform.Game.Attack.{update_attack, strike, go_on, hit, hit_shield, take_hp}
use scalable_cross_platform.Game.Aura.{is_pvp, all_pvp, is_attacking}
use scalable_cross_platform.Game.Match.{Session, Match, AttackEntry}
use scalable_cross_platform.Game.Area.{Area}
use scalable_cross_platform.Game.Match.Combat.{Draw, start, update_attacks, update_entry}
use scalable_cross_platform.Game.Match.Combat.Safety.{IsPeaceful, update_attacks-IsPeaceful}
use scalable_cross_platform.Game.Match.Combat.Start.{start-IsPeaceful, update_entry_self}
use scalable_cross_platform.Game.Match.Roster.{Tick, attack, jump}
use scalable_cross_platform.Memory.Stream.{Stream}
use scalable_cross_platform.Game.Ai.{Draws}
use scalable_cross_platform.Game.Ai.FullAggresive.{new_ai}
use scalable_cross_platform.Game.Ai.FullAggresive.Turn.{think}

abbrev here : Vector2 decimal
here = record { x = 5; y = 7 }

abbrev standing : Entity decimal
standing = record {
  position = here;
  destination = here;
  origin = here;
  direction = record { x = 0; y = 0 };
  moving = false;
  travel_distance = 0;
  speed = 3;
}

abbrev badge : PlayerExtension
badge = record { clan = 65 ∷ []; name = 66 ∷ 67 ∷ []; rank = 1 }

abbrev drawn : Draws decimal
drawn = record { wait = 2000000; x = 8000000; y = 9000000; angle = 100000 }

abbrev soldier : Player decimal
soldier = record {
  entity = standing;
  map_id = 1;
  max_hp = 100;
  max_shield = 50;
  hp = 1;
  shield = 0;
  min_damage = 1;
  max_damage = 4;
  absortion = 800000;
  attack_radius = 10000000;
  attack_time = 1000000;
  config = 2;
  faction = 4;
  extension = some badge;
}

abbrev present : Session decimal
present = record {
  player = soldier;
  auras = [];
  account = 12;
  is_npc = false;
  disconnection_time = 0;
}

abbrev attack_on : ℕ → AttackEntry decimal
attack_on j = record {
  attacked = j;
  attack = record { timer = 0; time = 1000000; radius = 10000000 };
}

-- One attacks two.
abbrev field : Match decimal
field = record {
  sessions = (1, present) ∷ (2, present) ∷ [];
  attacks = (1, attack_on 2) ∷ [];
  jumps = [];
  collections = [];
  collectables = [];
  portals = record { position = here; destination_map = 4; destination_position = here } ∷ [];
  transfers = (here, present) ∷ [];
  map_id = 1;
  next_id = 3;
  calls = [];
  departures = [];
  signed_out = [];
  despawned = [];
}

abbrev lonely : Match decimal
lonely = record field { attacks = (1, attack_on 1) ∷ [] }

abbrev field-IsPeaceful : IsPeaceful decimal field
field-IsPeaceful = record { no_self = (ground arith, tt); alive = (omega arith, (omega arith, tt)) }

abbrev lucky : ℕ → Draw
lucky i = record { chance = 60; damage = 4 }

update_attacks-IsPeaceful_example :
    (n : Match decimal) × (update_attacks decimal 16 lucky field ≡ some n)
    × IsPeaceful decimal n
    × Entries (λ i (e : AttackEntry decimal). contains i n.sessions ≡ true) n.attacks
update_attacks-IsPeaceful_example =
    update_attacks-IsPeaceful decimal 16 lucky field field-IsPeaceful

start-IsPeaceful_example :
    (n : Match decimal) × (start decimal 2 1 field ≡ some n)
    × (n.sessions ≡ field.sessions)
    × IsPeaceful decimal n
start-IsPeaceful_example =
    start-IsPeaceful decimal 2 1 field (ground arith) (unfold contains in refl) field-IsPeaceful

update_entry_self_example : (update_entry decimal 16 lucky 1 lonely ≡ none) ↔ (◌≡◌ {A = ℕ} 1 1)
update_entry_self_example =
    update_entry_self decimal 16 lucky 1 lonely (attack_on 1) present present
      (unfold lookup in refl) (unfold lookup in refl) (unfold lookup in refl)
      (unfold update_attack is_pvp all_pvp is_attacking strike go_on hit hit_shield take_hp
          less_equal equal nearly_equal distance magnitude minus in
        refl)

abbrev tick : Tick decimal
tick = record {
  time_difference = 16;
  now = 4000;
  has_ai = λ name. true;
  spawned = ((68 ∷ 101 ∷ []), soldier) ∷ [];
  found = [];
  draws = lucky;
  turns = λ i. record {
    commands = jump ∷ attack (i + 1) ∷ [];
    is_open = true;
    is_idle = false;
    think = think decimal drawn 5 i (new_ai decimal);
  };
}

abbrev park : Area decimal
park = record { position = here; radius = 10000000; sessions_on_area = (2, true) ∷ [] }
