-- ===== src/Game/Ai/Tests.antt =====
-- An artificial player of each kind and a player of another faction, who comes, attacks and goes.
use scalable_cross_platform.Prelude.{ℕ, ◌≡◌, refl, true, false, none, some, [], ◌∷◌, List, arith}
use scalable_cross_platform.Prelude.Decimal.{decimal}
use scalable_cross_platform.Prelude.Table.{contains}
use scalable_cross_platform.Game.Vector.{Vector2}
use scalable_cross_platform.Game.Player.{Player, Entity}
use scalable_cross_platform.Game.Match.{Session, Match}
use scalable_cross_platform.Game.Match.Combat.Safety.{IsPeaceful}
use scalable_cross_platform.Game.Ai.{Draws}
use scalable_cross_platform.Game.Ai.FullAggresive
use scalable_cross_platform.Game.Ai.Defensive
use scalable_cross_platform.Game.Ai.Defensive.States

abbrev place : Vector2 decimal
place = record { x = 5; y = 7 }

abbrev standing : Entity decimal
standing = record {
  position = place;
  destination = place;
  origin = place;
  direction = record { x = 0; y = 0 };
  moving = false;
  travel_distance = 0;
  speed = 3;
}

abbrev body_of : ℕ → Player decimal
body_of faction = record {
  entity = standing;
  map_id = 1;
  max_hp = 100;
  max_shield = 50;
  hp = 70;
  shield = 0;
  min_damage = 1;
  max_damage = 4;
  absortion = 800000;
  attack_radius = 10000000;
  attack_time = 1000000;
  config = 2;
  faction = faction;
  extension = none;
}

abbrev npc : Session decimal
npc = record { player = body_of 9; auras = []; account = 0; is_npc = true; disconnection_time = 0 }

abbrev visitor : Session decimal
visitor = record {
  player = body_of 4;
  auras = [];
  account = 12;
  is_npc = false;
  disconnection_time = 0;
}

abbrev ground_of : Match decimal
ground_of = record {
  sessions = (1, npc) ∷ [];
  attacks = [];
  jumps = [];
  collections = [];
  collectables = [];
  portals = [];
  transfers = [];
  map_id = 1;
  next_id = 3;
  calls = [];
  departures = [];
  signed_out = [];
  despawned = [];
}

abbrev drawn : Draws decimal
drawn = record { wait = 2000000; x = 8000000; y = 9000000; angle = 100000 }

abbrev ground-IsPeaceful : IsPeaceful decimal ground_of
ground-IsPeaceful = record { no_self = tt; alive = (omega arith, tt) }

abbrev visit : List (FullAggresive.Event decimal)
visit =
    FullAggresive.updated drawn 16000
    ∷ FullAggresive.came 2 visitor
    ∷ FullAggresive.updated drawn 16000
    ∷ FullAggresive.gone 2
    ∷ FullAggresive.updated drawn 16000
    ∷ FullAggresive.cancelled
    ∷ []

happen_all-IsWell_example :
    (b : FullAggresive.FullAggresiveAi decimal) × (n : Match decimal) × (FullAggresive.happen_all
        decimal 1 visit
        (FullAggresive.new_ai decimal)
        ground_of
      ≡ some (b, n))
    × FullAggresive.Safety.IsWell decimal 1 b n
happen_all-IsWell_example =
    FullAggresive.Run.happen_all-IsWell decimal 1 visit (FullAggresive.new_ai decimal) ground_of
      (tt, (omega arith, (tt, (ground arith, (tt, (tt, tt))))))
      (record {
        here = unfold contains in refl;
        peaceful = ground-IsPeaceful;
        sees = unfold FullAggresive.new_ai in tt;
      })

abbrev ambush : List (States.Event decimal)
ambush =
    States.updated drawn 16000
    ∷ States.came 2 visitor
    ∷ States.attacked 2
    ∷ States.updated drawn 16000
    ∷ States.gone 2
    ∷ States.updated drawn 16000
    ∷ States.cancelled
    ∷ []

happen_all-IsReady_example :
    (b : Defensive.DefensiveAi decimal) × (n : Match decimal) × (States.happen_all decimal 1 ambush
        (Defensive.new_ai decimal)
        ground_of
      ≡ some (b, n))
    × Defensive.Life.IsReady decimal 1 b n
happen_all-IsReady_example =
    Defensive.Life.happen_all-IsReady decimal 1 ambush (Defensive.new_ai decimal) ground_of
      (tt, (omega arith, (ground arith, (tt, (ground arith, (tt, (tt, tt)))))))
      (record {
        here = unfold contains in refl;
        peaceful = ground-IsPeaceful;
        noted = unfold Defensive.new_ai in record { the_enemy = tt; the_target = tt };
      })
