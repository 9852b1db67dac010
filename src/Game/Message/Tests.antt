-- ===== src/Game/Message/Tests.antt =====
-- The theorems on messages at concrete inputs.
use scalable_cross_platform.Prelude.{
  ℕ, ◌+◌, ◌≡◌, refl, false, none, some, [], ◌∷◌, ◌++◌, arith, replicate,
}
use scalable_cross_platform.Prelude.Decimal.{decimal}
use scalable_cross_platform.Memory.Exception.{Exception, ok, thrown}
use scalable_cross_platform.Memory.Bytes.{to_bytes}
use scalable_cross_platform.Memory.StreamLaws.{encode}
use scalable_cross_platform.Game.Vector.{Vector2}
use scalable_cross_platform.Game.Player.{Player, Entity, player_size, extension_size, Collectable}
use scalable_cross_platform.Game.Message.{
  WorldState, new_player, world_state, movement, outgoing, fields, body_size,
}
use scalable_cross_platform.Game.Message.Exact.{outgoing_exact, outgoing_npc, world_state_overflow}

abbrev home : Vector2 decimal
home = record { x = 5; y = 7 }

abbrev still : Entity decimal
still = record {
  position = home;
  destination = home;
  origin = home;
  direction = record { x = 0; y = 0 };
  moving = false;
  travel_distance = 0;
  speed = 3;
}

abbrev npc : Player decimal
npc = record {
  entity = still;
  map_id = 1;
  max_hp = 100;
  max_shield = 50;
  hp = 90;
  shield = 40;
  min_damage = 1;
  max_damage = 4;
  absortion = 800000;
  attack_radius = 10000000;
  attack_time = 1000000;
  config = 2;
  faction = 4;
  extension = none;
}

abbrev hero : Player decimal
hero = record npc { extension = some (record { clan = 65 ∷ []; name = 66 ∷ 67 ∷ []; rank = 1 }) }

abbrev zeros : ℕ → ℕ
zeros i = 0

outgoing_exact_example :
    outgoing decimal zeros (new_player 3 hero)
    ≡ ok (record {
      bytes =
          to_bytes 2 (body_size decimal (new_player 3 hero))
          ++ encode (fields decimal (new_player 3 hero));
      position = 2 + body_size decimal (new_player 3 hero);
    })
unfolding player_size extension_size
outgoing_exact_example =
    outgoing_exact decimal zeros (new_player 3 hero)
      ((record { clan = 65 ∷ []; name = 66 ∷ 67 ∷ []; rank = 1 }, refl), omega arith)

-- The last byte on the wire is the 9 that the memory held.
outgoing_npc_example :
    outgoing decimal (λ i. 9) (new_player 3 npc)
    ≡ ok (record {
      bytes =
          (to_bytes 2 (2 + 8 + player_size decimal npc)
            ++ encode (fields decimal (new_player 3 npc)))
          ++ (9 ∷ []);
      position = 1 + (2 + 8 + player_size decimal npc);
    })
unfolding player_size
outgoing_npc_example = outgoing_npc decimal (λ i. 9) 3 npc refl (omega arith)

-- 3000 collectables of 24 bytes.
abbrev crystal : Collectable decimal
crystal = record { id = 1; position = home; time = 0; config = 0 }

abbrev crowded : WorldState decimal
crowded = record {
  id = 0;
  player = hero;
  map_id = 1;
  sessions = [];
  attacks = [];
  portals = [];
  collectables = replicate 3000 crystal;
}

world_state_overflow_example :
    (e : Exception) × (outgoing decimal zeros (world_state crowded) ≡ thrown e)
unfolding player_size extension_size
world_state_overflow_example =
    world_state_overflow decimal zeros crowded
      (record { clan = 65 ∷ []; name = 66 ∷ 67 ∷ []; rank = 1 }, refl) tt (omega arith)

movement_body : body_size decimal (movement 3 home) ≡ 18
unfolding body_size
movement_body = refl
