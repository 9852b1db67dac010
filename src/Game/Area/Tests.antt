-- ===== src/Game/Area/Tests.antt =====
-- A player comes into a demilitarized area.
use scalable_cross_platform.Prelude.{
  ◌≡◌, refl, sym, ◌∙◌, false, ◌&&◌, none, [], ◌∷◌, ltb, ◌==◌, Bool-cases, inl, inr,
}
use mathlib.Core.Path.{subst}
use mathlib.Core.Option.{some-injective, none-ne-some}
use scalable_cross_platform.Prelude.Decimal.{decimal}
use scalable_cross_platform.Prelude.Table.{lookup, contains, insert, modify}
use scalable_cross_platform.Game.Vector.{
  Vector2, less_equal, equal, nearly_equal, distance, magnitude, minus,
}
use scalable_cross_platform.Game.Player.{Player}
use scalable_cross_platform.Game.Match.{Session, Match}
use scalable_cross_platform.Game.Area.{
  Area, keep_present, protect, is_inside, visit, visit_all, update_area,
}
use scalable_cross_platform.Game.Area.Protection.{is_protected, IsGuarded}
use scalable_cross_platform.Game.Area.Update.{update_area-IsGuarded}

abbrev middle : Vector2 decimal
middle = record { x = 5; y = 7 }

abbrev villager : Player decimal
villager = record {
  entity = record {
    position = middle;
    destination = middle;
    origin = middle;
    direction = middle;
    moving = false;
    travel_distance = 0;
    speed = 3;
  };
  map_id = 1;
  max_hp = 100;
  max_shield = 50;
  hp = 70;
  shield = 0;
  min_damage = 1;
  max_damage = 4;
  absortion = 800000;
  attack_radius = 10000000;
  attack_time = 1000000;
  config = 2;
  faction = 2;
  extension = none;
}

abbrev guest : Session decimal
guest = record {
  player = villager;
  auras = [];
  account = 12;
  is_npc = false;
  disconnection_time = 0;
}

abbrev village : Match decimal
village = record {
  sessions = (1, guest) ∷ [];
  attacks = [];
  jumps = [];
  collections = [];
  collectables = [];
  portals = [];
  transfers = [];
  map_id = 1;
  next_id = 3;
  calls = [];
  departures = [];
  signed_out = [];
  despawned = [];
}

abbrev green : Area decimal
green = record { position = middle; radius = 10000000; sessions_on_area = [] }

village-IsGuarded : IsGuarded decimal green village
unfolding lookup contains
village-IsGuarded = record {
  agrees = λ id s e. elim (Bool-cases (1 == id)) [
    | inl b ↦
        subst (λ (t : Session decimal). is_protected decimal t ≡ false)
          (some-injective guest s (sym (rw (b)) ∙ e)) refl
    | inr b ↦ absurd (none-ne-some s (sym (rw (b)) ∙ e))
  ];
}

abbrev sheltered : Session decimal
sheltered = protect decimal guest

update_area-IsGuarded_example :
    IsGuarded decimal (update_area decimal green village).0 (update_area decimal green village).1
    × (contains 1 (update_area decimal green village).0.sessions_on_area
        ≡ is_inside decimal green sheltered.player)
    × (is_protected decimal sheltered
        ≡ (is_inside decimal green sheltered.player && ltb sheltered.player.faction 3))
update_area-IsGuarded_example =
    update_area-IsGuarded decimal green village 1 sheltered village-IsGuarded (
      unfold update_area visit_all visit is_inside keep_present lookup contains insert modify
        less_equal equal nearly_equal distance magnitude minus in
      refl)
