-- ===== src/Game/Player.antt =====
-- GameServer/GameServer/Entity.h, PlayerExtension.h, Player.h and Collectable.h.
use scalable_cross_platform.Prelude.{
  ℕ, ◌+◌, ◌*◌, Bool, true, false, not, Option, none, some, List, [], ◌∷◌, ◌++◌, map, length,
  if◌then◌else◌,
}
use scalable_cross_platform.Prelude.Float.{Float}
use scalable_cross_platform.Memory.Stream.{u8, u32, u64, f32, Primitive}
use scalable_cross_platform.Protocol.Outgoing.{field}
use scalable_cross_platform.Game.Vector
use scalable_cross_platform.Game.Vector.{Vector2}

-- `char`s of a name, as the bytes that they are cast to.
pub record PlayerExtension : Type 0 where
  pub clan : List ℕ
  pub name : List ℕ
  pub rank : ℕ

unfoldable pub serialize_string : List ℕ → List Primitive
serialize_string str = field u64 (length str) ∷ map (field u8) str

unfoldable pub extension_size : PlayerExtension → ℕ
extension_size e = 8 * 2 + 1 + length e.clan + length e.name

unfoldable pub serialize_extension : PlayerExtension → List Primitive
serialize_extension e = field u8 e.rank ∷ (serialize_string e.name ++ serialize_string e.clan)

module _ (fl : Float) where
  open fl use {F, lit, mul, div, of_ℕ, bits}

  pub record Entity : Type 0 where
    pub position : Vector2 fl
    pub destination : Vector2 fl
    pub origin : Vector2 fl
    pub direction : Vector2 fl
    pub moving : Bool
    pub travel_distance : F
    pub speed : F

  unfoldable pub new_entity : Vector2 fl → F → Entity
  new_entity position speed = record {
    position = position;
    destination = position;
    origin = position;
    direction = record { x = lit 0 0; y = lit 0 0 };
    moving = false;
    travel_distance = lit 0 0;
    speed = speed;
  }

  -- `Entity::Update`.
  unfoldable pub update_entity : Entity → ℕ → Entity
  update_entity e time_difference =
      if not e.moving
      then e
      else (let delta_time = div (of_ℕ time_difference) (lit 1000 0) in
          let movement_distance = mul e.speed delta_time in
          let position =
            Vector.plus fl e.position (Vector.scale fl e.direction movement_distance) in
          if Vector.greater_equal fl (Vector.distance fl position e.origin) e.travel_distance
          then record e { position = e.destination; moving = false }
          else record e { position = position })

  -- `Entity::MoveTo`.
  unfoldable pub move_to : Entity → Vector2 fl → Entity
  move_to e destination =
      if Vector.less fl (Vector.distance fl e.position destination) (lit 5 1)
      then e
      else (let travel = Vector.distance fl e.position destination in
          record e {
            origin = e.position;
            destination = destination;
            travel_distance = travel;
            direction = Vector.shrink fl (Vector.minus fl destination e.position) travel;
            moving = true;
          })

  unfoldable pub serialize_entity : Entity → List Primitive
  serialize_entity e =
      field f32 (bits e.position.x)
      ∷ field f32 (bits e.position.y)
      ∷ field f32 (bits e.destination.x)
      ∷ field f32 (bits e.destination.y)
      ∷ []

  abbrev pub entity_size : ℕ
  entity_size = 4 * 4

  pub record Player : Type 0 where
    pub entity : Entity
    pub open entity use *
    pub map_id : ℕ
    pub max_hp : ℕ
    pub max_shield : ℕ
    pub hp : ℕ
    pub shield : ℕ
    pub min_damage : ℕ
    pub max_damage : ℕ
    pub absortion : F
    pub attack_radius : F
    pub attack_time : F
    pub config : ℕ
    pub faction : ℕ
    pub extension : Option PlayerExtension

  -- `GetSize`; the sum does not come near the end of `size_t`.
  unfoldable pub player_size : Player → ℕ
  player_size p =
      entity_size
      + 8
      + 1 * 2
      + 4 * 2
      + 4 * 4
      + elim p.extension [ none ↦ 0 | some e ↦ extension_size e ]

  -- `Serialize`: the fields in the order in which they are put.
  unfoldable pub serialize_player : Player → List Primitive
  serialize_player p =
      (field u8 (elim p.extension [ none ↦ 0 | some e ↦ 1 ])
        ∷ field u64 p.config
        ∷ field f32 (bits p.attack_time)
        ∷ [])
      ++ (serialize_entity p.entity
          ++ (field f32 (bits p.speed)
              ∷ (elim p.extension [
                | none ↦ []
                | some e ↦ serialize_extension e ++ (field u8 p.faction ∷ [])
              ]
                  ++ (field u32 p.hp
                      ∷ field u32 p.max_hp
                      ∷ field u32 p.shield
                      ∷ field u32 p.max_shield
                      ∷ []))))

  pub record Collectable : Type 0 where
    pub id : ℕ
    pub position : Vector2 fl
    pub time : F
    pub config : ℕ

  abbrev pub collectable_size : ℕ
  collectable_size = 8 * 2 + 4 * 2

  unfoldable pub serialize_collectable : Collectable → List Primitive
  serialize_collectable c =
      field u64 c.id
      ∷ field u64 c.config
      ∷ field f32 (bits c.position.x)
      ∷ field f32 (bits c.position.y)
      ∷ []
