-- ===== src/Game/Message/Sizes.antt =====
-- The size that a message declares is the size of what it puts.
use scalable_cross_platform.Prelude.{
  ℕ, ◌+◌, ◌*◌, ◌%◌, ◌^◌, ◌≤◌, ◌<◌, ◌≡◌, refl, Option, none, some, List, [], ◌∷◌, ◌++◌, map, arith,
  length, All,
}
use scalable_cross_platform.Prelude.Float.{Float}
use scalable_cross_platform.Memory.Stream.{u8, u32, u64, f32, Primitive, size_of}
use scalable_cross_platform.Memory.StreamLaws.{width, width-append}
use scalable_cross_platform.Protocol.Outgoing.{field, max_body_size}
use scalable_cross_platform.Game.Vector.{Vector2}
use scalable_cross_platform.Game.Player.{
  PlayerExtension, extension_size, serialize_extension, serialize_string, Entity, serialize_entity,
  Player, player_size, serialize_player, Collectable, collectable_size, serialize_collectable,
}
use scalable_cross_platform.Game.Message.{
  grow, WorldState, world_state_size, put_sessions, put_attacks, put_portals, put_collectables,
  serialize_world_state, ServerMessage, new_player, world_state, collectable_spawn, body_size,
  fields,
}

width-chars : (cs : List ℕ) → width (map (field u8) cs) ≡ length cs
unfolding size_of
width-chars [] = refl
width-chars (c ∷ cs) = omega (arith, width-chars cs)

width-string : (str : List ℕ) → width (serialize_string str) ≡ 8 + length str
unfolding serialize_string size_of
width-string str = omega (arith, width-chars str)

width-extension : (e : PlayerExtension) → width (serialize_extension e) ≡ extension_size e
unfolding serialize_extension extension_size size_of
width-extension e = omega (
  arith,
  width-append (serialize_string e.name) (serialize_string e.clan),
  width-string e.name,
  width-string e.clan,
)

abbrev pub sum : List ℕ → ℕ
sum [] = 0
sum (n ∷ ns) = n + sum ns

-- The running sum in 16 bits is the sum, modulo 2¹⁶.
grow-mod : (s : ℕ) (ns : List ℕ) → s < 2 ^ 16 → grow s ns ≡ (s + sum ns) % 2 ^ 16
unfolding grow
grow-mod s [] h = omega arith
grow-mod s (n ∷ ns) h = omega (arith, grow-mod ((s + n % 2 ^ 16) % 2 ^ 16) ns (omega arith))

grow-lt : (s : ℕ) (ns : List ℕ) → s < 2 ^ 16 → grow s ns < 2 ^ 16
grow-lt s ns h = omega (arith, grow-mod s ns h)

module _ (fl : Float) where
  -- A player who signed in carries an extension; an NPC does not.
  abbrev pub HasExtension : Player fl → Type 0
  HasExtension p = (e : PlayerExtension) × (p.extension ≡ some e)

  width-entity : (e : Entity fl) → width (serialize_entity fl e) ≡ 16
  unfolding serialize_entity size_of
  width-entity e = omega arith

  abbrev stats : Player fl → List Primitive
  stats p = field u32 p.hp ∷ field u32 p.max_hp ∷ field u32 p.shield ∷ field u32 p.max_shield ∷ []

  width-player_at :
      (p : Player fl) (o : Option PlayerExtension)
      → p.extension ≡ o
      → width (serialize_player fl p) + elim o [ none ↦ 1 | some e ↦ 0 ] ≡ player_size fl p
  unfolding serialize_player player_size size_of
  width-player_at p none q =
      rw (q, player_size)
        (omega (
          arith,
          width-append (serialize_entity fl p.entity) (field f32 (fl.bits p.speed) ∷ stats p),
          width-entity p.entity,
        ))
  width-player_at p (some e) q =
      rw (q, player_size)
        (omega (
          arith,
          width-append (serialize_entity fl p.entity) (
              field f32 (fl.bits p.speed)
              ∷ ((serialize_extension e ++ (field u8 p.faction ∷ [])) ++ stats p)),
          width-append (serialize_extension e ++ (field u8 p.faction ∷ [])) (stats p),
          width-append (serialize_extension e) (field u8 p.faction ∷ []),
          width-extension e,
          width-entity p.entity,
        ))

  -- A player with an extension takes up its declared size; an NPC takes up one byte less.
  pub width-player :
      (p : Player fl) → HasExtension p → width (serialize_player fl p) ≡ player_size fl p
  width-player p (e, q) = omega (arith, width-player_at p (some e) q)

  pub width-npc :
      (p : Player fl) → p.extension ≡ none → width (serialize_player fl p) + 1 ≡ player_size fl p
  width-npc p q = width-player_at p none q

  abbrev session_sizes : List (ℕ × Player fl) → List ℕ
  session_sizes = map (λ s. 8 + player_size fl s.1)

  width-sessions :
      (ss : List (ℕ × Player fl))
      → All (λ s. HasExtension s.1) ss
      → width (put_sessions fl ss) ≡ sum (session_sizes ss)
  unfolding put_sessions size_of
  width-sessions [] h = refl
  width-sessions ((id, p) ∷ ss) h = omega (
    arith,
    width-append (serialize_player fl p) (put_sessions fl ss),
    width-player p h.0,
    width-sessions ss h.1,
  )

  width-attacks : (rows : List (ℕ × ℕ)) → width (put_attacks fl rows) ≡ sum (map (λ a. 8 * 2) rows)
  unfolding put_attacks size_of
  width-attacks [] = refl
  width-attacks ((attacker, attacked) ∷ rows) = omega (arith, width-attacks rows)

  width-portals :
      (ps : List (Vector2 fl)) → width (put_portals fl ps) ≡ sum (map (λ p. 4 * 2 + 8) ps)
  unfolding put_portals size_of
  width-portals [] = refl
  width-portals (p ∷ ps) = omega (arith, width-portals ps)

  width-collectables :
      (cs : List (Collectable fl))
      → width (put_collectables fl cs) ≡ sum (map (λ c. collectable_size fl) cs)
  unfolding put_collectables serialize_collectable size_of
  width-collectables [] = refl
  width-collectables (c ∷ cs) = omega (arith, width-collectables cs)

  -- The size of a world state before it is cut to 16 bits.
  abbrev pub world_total : WorldState fl → ℕ
  world_total w =
      2
      + player_size fl w.player
      + 8 * 6
      + 4 * 2
      + sum (session_sizes w.sessions)
      + sum (map (λ a. 8 * 2) w.attacks)
      + sum (map (λ p. 4 * 2 + 8) w.portals)
      + sum (map (λ c. collectable_size fl) w.collectables)

  pub world_state_size-mod : (w : WorldState fl) → world_state_size fl w ≡ world_total w % 2 ^ 16
  unfolding world_state_size
  world_state_size-mod w = omega (
    arith,
    grow-mod start ss bound,
    grow-mod (grow start ss) rows (grow-lt start ss bound),
    grow-mod (grow (grow start ss) rows) ps (grow-lt (grow start ss) rows (grow-lt start ss bound)),
    grow-mod (grow (grow (grow start ss) rows) ps) cs (
        grow-lt (grow (grow start ss) rows) ps
          (grow-lt (grow start ss) rows (grow-lt start ss bound))),
  )
    where
      start : ℕ
      start = (2 + player_size fl w.player + 8 * 6 + 4 * 2) % 2 ^ 16

      bound : start < 2 ^ 16
      bound = omega arith

      ss : List ℕ
      ss = session_sizes w.sessions

      rows : List ℕ
      rows = map (λ a. 8 * 2) w.attacks

      ps : List ℕ
      ps = map (λ p. 4 * 2 + 8) w.portals

      cs : List ℕ
      cs = map (λ c. collectable_size fl) w.collectables

  pub width-world_state :
      (w : WorldState fl)
      → HasExtension w.player
      → All (λ s. HasExtension s.1) w.sessions
      → width (serialize_world_state fl w) ≡ world_total w
  unfolding serialize_world_state size_of
  width-world_state w h hs = omega (
    arith,
    width-append (serialize_player fl w.player) (
        field u64 w.map_id
        ∷ field f32 (fl.bits (fl.lit 210 0))
        ∷ field f32 (fl.bits (fl.lit 135 0))
        ∷ field u64 (length w.sessions)
        ∷ after_stats),
    width-append (put_sessions fl w.sessions) (field u64 (length w.attacks) ∷ after_sessions),
    width-append (put_attacks fl w.attacks) (field u64 (length w.portals) ∷ after_attacks),
    width-append (put_portals fl w.portals)
        (field u64 (length w.collectables) ∷ put_collectables fl w.collectables),
    width-player w.player h,
    width-sessions w.sessions hs,
    width-attacks w.attacks,
    width-portals w.portals,
    width-collectables w.collectables,
  )
    where
      after_attacks : List Primitive
      after_attacks =
          put_portals fl w.portals
          ++ (field u64 (length w.collectables) ∷ put_collectables fl w.collectables)

      after_sessions : List Primitive
      after_sessions = put_attacks fl w.attacks ++ (field u64 (length w.portals) ∷ after_attacks)

      after_stats : List Primitive
      after_stats = put_sessions fl w.sessions ++ (field u64 (length w.attacks) ∷ after_sessions)

  -- The messages that name players want those to have an extension, and a size that fits.
  abbrev pub Fits : ServerMessage fl → Type 0
  Fits (new_player id p) = HasExtension p × (2 + 8 + player_size fl p ≤ max_body_size)
  Fits (world_state w) =
      HasExtension w.player
      × All (λ s. HasExtension s.1) w.sessions
      × (world_total w ≤ max_body_size)
  Fits m = Unit {0}

  pub body_size-le : (m : ServerMessage fl) → Fits m → body_size fl m ≤ max_body_size
  unfolding body_size
  body_size-le (new_player id p) h = omega arith
  body_size-le (world_state w) h = omega (arith, world_state_size-mod w)
  body_size-le m h = omega arith

  pub width-fields : (m : ServerMessage fl) → Fits m → width (fields fl m) ≡ body_size fl m
  unfolding fields body_size size_of
  width-fields (new_player id p) h = omega (arith, width-player p h.0)
  width-fields (world_state w) h =
      omega (arith, width-world_state w h.0 h.1, world_state_size-mod w)
  width-fields (collectable_spawn c) h = unfold serialize_collectable in omega arith
  width-fields m h = omega arith
