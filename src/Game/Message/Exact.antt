-- ===== src/Game/Message/Exact.antt =====
-- What leaves the server when a message is sent.
use scalable_cross_platform.Prelude.{
  ℕ, ◌+◌, ◌^◌, ◌≤◌, ◌≡◌, refl, none, [], ◌∷◌, ◌++◌, arith, All, lt→ltb,
}
use scalable_cross_platform.Prelude.Float.{Float}
use native.Mathlib.Decide.{dec_le}
use scalable_cross_platform.Memory.Bytes.{to_bytes}
use scalable_cross_platform.Memory.Exception.{
  Exception, out_of_bounds, too_long_message_body, ok, thrown,
}
use scalable_cross_platform.Memory.Stream.{size_of}
use scalable_cross_platform.Memory.StreamLaws.{encode, width}
use scalable_cross_platform.Protocol.Outgoing.{
  compose, outgoing_message, max_body_size, compose_exact, compose_slack, compose_refused,
}
use scalable_cross_platform.Game.Player.{Player, player_size}
use scalable_cross_platform.Game.Message.{
  ServerMessage, WorldState, new_player, world_state, outgoing, fields, body_size, world_state_size,
}
use scalable_cross_platform.Game.Message.Sizes.{
  Fits, HasExtension, world_total, body_size-le, width-fields, width-npc, width-world_state,
  world_state_size-mod,
}

module _ (fl : Float) (junk : ℕ → ℕ) where
  -- A message whose players all carry an extension and whose body is at most 65533 bytes is sent
  -- without an exception, and its bytes are the body's size in two bytes and then exactly its
  -- fields, whatever the memory of the buffer held before.
  pub outgoing_exact :
      (m : ServerMessage fl)
      → Fits fl m
      → outgoing fl junk m
        ≡ ok (record {
          bytes = to_bytes 2 (body_size fl m) ++ encode (fields fl m);
          position = 2 + body_size fl m;
        })
  unfolding outgoing
  outgoing_exact m h =
      compose_exact junk (body_size fl m) (fields fl m) (body_size-le fl m h) (width-fields fl m h)

  -- The announcement of a player without an extension, which is an NPC, if its declared size is at
  -- most 65533, is its size and its fields and then one byte more, which is what the memory of the
  -- buffer held: the declared size counts the faction, which is put only with an extension.
  pub outgoing_npc :
      (id : ℕ) (p : Player fl)
      → p.extension ≡ none
      → 2 + 8 + player_size fl p ≤ max_body_size
      → outgoing fl junk (new_player id p)
        ≡ ok (record {
          bytes =
              (to_bytes 2 (2 + 8 + player_size fl p) ++ encode (fields fl (new_player id p)))
              ++ (junk (1 + (2 + 8 + player_size fl p)) ∷ []);
          position = 1 + (2 + 8 + player_size fl p);
        })
  unfolding outgoing
  outgoing_npc id p h k =
      rw (declared)
        (compose_slack junk (2 + 8 + player_size fl p) (fields fl (new_player id p)) k one_short)
    where
      declared : body_size fl (new_player id p) ≡ 2 + 8 + player_size fl p
      declared = unfold body_size in omega arith

      one_short : width (fields fl (new_player id p)) + 1 ≡ 2 + 8 + player_size fl p
      one_short = unfold fields size_of in omega (arith, width-npc fl p h)

  -- A world state of 65536 bytes or more, whose players all carry an extension, is never sent: its
  -- size is cut to 16 bits, and making the message throws.
  pub world_state_overflow :
      (w : WorldState fl)
      → HasExtension fl w.player
      → All (λ s. HasExtension fl s.1) w.sessions
      → 2 ^ 16 ≤ world_total fl w
      → (e : Exception) × (outgoing fl junk (world_state w) ≡ thrown e)
  unfolding outgoing body_size fields
  world_state_overflow w h hs big = elim (dec_le (world_state_size fl w) max_body_size) [
    | yes small ↦
        let (e, q) =
          compose_refused junk (world_state_size fl w) (fields fl (world_state w)) small
            (omega (arith, width-world_state fl w h hs, world_state_size-mod fl w)) in
        (out_of_bounds e, q)
    | no long ↦ (
      too_long_message_body (world_state_size fl w),
      unfold compose outgoing_message in
          rw (lt→ltb max_body_size (world_state_size fl w) (omega arith)) refl,
    )
  ]
