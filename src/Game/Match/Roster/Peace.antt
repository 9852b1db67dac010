-- ===== src/Game/Match/Roster/Peace.antt =====
-- The handlers of the messages and the auras keep the peace of a match, if nobody asks for an attack
-- on himself.
use scalable_cross_platform.Prelude.{
  ℕ, ◌<◌, ◌≡◌, ◌≢◌, refl, sym, ap, ◌∙◌, inl, inr, Bool, true, false, not, Option, some, List, [],
  ◌∷◌, ◌==◌, if◌then◌else◌, Bool-cases, Option-cases, All, leb,
}
use mathlib.Core.Path.{subst}
use scalable_cross_platform.Prelude.Float.{Float}
use scalable_cross_platform.Prelude.Table.{lookup, contains, modify}
use scalable_cross_platform.Prelude.Table.Laws.{
  lookup_of_contains, contains-modify, lookup-Entries, modify-Entries,
}
use scalable_cross_platform.Game.Vector
use scalable_cross_platform.Game.Player.{Player}
use scalable_cross_platform.Game.Message.{status_update}
use scalable_cross_platform.Game.Aura.{
  Auras, InternalAura, shield_regenerator, attacker, demilitarized_protection, regenerate,
  regenerated, update_aura, update_auras,
}
use scalable_cross_platform.Game.Match.{
  Session, Match, with_session, call_all, send_movement, send_status_update,
}
use scalable_cross_platform.Game.Match.Combat.{stop}
use scalable_cross_platform.Game.Match.Combat.Safety.{IsPeaceful}
use scalable_cross_platform.Game.Match.Combat.Start.{start-IsPeaceful}
use scalable_cross_platform.Prelude.Table.Laws.{erase-Entries}
use scalable_cross_platform.Game.Match.Travel.{active_jump, near_portal}
use scalable_cross_platform.Game.Match.Gather.{collect}
use scalable_cross_platform.Game.Match.Roster.{
  Command, move, attack, stop_attack, jump, start_disconnection, cancel_disconnection, collect_it,
  request_time, handle, handle_all, any_sent, update_session_auras, set_time, move_player,
}

module _ (fl : Float) where
  -- Auras leave the health points alone.
  module _ (d : fl.F) where
    regenerate-hp : (c r : fl.F) (p : Player fl) → (regenerate fl c r d p).1.hp ≡ p.hp
    unfolding regenerate
    regenerate-hp c r p =
        go (Vector.less_equal fl c (fl.lit 0 0)) (leb p.max_shield p.shield)
          (Vector.less_equal fl r (fl.lit 0 0))
      where
        go :
            (rested full due : Bool)
            → (let out : InternalAura fl × Player fl × Bool =
                  if not rested
                  then (shield_regenerator (fl.sub c d) r, p, false)
                  else (if full
                      then (shield_regenerator c r, p, false)
                      else (if not due then (shield_regenerator c (fl.sub r d), p, false) else (
                        shield_regenerator c (fl.lit 1 0),
                        record p { shield = regenerated fl p },
                        true,
                      ))) in
                out.1.hp ≡ p.hp)
        go false full due = refl
        go true true due = refl
        go true false false = refl
        go true false true = refl

    update_aura-hp : (a : InternalAura fl) (p : Player fl) → (update_aura fl d a p).1.hp ≡ p.hp
    unfolding update_aura
    update_aura-hp (shield_regenerator c r) p = regenerate-hp c r p
    update_aura-hp (attacker t) p = refl
    update_aura-hp demilitarized_protection p = refl

    update_auras-hp : (as_ : Auras fl) (p : Player fl) → (update_auras fl d as_ p).1.hp ≡ p.hp
    unfolding update_auras
    update_auras-hp [] p = refl
    update_auras-hp ((id, a) ∷ as_) p =
        update_auras-hp as_ (update_aura fl d a p).1 ∙ update_aura-hp a p

  -- What a session may do while it is updated: it stays, and the match stays peaceful.
  abbrev pub Stays : ℕ → Option (Match fl) → Type 0
  Stays id o = (n : Match fl) × (o ≡ some n) × (contains id n.sessions ≡ true) × IsPeaceful fl n

  -- A change of one session's player that leaves him alive.
  with_session-IsPeaceful :
      (id : ℕ) (f : Session fl → Session fl) (m : Match fl)
      → ((s : Session fl) → 0 < s.player.hp → 0 < (f s).player.hp)
      → IsPeaceful fl m
      → IsPeaceful fl (with_session fl id f m)
  with_session-IsPeaceful id f m h p = record {
    no_self = p.no_self;
    alive = modify-Entries (λ i s. 0 < s.player.hp) id f m.sessions h p.alive;
  }

  module _ (id : ℕ) (m : Match fl) (c : contains id m.sessions ≡ true) (p : IsPeaceful fl m) where
    changed-contains : (f : Session fl → Session fl) → contains id (modify id f m.sessions) ≡ true
    changed-contains f = contains-modify id id f m.sessions ∙ c

    active_jump-Stays : (s : Session fl) → Stays id (some (active_jump fl id s m))
    unfolding active_jump
    active_jump-Stays s = elim (Bool-cases (contains id m.jumps)) [
      | inl a ↦ (m, rw (a) refl, c, p)
      | inr a ↦ elim (Option-cases (near_portal fl s.player.position m.portals)) [
        | inl e ↦ (
          _,
          refl,
          rw (a) (rw (e, active_jump) c),
          rw (a) (rw (e, active_jump) (record { no_self = p.no_self; alive = p.alive })),
        )
        | inr (q, e) ↦ (
          _,
          refl,
          rw (a) (rw (e, active_jump) c),
          rw (a) (rw (e, active_jump) (record { no_self = p.no_self; alive = p.alive })),
        )
      ]
    ]

    collect-Stays : (s : Session fl) (k : ℕ) → Stays id (some (collect fl id s k m))
    unfolding collect
    collect-Stays s k = elim (Bool-cases (contains id m.collections)) [
      | inl a ↦ (m, rw (a) refl, c, p)
      | inr a ↦ elim (Option-cases (lookup k m.collectables)) [
        | inl e ↦ (m, rw (a) (rw (e, collect) refl), c, p)
        | inr (q, e) ↦ (
          _,
          refl,
          rw (a) (rw (e, collect) c),
          rw (a) (rw (e, collect) (record { no_self = p.no_self; alive = p.alive })),
        )
      ]
    ]

    -- A handler of a session that is there, asked for anything but an attack on oneself.
    handle-Stays :
        (now : ℕ) (s : Session fl) (x : Command fl)
        → x ≢ attack id
        → Stays id (handle fl now id s x m)
    unfolding handle send_movement stop
    handle-Stays now s (move v) h = (
      _,
      refl,
      changed-contains (move_player fl v),
      record {
        no_self = p.no_self;
        alive =
            modify-Entries (λ i t. 0 < t.player.hp) id (move_player fl v) m.sessions (λ t a. a)
              p.alive;
      },
    )
    handle-Stays now s (attack other) h =
        let (n, e, f, q) = start-IsPeaceful fl id other m (λ i. h (ap attack (sym i))) c p in
        (n, e, ap (contains id) f ∙ c, q)
    handle-Stays now s stop_attack h = (
      _,
      refl,
      c,
      record {
        no_self = erase-Entries (λ i e. e.attacked ≢ i) id m.attacks p.no_self;
        alive = p.alive;
      },
    )
    handle-Stays now s jump h = active_jump-Stays s
    handle-Stays now s (collect_it k) h = collect-Stays s k
    handle-Stays now s start_disconnection h = elim (Bool-cases (s.disconnection_time == 0)) [
      | inr e ↦ (m, rw (e) refl, c, p)
      | inl e ↦ (
        _,
        refl,
        rw (e) (changed-contains (set_time fl now)),
        rw (e) (record {
          no_self = p.no_self;
          alive =
              modify-Entries (λ i t. 0 < t.player.hp) id (set_time fl now) m.sessions (λ t a. a)
                p.alive;
        }),
      )
    ]
    handle-Stays now s cancel_disconnection h = elim (Bool-cases (s.disconnection_time == 0)) [
      | inl e ↦ (m, rw (e) refl, c, p)
      | inr e ↦ (
        _,
        refl,
        rw (e) (changed-contains (set_time fl 0)),
        rw (e) (record {
          no_self = p.no_self;
          alive =
              modify-Entries (λ i t. 0 < t.player.hp) id (set_time fl 0) m.sessions (λ t a. a)
                p.alive;
        }),
      )
    ]
    handle-Stays now s (request_time counter time) h =
        (_, refl, c, record { no_self = p.no_self; alive = p.alive })

    abbrev aged : ℕ → Session fl → Session fl → Session fl
    aged time_difference s t =
        let (as_, q) =
          update_auras fl (fl.div (fl.of_ℕ time_difference) (fl.lit 1000 0)) s.auras s.player in
        record t { player = q; auras = as_ }

    aged-IsPeaceful :
        (time_difference : ℕ) (s : Session fl)
        → lookup id m.sessions ≡ some s
        → IsPeaceful fl (with_session fl id (aged time_difference s) m)
    aged-IsPeaceful time_difference s e =
        with_session-IsPeaceful id (aged time_difference s) m
          (λ t a.
            subst (λ h. 0 < h)
              (sym (
                update_auras-hp (fl.div (fl.of_ℕ time_difference) (fl.lit 1000 0)) s.auras
                  s.player))
              (lookup-Entries (λ i x. 0 < x.player.hp) id s m.sessions e p.alive))
          p

    pub update_session_auras-Stays :
        (time_difference : ℕ) → Stays id (update_session_auras fl time_difference id m)
    unfolding update_session_auras send_status_update
    update_session_auras-Stays time_difference =
        let (s, e) = lookup_of_contains id m.sessions c in
        let n = with_session fl id (aged time_difference s) m in
        let q = aged-IsPeaceful time_difference s e in
        let d = changed-contains (aged time_difference s) in
        elim (Bool-cases
          (any_sent fl (fl.div (fl.of_ℕ time_difference) (fl.lit 1000 0)) s.auras s.player)) [
            | inr b ↦ (n, rw (e, update_session_auras) (rw (b) refl), d, q)
            | inl b ↦
                let (t, f) = lookup_of_contains id n.sessions d in
                (
                  call_all fl
                      (status_update id t.player.hp t.player.max_hp t.player.shield
                        t.player.max_shield)
                      n,
                  rw (e, update_session_auras) (rw (b) (rw (f, send_status_update) refl)),
                  d,
                  record { no_self = q.no_self; alive = q.alive },
                )
          ]

  -- What a session asks for in a round.
  pub handle_all-Stays :
      (now id : ℕ) (cs : List (Command fl)) (m : Match fl)
      → contains id m.sessions ≡ true
      → IsPeaceful fl m
      → All (λ x. x ≢ attack id) cs
      → Stays id (handle_all fl now id cs m)
  unfolding handle_all
  handle_all-Stays now id [] m c p h = (m, refl, c, p)
  handle_all-Stays now id (x ∷ cs) m c p h =
      let (s, e) = lookup_of_contains id m.sessions c in
      let (n, f, d, q) = handle-Stays id m c p now s x h.0 in
      let (o, g, b, r) = handle_all-Stays now id cs n d q h.1 in
      (o, rw (e, handle_all) (rw (f, handle_all) g), b, r)
