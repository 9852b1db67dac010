-- ===== src/Game/Match/Combat/Steps.antt =====
-- What the calls of an attack leave as it is.
use scalable_cross_platform.Prelude.{ℕ, ◌≡◌, refl, sym, ◌∙◌, true, Option, some, List, [], ◌∷◌}
use mathlib.Core.Path.{subst}
use scalable_cross_platform.Prelude.Float.{Float}
use scalable_cross_platform.Prelude.Table.{contains}
use scalable_cross_platform.Prelude.Table.Laws.{
  lookup_of_contains, contains-modify, Entries, modify-Entries,
}
use scalable_cross_platform.Game.Player.{Player}
use scalable_cross_platform.Game.Message.{
  ServerMessage, damage_done, damage_received, status_update,
}
use scalable_cross_platform.Game.Attack.{
  AttackCall, send_damage_done, send_damage_received, send_you_die, send_status_update,
  send_out_of_range,
}
use scalable_cross_platform.Game.Match
use scalable_cross_platform.Game.Match.{
  Session, AttackEntry, Match, call, call_all, with_session, send_someone_dies,
}
use scalable_cross_platform.Game.Match.Combat.{
  perform, perform_all, damage_done_session, damage_received_session,
}

module _ (fl : Float) where
  -- The same attacks, the same sessions, with the same players.
  pub record IsKept (m n : Match fl) : Type 1 where
    pub attacks : n.attacks ≡ m.attacks
    pub present : (i : ℕ) → contains i n.sessions ≡ contains i m.sessions
    pub players :
        (P : ℕ → Player fl → Type 0)
        → Entries (λ i s. P i s.player) m.sessions
        → Entries (λ i s. P i s.player) n.sessions

  IsKept-refl : (m : Match fl) → IsKept m m
  IsKept-refl m = record { attacks = refl; present = λ i. refl; players = λ P a. a }

  IsKept-trans : {m n o : Match fl} → IsKept m n → IsKept n o → IsKept m o
  IsKept-trans a b = record {
    attacks = b.attacks ∙ a.attacks;
    present = λ i. b.present i ∙ a.present i;
    players = λ P h. b.players P (a.players P h);
  }

  with_session-IsKept :
      (i : ℕ) (f : Session fl → Session fl) (m : Match fl)
      → ((s : Session fl) → (f s).player ≡ s.player)
      → IsKept m (with_session fl i f m)
  with_session-IsKept i f m h = record {
    attacks = refl;
    present = λ j. contains-modify j i f m.sessions;
    players = λ P a.
        modify-Entries (λ j s. P j s.player) i f m.sessions (λ s p. subst (P i) (sym (h s)) p) a;
  }

  call-IsKept : (i : ℕ) (c : ServerMessage fl) (m : Match fl) → IsKept m (call fl i c m)
  call-IsKept i c m = record { attacks = refl; present = λ j. refl; players = λ P a. a }

  -- A call of an attack whose attacked session is there goes through.
  abbrev pub Performed : Match fl → Option (Match fl) → Type 1
  Performed m o = (n : Match fl) × (o ≡ some n) × IsKept m n

  perform-Performed :
      (attacker attacked : ℕ) (c : AttackCall) (m : Match fl)
      → contains attacked m.sessions ≡ true
      → Performed m (perform fl attacker attacked c m)
  unfolding perform Match.send_status_update send_someone_dies
  perform-Performed i j (send_damage_done damage) m h = (
    _,
    refl,
    IsKept-trans (call-IsKept i (damage_done j damage) m) (
        with_session-IsKept i (damage_done_session fl) (call fl i (damage_done j damage) m)
          (λ s. refl)),
  )
  perform-Performed i j (send_damage_received damage) m h = (
    _,
    refl,
    IsKept-trans (call-IsKept j (damage_received damage) m) (
        with_session-IsKept j (damage_received_session fl) (call fl j (damage_received damage) m)
          (λ s. refl)),
  )
  perform-Performed i j send_you_die m h =
      (_, refl, record { attacks = refl; present = λ k. refl; players = λ P a. a })
  perform-Performed i j send_out_of_range m h =
      (_, refl, record { attacks = refl; present = λ k. refl; players = λ P a. a })
  perform-Performed i j send_status_update m h =
      let (s, e) = lookup_of_contains j m.sessions h in
      (
        call_all fl
            (status_update j s.player.hp s.player.max_hp s.player.shield s.player.max_shield) m,
        rw (e, Match.send_status_update) refl,
        record { attacks = refl; present = λ k. refl; players = λ P a. a },
      )

  pub perform_all-Performed :
      (attacker attacked : ℕ) (cs : List AttackCall) (m : Match fl)
      → contains attacked m.sessions ≡ true
      → Performed m (perform_all fl attacker attacked cs m)
  unfolding perform_all
  perform_all-Performed i j [] m h = (m, refl, IsKept-refl m)
  perform_all-Performed i j (c ∷ cs) m h =
      let (n, e, k) = perform-Performed i j c m h in
      let (o, f, l) = perform_all-Performed i j cs n (k.present j ∙ h) in
      (o, rw (e, perform_all) f, IsKept-trans k l)
