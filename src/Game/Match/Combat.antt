-- ===== src/Game/Match/Combat.antt =====
-- The attacks of a match: `StartAttack`, `StopAttack` and `UpdateAttacks` of Match.h.
pub mod Steps
pub mod Served
pub mod Safety
pub mod Start
use scalable_cross_platform.Prelude.{
  ℕ, Bool, true, false, not, Option, none, some, List, [], ◌∷◌, ◌++◌, if◌then◌else◌,
}
use scalable_cross_platform.Prelude.Float.{Float}
use scalable_cross_platform.Prelude.Table.{lookup, contains, insert, erase, modify, keys}
use scalable_cross_platform.Game.Player.{Player}
use scalable_cross_platform.Game.Message.{
  ServerMessage, damage_done, damage_received, you_die, out_of_range, start_attack, stop_attack,
  cancel_attack, attack_response,
}
use scalable_cross_platform.Game.Attack.{
  Attack, AttackResult, cancelled, attacked_dead, attacking, AttackCall, send_damage_done,
  send_damage_received, send_you_die, send_status_update, send_out_of_range, Outcome, update_attack,
}
use scalable_cross_platform.Game.Aura.{is_pvp, damage_done_auras, damage_received_auras}
use scalable_cross_platform.Game.Match
use scalable_cross_platform.Game.Match.{
  Session, AttackEntry, Match, call, call_all, call_others, with_session, send_someone_dies,
}

-- What is drawn in the update of an attack: see Game.Attack.
pub record Draw : Type 0 where
  pub chance : ℕ
  pub damage : ℕ

module _ (fl : Float) where
  -- `Match::StartAttack`. What an artificial player does about it is in Game.Ai. The attacker is one of the sessions, or `at` throws.
  unfoldable pub start : ℕ → ℕ → Match fl → Option (Match fl)
  start attacker_id attacked_id m =
      if contains attacker_id m.attacks
      then some m
      else (if not (contains attacked_id m.sessions)
          then some m
          else (elim (lookup attacker_id m.sessions) [
            | none ↦ none
            | some attacker ↦ elim (lookup attacked_id m.sessions) [
              | none ↦ none
              | some attacked ↦
                  if not (is_pvp fl attacked.auras)
                  then some (call fl attacker_id (attack_response false) m)
                  else (let entry : AttackEntry fl = record {
                    attacked = attacked_id;
                    attack = record {
                      timer = attacker.player.attack_time;
                      time = attacker.player.attack_time;
                      radius = attacker.player.attack_radius;
                    };
                  } in
                      some (
                        call_others fl attacker_id (start_attack attacker_id attacked_id) (
                          call fl attacker_id (attack_response true)
                            (record m { attacks = insert attacker_id entry m.attacks }))))
            ]
          ]))

  -- `Match::StopAttack`.
  unfoldable pub stop : ℕ → Match fl → Match fl
  stop attacker_id m =
      call_all fl (stop_attack attacker_id) (record m { attacks = erase attacker_id m.attacks })

  -- `SendDamageDone` and `SendDamageReceived` also turn to the auras of the session.
  abbrev damage_done_session : Session fl → Session fl
  damage_done_session s = record s { auras = damage_done_auras fl s.auras }

  abbrev damage_received_session : Session fl → Session fl
  damage_received_session s = record s { auras = damage_received_auras fl s.auras }

  -- `NPC::SendYouDie` also tells the spawner.
  abbrev note_despawn : ℕ → Match fl → Match fl
  note_despawn id m = record m {
    despawned = elim (lookup id m.sessions) [
      | none ↦ m.despawned
      | some s ↦ if s.is_npc then m.despawned ++ (id ∷ []) else m.despawned
    ];
  }

  -- One of the calls that `Attack::Update` makes.
  unfoldable pub perform : ℕ → ℕ → AttackCall → Match fl → Option (Match fl)
  perform attacker attacked (send_damage_done damage) m = some (
      with_session fl attacker damage_done_session
        (call fl attacker (damage_done attacked damage) m))
  perform attacker attacked (send_damage_received damage) m = some (
      with_session fl attacked damage_received_session
        (call fl attacked (damage_received damage) m))
  perform attacker attacked send_you_die m =
      some (note_despawn attacked (call fl attacked you_die (send_someone_dies fl attacked m)))
  perform attacker attacked send_status_update m = Match.send_status_update fl attacked m
  perform attacker attacked send_out_of_range m = some (call fl attacker out_of_range m)

  unfoldable pub perform_all : ℕ → ℕ → List AttackCall → Match fl → Option (Match fl)
  perform_all attacker attacked [] m = some m
  perform_all attacker attacked (c ∷ cs) m = elim (perform attacker attacked c m) [
    | none ↦ none
    | some n ↦ perform_all attacker attacked cs n
  ]

  -- The attack and the attacked player behind an update.
  abbrev changed : ℕ → ℕ → Outcome fl → Match fl → Match fl
  changed attacker attacked o m = record m {
    attacks = modify attacker (λ (e : AttackEntry fl). record e { attack = o.attack }) m.attacks;
    sessions = modify attacked (λ (s : Session fl). record s { player = o.attacked }) m.sessions;
  }

  -- The cases of `UpdateAttacks` on the result. The attack is erased through the iterator, whose entry
  -- has to be there still when the attack of the dead player was erased by its key: else this is
  -- undefined behaviour.
  unfoldable pub conclude : ℕ → ℕ → AttackResult → Match fl → Option (Match fl)
  conclude attacker attacked attacking m = some m
  conclude attacker attacked cancelled m =
      if contains attacker m.sessions
      then some (
          call_others fl attacker (stop_attack attacker)
            (call fl attacker cancel_attack (record m { attacks = erase attacker m.attacks })))
      else none
  conclude attacker attacked attacked_dead m =
      if not (contains attacked m.sessions)
      then none
      else (if not (contains attacker (erase attacked m.attacks))
          then none
          else some (record m {
            attacks = erase attacker (erase attacked m.attacks);
            sessions = erase attacked m.sessions;
          }))

  -- One round of the loop of `UpdateAttacks`, for the entry of `attacker`.
  unfoldable pub update_entry : ℕ → (ℕ → Draw) → ℕ → Match fl → Option (Match fl)
  update_entry time_difference draws id m = elim (lookup id m.attacks) [
    | none ↦ some m
    | some e ↦
        if not (contains id m.sessions)
        then some (record m { attacks = erase id m.attacks })
        else (if not (contains e.attacked m.sessions)
            then some (record m { attacks = erase id m.attacks })
            else (elim (lookup id m.sessions) [
              | none ↦ none
              | some attacker ↦ elim (lookup e.attacked m.sessions) [
                | none ↦ none
                | some attacked ↦
                    let o =
                      update_attack fl (draws id).chance (draws id).damage
                        (is_pvp fl attacked.auras) e.attack attacker.player attacked.player
                        time_difference in
                    elim (perform_all id e.attacked o.calls (changed id e.attacked o m)) [
                      | none ↦ none
                      | some n ↦ conclude id e.attacked o.result n
                    ]
              ]
            ]))
  ]

  -- `UpdateAttacks`. No attack is started while the loop runs, so the entries that it meets are those
  -- that were there and have not been erased.
  unfoldable pub update_entries : ℕ → (ℕ → Draw) → List ℕ → Match fl → Option (Match fl)
  update_entries time_difference draws [] m = some m
  update_entries time_difference draws (id ∷ ids) m =
      elim (update_entry time_difference draws id m) [
        | none ↦ none
        | some n ↦ update_entries time_difference draws ids n
      ]

  unfoldable pub update_attacks : ℕ → (ℕ → Draw) → Match fl → Option (Match fl)
  update_attacks time_difference draws m = update_entries time_difference draws (keys m.attacks) m
