-- ===== src/Game/Match/Roster.antt =====
-- The sessions of a match: `AddSession`, `UpdateNPCSpawner`, `UpdatePlayers` and `UpdateSessions` of
-- Match.h, the handlers of MatchSession.cpp, and `Match::Update`.
pub mod Peace
pub mod Update
use scalable_cross_platform.Prelude.{
  ℕ, ◌+◌, Bool, true, false, not, ◌&&◌, ◌||◌, Option, none, some, List, [], ◌∷◌, ◌++◌, ◌==◌,
  if◌then◌else◌, ltb, leb,
}
use scalable_cross_platform.Prelude.Float.{Float}
use scalable_cross_platform.Prelude.Table.{lookup, contains, insert, erase, modify, keys}
use scalable_cross_platform.Game.Vector.{Vector2}
use scalable_cross_platform.Game.Player.{Player, Collectable, update_entity, move_to}
use scalable_cross_platform.Game.Message.{
  ServerMessage, disconnection_started, disconnection_cancelled, time_response,
}
use scalable_cross_platform.Game.Aura.{Auras, new_auras, update_aura, update_auras}
use scalable_cross_platform.Game.Area.{Area, update_areas}
use scalable_cross_platform.Game.Match
use scalable_cross_platform.Game.Match.{
  Session, Match, call, call_all, with_session, send_movement, send_disconnection, send_new_player,
  calculate_next_id,
}
use scalable_cross_platform.Game.Match.Combat
use scalable_cross_platform.Game.Match.Combat.{Draw, update_attacks}
use scalable_cross_platform.Game.Match.Travel.{active_jump, update_jumps, enter, update_transfers}
use scalable_cross_platform.Game.Match.Gather.{collect, update_collections, spawn_collectables}

module _ (fl : Float) where
  open fl use {F, lit, div, of_ℕ}

  -- What a message of a client asks for, one constructor for each handler of MatchSession.cpp.
  pub data Command : Type 0 where
    move : Vector2 fl → Command
    attack : ℕ → Command
    stop_attack jump start_disconnection cancel_disconnection : Command
    collect_it : ℕ → Command
    request_time : ℕ → ℕ → Command

  abbrev set_time : ℕ → Session fl → Session fl
  set_time t s = record s { disconnection_time = t }

  abbrev pub move_player : Vector2 fl → Session fl → Session fl
  move_player v s = record s { player = record s.player { entity = move_to fl s.player.entity v } }

  -- A handler. `now` is what `GetClockSeconds` returns.
  unfoldable pub handle : ℕ → ℕ → Session fl → Command → Match fl → Option (Match fl)
  handle now id s (move v) m = some (send_movement fl id v (with_session fl id (move_player v) m))
  handle now id s (attack other) m = Combat.start fl id other m
  handle now id s stop_attack m = some (Combat.stop fl id m)
  handle now id s jump m = some (active_jump fl id s m)
  handle now id s (collect_it collectable) m = some (collect fl id s collectable m)
  handle now id s start_disconnection m = some (
      if not (s.disconnection_time == 0)
      then m
      else with_session fl id (set_time now) (call fl id disconnection_started m))
  handle now id s cancel_disconnection m = some (
      if s.disconnection_time == 0
      then m
      else call fl id disconnection_cancelled (with_session fl id (set_time 0) m))
  handle now id s (request_time counter time) m = some (call fl id (time_response counter time) m)

  unfoldable pub handle_all : ℕ → ℕ → List Command → Match fl → Option (Match fl)
  handle_all now id [] m = some m
  handle_all now id (c ∷ cs) m = elim (lookup id m.sessions) [
    | none ↦ none
    | some s ↦ elim (handle now id s c m) [ none ↦ none | some n ↦ handle_all now id cs n ]
  ]

  -- Whether an aura calls `SendStatusUpdate` in its update.
  unfoldable pub any_sent : F → Auras fl → Player fl → Bool
  any_sent delta_time [] p = false
  any_sent delta_time ((id, a) ∷ as_) p =
      let (b, q, sent) = update_aura fl delta_time a p in sent || any_sent delta_time as_ q

  -- The auras' part of `MatchSession::Update` and `NPC::Update`.
  unfoldable pub update_session_auras : ℕ → ℕ → Match fl → Option (Match fl)
  update_session_auras time_difference id m = elim (lookup id m.sessions) [
    | none ↦ none
    | some s ↦
        let delta_time = div (of_ℕ time_difference) (lit 1000 0) in
        let (as_, p) = update_auras fl delta_time s.auras s.player in
        let n = with_session fl id (λ (t : Session fl). record t { player = p; auras = as_ }) m in
        if any_sent delta_time s.auras s.player then Match.send_status_update fl id n else some n
  ]

  -- What an update of a session depends on besides the match: for a client its messages, whether the
  -- connection is open, and whether it has been idle for too long; for an artificial player `think`,
  -- the update of its behaviour, which acts on the match and fails where it uses a session that is
  -- gone. The behaviours are in Game.Ai.
  pub record Turn : Type 0 where
    pub commands : List Command
    pub is_open : Bool
    pub is_idle : Bool
    pub think : Match fl → Option (Match fl)

  -- `MatchSession::Update`.
  unfoldable pub update_client : ℕ → ℕ → Turn → ℕ → Match fl → Option (Match fl)
  update_client time_difference now turn id m = elim (handle_all now id turn.commands m) [
    | none ↦ none
    | some n ↦ if turn.is_open then update_session_auras time_difference id n else some n
  ]

  -- `NPC::Update`.
  unfoldable pub update_npc : ℕ → Turn → ℕ → Match fl → Option (Match fl)
  update_npc time_difference turn id m = elim (turn.think m) [
    | none ↦ none
    | some n ↦ update_session_auras time_difference id n
  ]

  -- `IMatchSession::Update`.
  unfoldable pub update_match_session : ℕ → ℕ → Turn → ℕ → Match fl → Option (Match fl)
  update_match_session time_difference now turn id m = elim (lookup id m.sessions) [
    | none ↦ none
    | some s ↦
        if s.is_npc
        then update_npc time_difference turn id m
        else update_client time_difference now turn id m
  ]

  -- `MatchSession::ShouldDisconnect`.
  unfoldable pub should_disconnect : ℕ → Session fl → Bool
  should_disconnect now s = ltb 0 s.disconnection_time && leb (s.disconnection_time + 20) now

  -- A session ends: it is saved and closed, the account is signed out, and the others are told.
  unfoldable pub remove_session : ℕ → Session fl → Match fl → Match fl
  remove_session id s m =
      send_disconnection fl id
        (record m { sessions = erase id m.sessions; signed_out = m.signed_out ++ (s.account ∷ []) })

  -- One round of `UpdateSessions`. `IsValidDisconnection` is always true, so no disconnection is
  -- cancelled here; an artificial player is never idle and never disconnects. No session is added
  -- while the loop runs, so the entries that it meets are those that were there.
  unfoldable pub update_session_entry : ℕ → ℕ → (ℕ → Turn) → ℕ → Match fl → Option (Match fl)
  update_session_entry time_difference now turns id m =
      if not (contains id m.sessions)
      then some m
      else (elim (update_match_session time_difference now (turns id) id m) [
        | none ↦ none
        | some n ↦ elim (lookup id n.sessions) [
          | none ↦ none
          | some s ↦ some (
              if s.is_npc
              then n
              else (if (turns id).is_idle || should_disconnect now s
                  then remove_session id s n
                  else n))
        ]
      ])

  unfoldable pub update_session_entries : ℕ → ℕ → (ℕ → Turn) → List ℕ → Match fl → Option (Match fl)
  update_session_entries time_difference now turns [] m = some m
  update_session_entries time_difference now turns (id ∷ ids) m =
      elim (update_session_entry time_difference now turns id m) [
        | none ↦ none
        | some n ↦ update_session_entries time_difference now turns ids n
      ]

  unfoldable pub update_sessions : ℕ → ℕ → (ℕ → Turn) → Match fl → Option (Match fl)
  update_sessions time_difference now turns m =
      update_session_entries time_difference now turns (keys m.sessions) m

  -- `AddSession`.
  unfoldable pub add_session : ℕ → Player fl → Match fl → Option (Match fl)
  add_session account player m =
      enter fl
        (record {
          player = player;
          auras = new_auras fl;
          account = account;
          is_npc = false;
          disconnection_time = 0;
        })
        m

  -- `UpdateNPCSpawner`, for the players that spawners make, each with the name of its behaviour.
  -- `has_ai` says for which names `m_NPCAIFactories` has a factory; for the others `at` throws.
  unfoldable pub spawn_players :
      (List ℕ → Bool) → List (List ℕ × Player fl) → Match fl → Option (Match fl)
  spawn_players has_ai [] m = some m
  spawn_players has_ai ((ai, p) ∷ ps) m =
      let (id, n) = calculate_next_id fl m in
      elim (has_ai ai) [
        | false ↦ none
        | true ↦
            let o = send_new_player fl id p n in
            spawn_players has_ai ps (record o {
              sessions =
                  insert id
                    (record {
                      player = p;
                      auras = new_auras fl;
                      account = 0;
                      is_npc = true;
                      disconnection_time = 0;
                    })
                    o.sessions;
            })
      ]

  -- `UpdatePlayers`.
  unfoldable pub update_players : ℕ → List (ℕ × Session fl) → List (ℕ × Session fl)
  update_players time_difference [] = []
  update_players time_difference ((id, s) ∷ rest) =
      (
        id,
        record s {
          player = record s.player { entity = update_entity fl s.player.entity time_difference };
        },
      )
      ∷ update_players time_difference rest

  -- What comes from outside in one update of a match.
  pub record Tick : Type 0 where
    pub time_difference : ℕ
    pub now : ℕ
    pub has_ai : List ℕ → Bool
    pub spawned : List (List ℕ × Player fl)
    pub found : List (Collectable fl)
    pub draws : ℕ → Draw
    pub turns : ℕ → Turn

  -- `Match::Update` without the database.
  unfoldable pub update_match :
      Tick → List (Area fl) → Match fl → Option (List (Area fl) × Match fl)
  update_match t areas m = elim (update_transfers fl m) [
    | none ↦ none
    | some arrived ↦ elim (spawn_players t.has_ai t.spawned arrived) [
      | none ↦ none
      | some made ↦
          let (left, a) = update_areas fl areas (spawn_collectables fl t.found made) in
          let b : Match fl = record a { sessions = update_players t.time_difference a.sessions } in
          elim (update_attacks fl t.time_difference t.draws (update_jumps fl t.time_difference b)) [
            | none ↦ none
            | some c ↦
                elim (update_sessions t.time_difference t.now t.turns
                  (update_collections fl t.time_difference c)) [
                    | none ↦ none
                    | some n ↦ some (left, n)
                  ]
          ]
    ]
  ]
