-- ===== src/Game/Lobby.antt =====
-- GameServer/GameServer/Game.h, AccountManager.h and GameSession.cpp: how a session gets from the
-- acceptor to a match, and which accounts are signed in. A session is an id; who plays is listed
-- with the account and the map; the loading of a player is an event of its own, with what the database
-- gives for it and, for a player, whether `Match::AddSession` goes through (see Game.Match.Roster).
pub mod Count
pub mod Accounts
pub mod Lockout
mod Tests
use scalable_cross_platform.Prelude.{
  ℕ, ◌+◌, Bool, true, false, not, Option, none, some, List, [], ◌∷◌, ◌++◌, if◌then◌else◌, add_size,
}
use scalable_cross_platform.Prelude.Table.{lookup, contains, insert, erase, modify}

-- `sessions` are the game sessions, `signed_in` the accounts, `loading` the accounts whose player is
-- being loaded, with the session. `closed` and `challenged` are the sessions for which `Close` and
-- `SendAuthentificationChallenge` were called.
pub record Game : Type 0 where
  pub new_sessions : List ℕ
  pub sessions : List (ℕ × ℕ)
  pub next_id : ℕ
  pub signed_in : List (ℕ × Bool)
  pub loading : List (ℕ × ℕ)
  pub playing : List (ℕ × ℕ)
  pub maps : List (ℕ × Bool)
  pub closed : List ℕ
  pub challenged : List ℕ

-- `NotifySession`.
unfoldable pub notify_session : ℕ → Game → Game
notify_session session g = record g { new_sessions = g.new_sessions ++ (session ∷ []) }

-- `AddNewSessions`.
unfoldable pub add_all : List ℕ → Game → Game
add_all [] g = g
add_all (s ∷ ss) g = add_all ss (record g {
  next_id = add_size g.next_id 1;
  challenged = g.challenged ++ (s ∷ []);
  sessions = insert g.next_id s g.sessions;
})

unfoldable pub add_new_sessions : Game → Game
add_new_sessions g = record (add_all g.new_sessions g) { new_sessions = [] }

-- `AccountManager`.
unfoldable pub sign_out : ℕ → Game → Game
sign_out account g = record g { signed_in = erase account g.signed_in }

unfoldable pub is_signed_in : ℕ → Game → Bool
is_signed_in account g = contains account g.signed_in

-- `SignIn`.
unfoldable pub sign_in : ℕ → Game → Bool × Game
sign_in account g =
    if is_signed_in account g
    then (false, g)
    else (true, record g { signed_in = insert account true g.signed_in })

-- `StartLoadPlayer`.
unfoldable pub start_load_player : ℕ → ℕ → Game → Game
start_load_player account session g =
    let (signed, h) = sign_in account g in
    if not signed
    then record h { closed = h.closed ++ (session ∷ []) }
    else record h { loading = h.loading ++ ((account, session) ∷ []) }

-- What the database gives for a player: no value; a result in which `LoadPlayer` does not find the
-- first row or a field, and throws; or a player on a map, where `takes` is whether `AddSession` of the
-- match takes him without an exception.
pub data Loaded : Type 0 where
  no_value unreadable : Loaded
  player : (map : ℕ) (takes : Bool) → Loaded

-- `EndLoadPlayer`. The match of a map that is not there is null.
unfoldable pub end_load_player : Loaded → ℕ → ℕ → Game → Option Game
end_load_player no_value account session g = some (record g { closed = g.closed ++ (session ∷ []) })
end_load_player unreadable account session g = none
end_load_player (player map takes) account session g =
    if not (contains map g.maps)
    then none
    else (if takes then some (record g { playing = g.playing ++ ((account, map) ∷ []) }) else none)

-- A game session that answers the challenge with an account, and one that is idle.
unfoldable pub handle_authentification_challenge : ℕ → ℕ → Game → Game
handle_authentification_challenge id account g = elim (lookup id g.sessions) [
  | none ↦ g
  | some s ↦ let h = start_load_player account s g in record h { sessions = erase id h.sessions }
]

unfoldable pub drop_idle_session : ℕ → Game → Game
drop_idle_session id g = elim (lookup id g.sessions) [
  | none ↦ g
  | some s ↦ record g { closed = g.closed ++ (s ∷ []); sessions = erase id g.sessions }
]

-- `Transfer`.
unfoldable pub transfer : ℕ → ℕ → Game → Option Game
transfer account map g =
    if contains map g.maps
    then some (record g { playing = modify account (λ (old : ℕ). map) g.playing })
    else none

-- What happens: a new session, a round of the game, an answer of a client, an idle client, the end of
-- a loading, and in the matches a jump, a disconnection, which signs the account out, and a death.
pub data Event : Type 0 where
  notified : ℕ → Event
  round : Event
  answered : (id account : ℕ) → Event
  idled : ℕ → Event
  loaded : (account : ℕ) (result : Loaded) → Event
  jumped : (account map : ℕ) → Event
  left died : (account : ℕ) → Event

unfoldable pub happen : Event → Game → Option Game
happen (notified s) g = some (notify_session s g)
happen round g = some (add_new_sessions g)
happen (answered id account) g = some (handle_authentification_challenge id account g)
happen (idled id) g = some (drop_idle_session id g)
happen (loaded account result) g = elim (lookup account g.loading) [
  | none ↦ some g
  | some s ↦ end_load_player result account s (record g { loading = erase account g.loading })
]
happen (jumped account map) g = transfer account map g
happen (left account) g = some (
    if contains account g.playing
    then sign_out account (record g { playing = erase account g.playing })
    else g)
happen (died account) g = some (record g { playing = erase account g.playing })

unfoldable pub happen_all : List Event → Game → Option Game
happen_all [] g = some g
happen_all (e ∷ es) g = elim (happen e g) [ none ↦ none | some h ↦ happen_all es h ]
