-- ===== src/Game/Match/Roster/Update.antt =====
-- A whole update of a match: rounds of its sessions, departures, and `Match::Update`.
use scalable_cross_platform.Prelude.{ℕ, ◌≡◌, ◌≢◌, true, All}
use scalable_cross_platform.Prelude.Float.{Float}
use scalable_cross_platform.Prelude.Table.{contains}
use scalable_cross_platform.Game.Match.{Match}
use scalable_cross_platform.Game.Area.{Area}
use scalable_cross_platform.Game.Match.Combat.Safety.{IsPeaceful}
use scalable_cross_platform.Game.Message
use scalable_cross_platform.Game.Match.Roster.{attack, Turn}
use scalable_cross_platform.Game.Match.Roster.Peace.{Stays}

module _ (fl : Float) where
  -- A client does not ask for an attack on itself, and the behaviour of an artificial player who is in
  -- the match uses no session that is gone, leaves him in the match, and keeps its peace.
  abbrev pub IsCivil : ℕ → Turn fl → Type 0
  IsCivil id turn =
      All (λ x. x ≢ attack id) turn.commands
      × ((n : Match fl)
          → contains id n.sessions ≡ true
          → IsPeaceful fl n
          → Stays fl id (turn.think n))
