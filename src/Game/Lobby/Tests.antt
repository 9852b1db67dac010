-- ===== src/Game/Lobby/Tests.antt =====
-- An account that plays, one that is being loaded, and a client that answers with each.
use scalable_cross_platform.Prelude.{
  ◌≡◌, refl, inl, inr, true, false, some, List, [], ◌∷◌, ◌==◌, Bool-cases, arith,
}
use scalable_cross_platform.Prelude.Table.{lookup, contains}
use scalable_cross_platform.Game.Lobby.{
  no_value, player, Game, Event, round, answered, loaded, jumped, left, died, happen_all,
}
use scalable_cross_platform.Game.Lobby.Count.{count}
use scalable_cross_platform.Game.Lobby.Accounts.{IsSingle, happen_all-IsSingle}
use scalable_cross_platform.Game.Lobby.Lockout.{IsLockedOut, happen_all-IsLockedOut}

abbrev evening : Game
evening = record {
  new_sessions = 4 ∷ [];
  sessions = (0, 3) ∷ [];
  next_id = 1;
  signed_in = (70, true) ∷ (80, true) ∷ [];
  loading = (80, 2) ∷ [];
  playing = (70, 5) ∷ [];
  maps = (5, true) ∷ (6, true) ∷ [];
  closed = [];
  challenged = 2 ∷ 3 ∷ [];
}

evening-IsSingle : IsSingle evening
unfolding count contains
evening-IsSingle k = elim (Bool-cases (70 == k)) [
  | inl b ↦ let c : (80 == k) ≡ false = ground (arith, b) in rw (b) (rw (c) (omega arith))
  | inr b ↦ elim (Bool-cases (80 == k)) [
    | inl c ↦ rw (b) (rw (c) (omega arith))
    | inr c ↦ rw (b) (rw (c) (omega arith))
  ]
]

abbrev course : List Event
course =
    round
    ∷ answered 0 70
    ∷ answered 1 90
    ∷ loaded 90 (player 6 true)
    ∷ jumped 70 6
    ∷ left 70
    ∷ died 90
    ∷ []

happen_all-IsSingle_example : (h : Game) × (happen_all course evening ≡ some h) × IsSingle h
happen_all-IsSingle_example =
    happen_all-IsSingle course evening
      (tt, (tt, (tt, ((unfold contains in refl, refl), (unfold contains in refl, (tt, (tt, tt)))))))
      evening-IsSingle

happen_all-IsLockedOut_example :
    (h : Game) × (happen_all (loaded 80 no_value ∷ answered 0 80 ∷ left 80 ∷ []) evening ≡ some h)
    × IsLockedOut 80 h
happen_all-IsLockedOut_example =
    happen_all-IsLockedOut 80 (answered 0 80 ∷ left 80 ∷ []) evening 2 evening-IsSingle
      (unfold lookup in refl) (tt, (tt, tt))
