-- ===== src/Game/Lobby/Accounts.antt =====
-- No account plays twice, and one whose player cannot be loaded is locked out.
use scalable_cross_platform.Prelude.{
  ℕ, ◌+◌, ◌≤◌, ◌≡◌, refl, sym, ap, ◌∙◌, inl, inr, Bool, true, false, Option, some, List, [], ◌∷◌,
  ◌++◌, ◌==◌, if◌then◌else◌, Bool-cases, Option-cases, All, arith, ==_iff,
}
use mathlib.Core.Path.{subst}
use mathlib.Core.Bool.{true≢false}
use scalable_cross_platform.Prelude.Table.{lookup, contains, insert, erase, modify}
use scalable_cross_platform.Prelude.Table.Laws.{contains_of_lookup, contains-insert, contains-erase}
use scalable_cross_platform.Game.Lobby.Count.{
  count, count-erase, count-modify, count_positive, count_more, count_same, count-erase-bound,
  contains-insert_self,
}
use scalable_cross_platform.Game.Lobby.{
  no_value, unreadable, player, Game, notify_session, add_all, add_new_sessions, sign_out,
  is_signed_in, sign_in, start_load_player, end_load_player, handle_authentification_challenge,
  drop_idle_session, transfer, Event, notified, round, answered, idled, loaded, jumped, left, died,
  happen, happen_all,
}

-- What an account has in the game: at most one loading or one player, and only while it is signed in.
abbrev pub uses : ℕ → Game → ℕ
uses k g = count k g.loading + count k g.playing

abbrev pub IsSingle : Game → Type 0
IsSingle g = (k : ℕ) → uses k g ≤ (if contains k g.signed_in then 1 else 0)

module _ (g : Game) (p : IsSingle g) (k : ℕ) where
  pub single_in : contains k g.signed_in ≡ true → uses k g ≤ 1
  single_in e = subst (λ b. uses k g ≤ (if b then 1 else 0)) e (p k)

  pub single_out : contains k g.signed_in ≡ false → uses k g ≤ 0
  single_out e = subst (λ b. uses k g ≤ (if b then 1 else 0)) e (p k)

-- One account of a new state, if it is signed in, or if it is not.
at_most :
    (k : ℕ) (h : Game)
    → uses k h ≤ 1
    → (contains k h.signed_in ≡ false → uses k h ≤ 0)
    → uses k h ≤ (if contains k h.signed_in then 1 else 0)
at_most k h a b = elim (Bool-cases (contains k h.signed_in)) [
  | inl e ↦ subst (λ x. uses k h ≤ (if x then 1 else 0)) (sym e) a
  | inr e ↦ subst (λ x. uses k h ≤ (if x then 1 else 0)) (sym e) (b e)
]

-- One account that has no more than before, and is signed in if it was.
fewer_of :
    (g h : Game) (k : ℕ)
    → IsSingle g
    → uses k h ≤ uses k g
    → (contains k g.signed_in ≡ true → contains k h.signed_in ≡ true)
    → uses k h ≤ (if contains k h.signed_in then 1 else 0)
fewer_of g h k p less kept = elim (Bool-cases (contains k g.signed_in)) [
  | inl e ↦
      at_most k h (omega (arith, less, single_in g p k e))
        (λ f. absurd (true≢false (sym (kept e) ∙ f)))
  | inr e ↦
      let z = single_out g p k e in
      at_most k h (omega (arith, less, z)) (λ f. omega (arith, less, z))
]

fewer-IsSingle :
    (g h : Game)
    → ((k : ℕ) → uses k h ≤ uses k g)
    → ((k : ℕ) → contains k g.signed_in ≡ true → contains k h.signed_in ≡ true)
    → IsSingle g
    → IsSingle h
fewer-IsSingle g h less kept p k = fewer_of g h k p (less k) (kept k)

module _ (a s : ℕ) (g : Game) (p : IsSingle g) (e : contains a g.signed_in ≡ false) where
  abbrev began : Game
  began = record g { signed_in = insert a true g.signed_in; loading = g.loading ++ ((a, s) ∷ []) }

  began-IsSingle : IsSingle began
  began-IsSingle k = elim (Bool-cases (a == k)) [
    | inl b ↦
        let same = (==_iff a k).0 b in
        let z = single_out g p k (sym (ap (λ x. contains x g.signed_in) same) ∙ e) in
        let in_ =
          ap (λ x. contains x (insert a true g.signed_in)) (sym same)
          ∙ contains-insert_self a true g.signed_in in
        at_most k began (omega (arith, z, count_more k a s g.loading b))
          (λ f. absurd (true≢false (sym in_ ∙ f)))
    | inr b ↦
        fewer_of g began k p (omega (arith, count_same k a s g.loading b))
          (contains-insert k a true g.signed_in)
  ]

-- The sign-in of an account that begins to load.
start_load_player-IsSingle :
    (account session : ℕ) (g : Game) → IsSingle g → IsSingle (start_load_player account session g)
unfolding start_load_player sign_in is_signed_in
start_load_player-IsSingle a s g p = elim (Bool-cases (contains a g.signed_in)) [
  | inl e ↦ rw (e) p
  | inr e ↦ rw (e) (began-IsSingle a s g p e)
]

-- The maps that are there; a map that a player is in or jumps to has to be one.
abbrev pub IsKnown : List (ℕ × Bool) → Event → Type 0
IsKnown maps (loaded account (player map takes)) = (contains map maps ≡ true) × (takes ≡ true)
IsKnown maps (loaded account unreadable) = ⊥
IsKnown maps (jumped account map) = contains map maps ≡ true
IsKnown maps _ = Unit

abbrev Goes : Game → Option Game → Type 0
Goes g o = (h : Game) × (o ≡ some h) × (h.maps ≡ g.maps) × IsSingle h

pub add_all-fields :
    (ss : List ℕ) (g : Game)
    → ((add_all ss g).signed_in ≡ g.signed_in)
      × ((add_all ss g).loading ≡ g.loading)
      × ((add_all ss g).playing ≡ g.playing)
      × ((add_all ss g).maps ≡ g.maps)
unfolding add_all
add_all-fields [] g = (refl, refl, refl, refl)
add_all-fields (s ∷ ss) g = add_all-fields ss _

start_load_player-maps : (a s : ℕ) (g : Game) → (start_load_player a s g).maps ≡ g.maps
unfolding start_load_player sign_in is_signed_in
start_load_player-maps a s g = elim (Bool-cases (contains a g.signed_in)) [
  | inl e ↦ rw (e) refl
  | inr e ↦ rw (e) refl
]

add_new_sessions-Goes : (g : Game) → IsSingle g → Goes g (some (add_new_sessions g))
unfolding add_new_sessions
add_new_sessions-Goes g p =
    let (a, b, c, d) = add_all-fields g.new_sessions g in
    (
      _,
      refl,
      d,
      fewer-IsSingle g (record (add_all g.new_sessions g) { new_sessions = [] })
          (λ k. omega (arith, ap (count k) b, ap (count k) c)) (λ k e. ap (contains k) a ∙ e) p,
    )

challenge-Goes :
    (id a : ℕ) (g : Game) → IsSingle g → Goes g (some (handle_authentification_challenge id a g))
unfolding handle_authentification_challenge
challenge-Goes id a g p = elim (Option-cases (lookup id g.sessions)) [
  | inl e ↦ (g, rw (e, handle_authentification_challenge) refl, refl, p)
  | inr (s, e) ↦ (
    record (start_load_player a s g) { sessions = erase id (start_load_player a s g).sessions },
    rw (e, handle_authentification_challenge) refl,
    start_load_player-maps a s g,
    start_load_player-IsSingle a s g p,
  )
]

drop_idle_session-Goes : (id : ℕ) (g : Game) → IsSingle g → Goes g (some (drop_idle_session id g))
unfolding drop_idle_session
drop_idle_session-Goes id g p = elim (Option-cases (lookup id g.sessions)) [
  | inl e ↦ (g, rw (e, drop_idle_session) refl, refl, p)
  | inr (s, e) ↦ (
    record g { closed = g.closed ++ (s ∷ []); sessions = erase id g.sessions },
    rw (e, drop_idle_session) refl,
    refl,
    p,
  )
]

-- The end of a loading.
module _ (a s : ℕ) (g : Game) (p : IsSingle g) (e : lookup a g.loading ≡ some s) where
  abbrev unloaded : Game
  unloaded = record g { loading = erase a g.loading }

  loaded_nothing-Goes : Goes g (end_load_player no_value a s unloaded)
  unfolding end_load_player
  loaded_nothing-Goes = (
    _,
    refl,
    refl,
    fewer-IsSingle g unloaded (λ k. omega (arith, count-erase-bound k a g.loading)) (λ k f. f) p,
  )

  abbrev entered : ℕ → Game
  entered map = record unloaded { playing = g.playing ++ ((a, map) ∷ []) }

  uses-entered : (map k : ℕ) → uses k (entered map) ≤ uses k g
  uses-entered map k = elim (Bool-cases (a == k)) [
    | inl b ↦
        let same = (==_iff a k).0 b in
        let z = ap (λ x. count k (erase x g.loading)) same ∙ count-erase k g.loading in
        let there =
          count_positive k g.loading
            (ap (λ x. contains x g.loading) (sym same) ∙ contains_of_lookup a s g.loading e) in
        omega (arith, z, there, count_more k a map g.playing b)
    | inr b ↦ omega (arith, count-erase-bound k a g.loading, count_same k a map g.playing b)
  ]

  loaded_player-Goes :
      (map : ℕ) (takes : Bool)
      → contains map g.maps ≡ true
      → takes ≡ true
      → Goes g (end_load_player (player map takes) a s unloaded)
  unfolding end_load_player
  loaded_player-Goes map takes h t = (
    entered map,
    rw (h, t) refl,
    refl,
    fewer-IsSingle g (entered map) (uses-entered map) (λ k f. f) p,
  )

-- An account that plays leaves.
left-IsSingle :
    (a : ℕ) (g : Game)
    → IsSingle g
    → contains a g.playing ≡ true
    → IsSingle (sign_out a (record g { playing = erase a g.playing }))
unfolding sign_out
left-IsSingle a g p e k =
    let h : Game = record g { playing = erase a g.playing; signed_in = erase a g.signed_in } in
    elim (Bool-cases (a == k)) [
      | inl b ↦
          let same = (==_iff a k).0 b in
          let z = ap (λ x. count k (erase x g.playing)) same ∙ count-erase k g.playing in
          let there = count_positive k g.playing (ap (λ x. contains x g.playing) (sym same) ∙ e) in
          let most : uses k g ≤ 1 = elim (Bool-cases (contains k g.signed_in)) [
            | inl f ↦ single_in g p k f
            | inr f ↦ omega (arith, single_out g p k f)
          ] in
          at_most k h (omega (arith, z, there, most)) (λ f. omega (arith, z, there, most))
      | inr b ↦
          fewer_of g h k p (omega (arith, count-erase-bound k a g.playing))
            (contains-erase k a g.signed_in (λ f. true≢false (sym ((==_iff a k).1 (sym f)) ∙ b)))
    ]

happen-Goes : (e : Event) (g : Game) → IsKnown g.maps e → IsSingle g → Goes g (happen e g)
unfolding happen notify_session transfer sign_out
happen-Goes (notified s) g h p = (_, refl, refl, p)
happen-Goes round g h p = add_new_sessions-Goes g p
happen-Goes (answered id a) g h p = challenge-Goes id a g p
happen-Goes (idled id) g h p = drop_idle_session-Goes id g p
happen-Goes (loaded a unreadable) g h p = absurd h
happen-Goes (loaded a no_value) g h p = elim (Option-cases (lookup a g.loading)) [
  | inl e ↦ (g, rw (e, happen) refl, refl, p)
  | inr (s, e) ↦ rw (e, happen) (loaded_nothing-Goes a s g p e)
]
happen-Goes (loaded a (player map takes)) g h p = elim (Option-cases (lookup a g.loading)) [
  | inl e ↦ (g, rw (e, happen) refl, refl, p)
  | inr (s, e) ↦ rw (e, happen) (loaded_player-Goes a s g p e map takes h.0 h.1)
]
happen-Goes (jumped a map) g h p =
    let o : Game = record g { playing = modify a (λ (old : ℕ). map) g.playing } in
    (
      o,
      rw (h) refl,
      refl,
      fewer-IsSingle g o (λ k. omega (arith, count-modify k a (λ (old : ℕ). map) g.playing))
          (λ k f. f) p,
    )
happen-Goes (left a) g h p = elim (Bool-cases (contains a g.playing)) [
  | inl e ↦ (
    sign_out a (record g { playing = erase a g.playing }),
    rw (e) refl,
    refl,
    left-IsSingle a g p e,
  )
  | inr e ↦ (g, rw (e) refl, refl, p)
]
happen-Goes (died a) g h p =
    let o : Game = record g { playing = erase a g.playing } in
    (
      o,
      refl,
      refl,
      fewer-IsSingle g o (λ k. omega (arith, count-erase-bound k a g.playing)) (λ k f. f) p,
    )

-- If every account has at most one loading or one player, and only while it is signed in, then this
-- is so behind whatever happens, in whatever order: new sessions, answers with any account, idle
-- clients, loadings that end with a player or without one, jumps, disconnections and deaths; and
-- nothing of this fails, if what the database gives is no result at all or a player that can be read,
-- if the maps of the loaded players and of the jumps are there, and if the matches take the loaded
-- players without an exception of `AddSession`.
pub happen_all-IsSingle :
    (es : List Event) (g : Game)
    → All (IsKnown g.maps) es
    → IsSingle g
    → (h : Game) × (happen_all es g ≡ some h) × IsSingle h
unfolding happen_all
happen_all-IsSingle [] g k p = (g, refl, p)
happen_all-IsSingle (e ∷ es) g k p =
    let (h, f, m, q) = happen-Goes e g k.0 p in
    let (o, r, t) = happen_all-IsSingle es h (subst (λ x. All (IsKnown x) es) (sym m) k.1) q in
    (o, rw (f, happen_all) r, t)
