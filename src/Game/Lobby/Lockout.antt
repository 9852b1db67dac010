-- ===== src/Game/Lobby/Lockout.antt =====
-- An account whose player cannot be loaded stays signed in.
use scalable_cross_platform.Prelude.{
  ℕ, ◌≤◌, ◌≡◌, refl, sym, ap, ◌∙◌, inl, inr, true, false, Option, some, List, [], ◌∷◌, ◌++◌, ◌==◌,
  Bool-cases, Option-cases, All, arith, ==_iff,
}
use mathlib.Core.Path.{subst}
use mathlib.Core.Bool.{true≢false}
use scalable_cross_platform.Prelude.Table.{lookup, contains, erase, modify}
use scalable_cross_platform.Prelude.Table.Laws.{contains_of_lookup, contains-insert, contains-erase}
use scalable_cross_platform.Game.Lobby.Count.{
  count, count-erase, count-modify, count_positive, count_same, count-erase-bound,
}
use scalable_cross_platform.Game.Lobby.{
  no_value, unreadable, player, Game, notify_session, add_all, add_new_sessions, sign_out,
  is_signed_in, sign_in, start_load_player, end_load_player, handle_authentification_challenge,
  drop_idle_session, transfer, Event, notified, round, answered, idled, loaded, jumped, left, died,
  happen, happen_all,
}
use scalable_cross_platform.Game.Lobby.Accounts.{
  uses, IsSingle, single_in, single_out, IsKnown, add_all-fields,
}

module _ (a : ℕ) where
  -- Signed in, and neither loading nor playing.
  pub record IsLockedOut (g : Game) : Type 0 where
    pub signed : contains a g.signed_in ≡ true
    pub idle : uses a g ≤ 0

  abbrev Stays : Game → Option Game → Type 0
  Stays g o = (h : Game) × (o ≡ some h) × (h.maps ≡ g.maps) × IsLockedOut h

  answered_by :
      (b s : ℕ) (g : Game)
      → IsLockedOut g
      → ((start_load_player b s g).maps ≡ g.maps) × IsLockedOut (start_load_player b s g)
  unfolding start_load_player sign_in is_signed_in
  answered_by b s g p = elim (Bool-cases (contains b g.signed_in)) [
    | inl e ↦ rw (e) (refl, record { signed = p.signed; idle = p.idle })
    | inr e ↦
        let other : (b == a) ≡ false = elim (Bool-cases (b == a)) [
          | inr f ↦ f
          | inl f ↦ absurd (
              true≢false
                (sym p.signed ∙ ap (λ x. contains x g.signed_in) (sym ((==_iff b a).0 f)) ∙ e))
        ] in
        rw (e) (
          refl,
          record {
            signed = contains-insert a b true g.signed_in p.signed;
            idle = omega (arith, p.idle, count_same a b s g.loading other);
          },
        )
  ]

  happen-Stays : (e : Event) (g : Game) → IsKnown g.maps e → IsLockedOut g → Stays g (happen e g)
  unfolding happen notify_session add_new_sessions handle_authentification_challenge
      drop_idle_session end_load_player transfer sign_out
  happen-Stays (notified s) g h p = (_, refl, refl, record { signed = p.signed; idle = p.idle })
  happen-Stays round g h p =
      let (x, y, z, w) = add_all-fields g.new_sessions g in
      (
        record (add_all g.new_sessions g) { new_sessions = [] },
        refl,
        w,
        record {
          signed = ap (contains a) x ∙ p.signed;
          idle = omega (arith, p.idle, ap (count a) y, ap (count a) z);
        },
      )
  happen-Stays (answered id b) g h p = elim (Option-cases (lookup id g.sessions)) [
    | inl e ↦ (g, rw (e, handle_authentification_challenge) refl, refl, p)
    | inr (s, e) ↦
        let (m, q) = answered_by b s g p in
        (
          record (start_load_player b s g) {
            sessions = erase id (start_load_player b s g).sessions;
          },
          rw (e, handle_authentification_challenge) refl,
          m,
          record { signed = q.signed; idle = q.idle },
        )
  ]
  happen-Stays (idled id) g h p = elim (Option-cases (lookup id g.sessions)) [
    | inl e ↦ (g, rw (e, drop_idle_session) refl, refl, p)
    | inr (s, e) ↦ (
      record g { closed = g.closed ++ (s ∷ []); sessions = erase id g.sessions },
      rw (e, drop_idle_session) refl,
      refl,
      record { signed = p.signed; idle = p.idle },
    )
  ]
  happen-Stays (loaded b unreadable) g h p = absurd h
  happen-Stays (loaded b no_value) g h p = elim (Option-cases (lookup b g.loading)) [
    | inl e ↦ (g, rw (e, happen) refl, refl, p)
    | inr (s, e) ↦
        rw (e, happen)
          (
            _,
            refl,
            refl,
            record {
              signed = p.signed;
              idle = omega (arith, p.idle, count-erase-bound a b g.loading);
            },
          )
  ]
  happen-Stays (loaded b (player map takes)) g h p = elim (Option-cases (lookup b g.loading)) [
    | inl e ↦ (g, rw (e, happen) refl, refl, p)
    | inr (s, e) ↦
        let there = count_positive b g.loading (contains_of_lookup b s g.loading e) in
        let other : (b == a) ≡ false = elim (Bool-cases (b == a)) [
          | inr f ↦ f
          | inl f ↦
              absurd (omega (arith, p.idle, there, ap (λ x. count x g.loading) ((==_iff b a).0 f)))
        ] in
        let o : Game = record g {
          loading = erase b g.loading;
          playing = g.playing ++ ((b, map) ∷ []);
        } in
        (
          o,
          rw (e, happen) (rw (h.0, h.1) refl),
          refl,
          record {
            signed = p.signed;
            idle = omega (
              arith,
              p.idle,
              count-erase-bound a b g.loading,
              count_same a b map g.playing other,
            );
          },
        )
  ]
  happen-Stays (jumped b map) g h p =
      let o : Game = record g { playing = modify b (λ (old : ℕ). map) g.playing } in
      (
        o,
        rw (h) refl,
        refl,
        record {
          signed = p.signed;
          idle = omega (arith, p.idle, count-modify a b (λ (old : ℕ). map) g.playing);
        },
      )
  happen-Stays (left b) g h p = elim (Bool-cases (contains b g.playing)) [
    | inr e ↦ (g, rw (e) refl, refl, p)
    | inl e ↦
        let there = count_positive b g.playing e in
        (
          sign_out b (record g { playing = erase b g.playing }),
          rw (e) refl,
          refl,
          record {
            signed =
                contains-erase a b g.signed_in
                  (λ f. absurd (omega (arith, p.idle, there, ap (λ x. count x g.playing) f)))
                  p.signed;
            idle = omega (arith, p.idle, count-erase-bound a b g.playing);
          },
        )
  ]
  happen-Stays (died b) g h p =
      let o : Game = record g { playing = erase b g.playing } in
      (
        o,
        refl,
        refl,
        record { signed = p.signed; idle = omega (arith, p.idle, count-erase-bound a b g.playing) },
      )

  happen_all-Stays :
      (es : List Event) (g : Game)
      → All (IsKnown g.maps) es
      → IsLockedOut g
      → (h : Game) × (happen_all es g ≡ some h) × IsLockedOut h
  unfolding happen_all
  happen_all-Stays [] g k p = (g, refl, p)
  happen_all-Stays (e ∷ es) g k p =
      let (h, f, m, q) = happen-Stays e g k.0 p in
      let (o, r, t) = happen_all-Stays es h (subst (λ x. All (IsKnown x) es) (sym m) k.1) q in
      (o, rw (f, happen_all) r, t)

  load_fails :
      (g : Game) (s : ℕ)
      → lookup a g.loading ≡ some s
      → happen (loaded a no_value) g
        ≡ some (record g { loading = erase a g.loading; closed = g.closed ++ (s ∷ []) })
  unfolding happen end_load_player
  load_fails g s e = rw (e, happen) refl

  -- An account for whose loading the database gives no result, where every account has at most one
  -- loading or one player and only while it is signed in, stays signed in without either, whatever
  -- happens afterwards, answers with this account included, as long as what the database gives later
  -- is no result or a player that can be read, the maps are there and the matches take the players.
  pub happen_all-IsLockedOut :
      (es : List Event) (g : Game) (s : ℕ)
      → IsSingle g
      → lookup a g.loading ≡ some s
      → All (IsKnown g.maps) es
      → (h : Game) × (happen_all (loaded a no_value ∷ es) g ≡ some h) × IsLockedOut h
  unfolding happen_all
  happen_all-IsLockedOut es g s p e k =
      let o : Game = record g { loading = erase a g.loading; closed = g.closed ++ (s ∷ []) } in
      let there = count_positive a g.loading (contains_of_lookup a s g.loading e) in
      let signed : contains a g.signed_in ≡ true = elim (Bool-cases (contains a g.signed_in)) [
        | inl f ↦ f
        | inr f ↦ absurd (omega (arith, there, single_out g p a f))
      ] in
      let q : IsLockedOut o = record {
        signed = signed;
        idle = omega (arith, there, single_in g p a signed, count-erase a g.loading);
      } in
      let (h, r, t) = happen_all-Stays es o k q in (h, rw (load_fails g s e, happen_all) r, t)
