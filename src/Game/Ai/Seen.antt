-- ===== src/Game/Ai/Seen.antt =====
-- Whom an artificial player has noted, and that he is there.
use scalable_cross_platform.Prelude.{
  ℕ, ◌≡◌, ◌≢◌, sym, ap, ◌∙◌, true, false, not, ◌&&◌, Option, none, some, ◌==◌, ==_refl, ==_iff,
}
use mathlib.Core.Path.{subst}
use mathlib.Core.Bool.{true≢false}
use mathlib.Core.Option.{some-injective}
use scalable_cross_platform.Prelude.Float.{Float}
use scalable_cross_platform.Prelude.Table.{lookup, contains, insert, erase}
use scalable_cross_platform.Prelude.Table.Laws.{contains-erase, contains-insert}
use scalable_cross_platform.Game.Vector
use scalable_cross_platform.Game.Match.{Session, Match}
use scalable_cross_platform.Game.Ai.{is_hostile_near}
use scalable_cross_platform.Game.Ai.Steady.{IsSteady}

module _ (fl : Float) where
  -- The other, if there is one, is there, and its id is known.
  abbrev pub Sees : Option ℕ → ℕ → Match fl → Type 0
  Sees none i m = Unit
  Sees (some e) i m = (i ≡ e) × (contains e m.sessions ≡ true)

  pub carried : (o : Option ℕ) (i : ℕ) {m n : Match fl} → IsSteady fl m n → Sees o i m → Sees o i n
  carried none i s h = tt
  carried (some e) i s h = (h.0, s.present e ∙ h.1)

  -- Who is seen is there.
  pub seen_contains :
      (o : Option ℕ) (i : ℕ) (m : Match fl) (e : ℕ)
      → o ≡ some e
      → Sees o i m
      → contains e m.sessions ≡ true
  seen_contains o i m e h s = (subst (λ x. Sees x i m) h s).1

  pub erased-Sees :
      (k : ℕ) (o : Option ℕ) (i : ℕ) (m n : Match fl)
      → n.sessions ≡ erase k m.sessions
      → (i == k) ≡ false
      → Sees o i m
      → Sees o i n
  erased-Sees k none i m n e f s = tt
  erased-Sees k (some x) i m n e f s = (
    s.0,
    ap (contains x) e
        ∙ contains-erase x k m.sessions (λ g. true≢false (sym ((==_iff i k).1 (s.0 ∙ g)) ∙ f)) s.1,
  )

  pub inserted-Sees :
      (k : ℕ) (v : Session fl) (o : Option ℕ) (i : ℕ) (m n : Match fl)
      → n.sessions ≡ insert k v m.sessions
      → Sees o i m
      → Sees o i n
  inserted-Sees k v none i m n e s = tt
  inserted-Sees k v (some x) i m n e s =
      (s.0, ap (contains x) e ∙ contains-insert x k v m.sessions s.1)

  -- Nobody is hostile to himself.
  pub hostile_other :
      (id other : ℕ) (m : Match fl) (s t : Session fl)
      → lookup id m.sessions ≡ some s
      → lookup other m.sessions ≡ some t
      → is_hostile_near fl s.player t.player ≡ true
      → id ≢ other
  unfolding is_hostile_near
  hostile_other id other m s t e f h i =
      let same = some-injective s t (sym e ∙ ap (λ k. lookup k m.sessions) i ∙ f) in
      true≢false (
        sym h
        ∙ ap (λ (x : Session fl). is_hostile_near fl s.player x.player) (sym same)
        ∙ ap
            (λ b.
              not b
              && Vector.less_equal fl (Vector.distance fl s.player.position s.player.position)
                  s.player.attack_radius)
            (==_refl s.player.faction))
