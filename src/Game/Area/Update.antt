-- ===== src/Game/Area/Update.antt =====
-- What an update of a demilitarized area leaves.
use scalable_cross_platform.Prelude.{
  ℕ, ◌≡◌, refl, sym, ap, ◌∙◌, inl, inr, Bool, true, ◌&&◌, some, List, [], ◌∷◌, ◌==◌, if◌then◌else◌,
  ltb, Bool-cases, ==_iff,
}
use mathlib.Core.Path.{subst}
use mathlib.Core.Bool.{true≢false}
use scalable_cross_platform.Prelude.Float.{Float}
use scalable_cross_platform.Prelude.Table.{lookup, contains, keys}
use scalable_cross_platform.Prelude.Table.Laws.{contains_of_lookup}
use scalable_cross_platform.Game.Match.{Session, Match}
use scalable_cross_platform.Game.Area.{Area, keep_present, is_inside, visit, visit_all, update_area}
use scalable_cross_platform.Game.Area.Protection.{
  is_protected, IsGuarded, Knows, Kept, same-Kept, visit-Done,
}

module _ (fl : Float) where
  -- Two rounds, one after the other.
  then-Kept : (r q o : Area fl × Match fl) → Kept fl r q → Kept fl q o → Kept fl r o
  then-Kept r q o x y = (y.0, (λ k z. y.1 k (x.1 k z)), (λ k. y.2 k ∙ x.2 k), λ p. y.3 p ∙ x.3 p)

  visit_all-Kept :
      (ids : List ℕ) (r : Area fl × Match fl)
      → IsGuarded fl r.0 r.1
      → Kept fl r (visit_all fl ids r)
  unfolding visit_all
  visit_all-Kept [] r g = same-Kept fl 0 r.0 r.1 g
  visit_all-Kept (id ∷ ids) r g =
      let x = (visit-Done fl id r.0 r.1 g).0 in
      then-Kept r (visit fl id r) (visit_all fl ids (visit fl id r)) x
        (visit_all-Kept ids (visit fl id r) x.0)

  -- Whoever is met is known.
  visit_all-Knows :
      (k : ℕ) (l : List (ℕ × Session fl)) (r : Area fl × Match fl)
      → IsGuarded fl r.0 r.1
      → contains k l ≡ true
      → Knows fl k (visit_all fl (keys l) r)
  unfolding visit_all contains
  visit_all-Knows k [] r g c = absurd (true≢false (sym c))
  visit_all-Knows k ((id, s) ∷ l) r g c =
      let (x, y) = visit-Done fl id r.0 r.1 g in
      elim (Bool-cases (id == k)) [
        | inl b ↦
            (visit_all-Kept (keys l) (visit fl id r) x.0).1 k
              (subst (λ v. Knows fl v (visit fl id r)) ((==_iff id k).0 b) y)
        | inr b ↦ visit_all-Knows k l (visit fl id r) x.0 (sym (rw (b)) ∙ c)
      ]

  keep_present-contains :
      (m : Match fl) (k : ℕ) (l : List (ℕ × Bool))
      → contains k m.sessions ≡ true
      → contains k (keep_present fl m l) ≡ contains k l
  unfolding keep_present contains
  keep_present-contains m k [] c = refl
  keep_present-contains m k ((id, v) ∷ l) c = elim (Bool-cases (contains id m.sessions)) [
    | inl b ↦ rw (b) (ap (if◌then◌else◌ (id == k) true) (keep_present-contains m k l c))
    | inr b ↦ elim (Bool-cases (id == k)) [
      | inl e ↦
          absurd
            (true≢false (sym c ∙ ap (λ v. contains v m.sessions) (sym ((==_iff id k).0 e)) ∙ b))
      | inr e ↦ rw (b) (rw (e) (keep_present-contains m k l c))
    ]
  ]

  abbrev present : Area fl → Match fl → Area fl
  present a m = record a { sessions_on_area = keep_present fl m a.sessions_on_area }

  present-IsGuarded : (a : Area fl) (m : Match fl) → IsGuarded fl a m → IsGuarded fl (present a m) m
  present-IsGuarded a m g = record {
    agrees = λ k s e.
        g.agrees k s e
        ∙ ap (λ v. v && ltb s.player.faction 3)
            (sym
              (keep_present-contains m k a.sessions_on_area (contains_of_lookup k s m.sessions e)));
  }

  -- Let the protection agree with what a demilitarized area knows: whoever is in the match is
  -- protected exactly if the area has him and his faction is below 3. Then behind an update of the
  -- area the protection agrees again with what the area then knows; and whoever is in the match then is
  -- known to the area exactly if he is within its radius, and protected exactly if besides his
  -- faction is below 3.
  pub update_area-IsGuarded :
      (a : Area fl) (m : Match fl) (k : ℕ) (s : Session fl)
      → IsGuarded fl a m
      → lookup k (update_area fl a m).1.sessions ≡ some s
      → IsGuarded fl (update_area fl a m).0 (update_area fl a m).1
        × (contains k (update_area fl a m).0.sessions_on_area ≡ is_inside fl a s.player)
        × (is_protected fl s ≡ (is_inside fl a s.player && ltb s.player.faction 3))
  unfolding update_area is_inside
  update_area-IsGuarded a m k s g e =
      let r : Area fl × Match fl = (present a m, m) in
      let guarded = present-IsGuarded a m g in
      let kept = visit_all-Kept (keys m.sessions) r guarded in
      let there : contains k m.sessions ≡ true =
        sym (kept.2 k) ∙ contains_of_lookup k s (visit_all fl (keys m.sessions) r).1.sessions e in
      let known = visit_all-Knows k m.sessions r guarded there s e ∙ kept.3 s.player in
      (kept.0, known, kept.0.agrees k s e ∙ ap (λ v. v && ltb s.player.faction 3) known)
