-- ===== src/Game/Area/Protection.antt =====
-- Who is protected by a demilitarized area.
use scalable_cross_platform.Prelude.{
  ℕ, ◌≡◌, ◌≢◌, refl, sym, ap, ◌∙◌, inl, inr, Bool, true, false, ◌&&◌, none, some, List, [], ◌∷◌,
  ◌==◌, if◌then◌else◌, ltb, Bool-cases, Option-cases, ==_iff, ==_refl, arith,
}
use mathlib.Core.Path.{subst}
use mathlib.Core.Bool.{true≢false}
use mathlib.Core.Option.{some-injective, none-ne-some}
use scalable_cross_platform.Prelude.Float.{Float}
use scalable_cross_platform.Prelude.Table.{lookup, contains, insert, erase, modify}
use scalable_cross_platform.Prelude.Table.Laws.{contains-modify, lookup-modify, lookup-modify_other}
use scalable_cross_platform.Game.Player.{Player}
use scalable_cross_platform.Game.Aura.{
  aura_id, demilitarized_protection, add_internal_aura, remove_internal_aura,
}
use scalable_cross_platform.Game.Match.{Session, Match, with_session}
use scalable_cross_platform.Game.Area.{Area, protect, unprotect, is_inside, visit}

module _ {ℓ} {V : Type ℓ} where
  pub contains-insert_here : (k : ℕ) (v : V) (m : List (ℕ × V)) → contains k (insert k v m) ≡ true
  unfolding contains insert
  contains-insert_here k v [] = rw (==_refl k)
  contains-insert_here k v ((j, w) ∷ m) = elim (Bool-cases (j == k)) [
    | inl e ↦ rw (e) (rw (e) refl)
    | inr e ↦ rw (e) (rw (e) (contains-insert_here k v m))
  ]

  contains-erase_here : (k : ℕ) (m : List (ℕ × V)) → contains k (erase k m) ≡ false
  unfolding contains erase
  contains-erase_here k [] = refl
  contains-erase_here k ((j, w) ∷ m) = elim (Bool-cases (j == k)) [
    | inl e ↦ rw (e) (contains-erase_here k m)
    | inr e ↦ rw (e) (rw (e) (contains-erase_here k m))
  ]

  contains-insert_other :
      (k j : ℕ) (v : V) (m : List (ℕ × V)) → k ≢ j → contains k (insert j v m) ≡ contains k m
  unfolding contains insert
  contains-insert_other k j v [] h = let f : (j == k) ≡ false = ground (arith, h) in rw (f) refl
  contains-insert_other k j v ((i, w) ∷ m) h = elim (Bool-cases (i == j)) [
    | inl e ↦ rw (e) refl
    | inr e ↦ rw (e) (ap (if◌then◌else◌ (i == k) true) (contains-insert_other k j v m h))
  ]

  contains-erase_other :
      (k j : ℕ) (m : List (ℕ × V)) → k ≢ j → contains k (erase j m) ≡ contains k m
  unfolding contains erase
  contains-erase_other k j [] h = refl
  contains-erase_other k j ((i, w) ∷ m) h = elim (Bool-cases (i == j)) [
    | inl e ↦
        let f : (i == k) ≡ false = ground (arith, e, h) in
        rw (e) (rw (f) (contains-erase_other k j m h))
    | inr e ↦ rw (e) (ap (if◌then◌else◌ (i == k) true) (contains-erase_other k j m h))
  ]

module _ (fl : Float) where
  -- Whether a session carries the protection.
  abbrev pub is_protected : Session fl → Bool
  is_protected s = contains 1 s.auras

  -- A session that is on an area, or not, and is protected if it is and its faction is below 3.
  abbrev pub Agrees : ℕ → Area fl → Session fl → Type 0
  Agrees id a s = is_protected s ≡ (contains id a.sessions_on_area && ltb s.player.faction 3)

  pub record IsGuarded (a : Area fl) (m : Match fl) : Type 0 where
    pub agrees : (id : ℕ) (s : Session fl) → lookup id m.sessions ≡ some s → Agrees id a s

  protect-eq :
      (s : Session fl)
      → is_protected s ≡ false
      → is_protected (protect fl s) ≡ ltb s.player.faction 3
  unfolding protect add_internal_aura aura_id
  protect-eq s h = elim (Bool-cases (ltb s.player.faction 3)) [
    | inl b ↦ rw (b) (contains-insert_here 1 demilitarized_protection s.auras)
    | inr b ↦ rw (b) h
  ]

  pub protect-player : (s : Session fl) → (protect fl s).player ≡ s.player
  unfolding protect
  protect-player s = elim (Bool-cases (ltb s.player.faction 3)) [
    | inl b ↦ rw (b) refl
    | inr b ↦ rw (b) refl
  ]

  unprotect-eq : (s : Session fl) → is_protected (unprotect fl s) ≡ false
  unfolding unprotect remove_internal_aura
  unprotect-eq s = contains-erase_here 1 s.auras

  pub unprotect-player : (s : Session fl) → (unprotect fl s).player ≡ s.player
  unfolding unprotect
  unprotect-player s = refl

  -- The area knows of a session whether it is inside.
  abbrev pub Knows : ℕ → Area fl × Match fl → Type 0
  Knows k r =
      (s : Session fl)
      → lookup k r.1.sessions ≡ some s
      → contains k r.0.sessions_on_area ≡ is_inside fl r.0 s.player

  -- What is kept up by each round.
  abbrev pub Kept : Area fl × Match fl → Area fl × Match fl → Type 0
  Kept r q =
      IsGuarded q.0 q.1
      × ((k : ℕ) → Knows k r → Knows k q)
      × ((k : ℕ) → contains k q.1.sessions ≡ contains k r.1.sessions)
      × ((p : Player fl) → is_inside fl q.0 p ≡ is_inside fl r.0 p)

  -- A change of one session, and of what the area knows of it.
  module _ (id : ℕ) (s : Session fl) (a : Area fl) (m : Match fl)
      (e : lookup id m.sessions ≡ some s) (g : IsGuarded a m) (f : Session fl → Session fl)
      (on : List (ℕ × Bool)) where
    abbrev changed_area : Area fl
    changed_area = record a { sessions_on_area = on }

    here : (t : Session fl) → lookup id (modify id f m.sessions) ≡ some t → f s ≡ t
    here t h = some-injective (f s) t (sym (lookup-modify id f s m.sessions e) ∙ h)

    changed-Knows :
        contains id on ≡ is_inside fl changed_area (f s).player
        → Knows id (changed_area, with_session fl id f m)
    changed-Knows x t h = x ∙ ap (λ (y : Session fl). is_inside fl changed_area y.player) (here t h)

    changed-Kept :
        ((k : ℕ) → k ≢ id → contains k on ≡ contains k a.sessions_on_area)
        → Agrees id changed_area (f s)
        → contains id on ≡ is_inside fl changed_area (f s).player
        → Kept (a, m) (changed_area, with_session fl id f m)
    unfolding is_inside
    changed-Kept others x y = (
      record { agrees = λ k t h. agreeing k t h },
      λ k z t h. elim (Bool-cases (k == id)) [
        | inl b ↦
            let same = (==_iff k id).0 b in
            ap (λ v. contains v on) same
            ∙ changed-Knows y t (sym (ap (λ v. lookup v (modify id f m.sessions)) same) ∙ h)
        | inr b ↦
            let n = differs k b in
            others k n ∙ z t (sym (lookup-modify_other k id f m.sessions n) ∙ h)
      ],
      λ k. contains-modify k id f m.sessions,
      λ p. refl,
    )
      where
        differs : (k : ℕ) → (k == id) ≡ false → k ≢ id
        differs k b n = true≢false (sym ((==_iff k id).1 n) ∙ b)

        agreeing :
            (k : ℕ) (t : Session fl)
            → lookup k (modify id f m.sessions) ≡ some t
            → Agrees k changed_area t
        agreeing k t h = elim (Bool-cases (k == id)) [
          | inl b ↦
              let same = (==_iff k id).0 b in
              subst (λ v. Agrees v changed_area t) (sym same)
                (subst (Agrees id changed_area)
                  (here t (sym (ap (λ v. lookup v (modify id f m.sessions)) same) ∙ h)) x)
          | inr b ↦
              let n = differs k b in
              g.agrees k t (sym (lookup-modify_other k id f m.sessions n) ∙ h)
              ∙ ap (λ v. v && ltb t.player.faction 3) (sym (others k n))
        ]

  module _ (id : ℕ) (a : Area fl) (m : Match fl) (g : IsGuarded a m) where
    pub same-Kept : Kept (a, m) (a, m)
    same-Kept = (g, (λ k z. z), (λ k. refl), λ p. refl)

    abbrev Done : Area fl × Match fl → Type 0
    Done q = Kept (a, m) q × Knows id q

    visit_absent : lookup id m.sessions ≡ none → visit fl id (a, m) ≡ (a, m)
    unfolding visit
    visit_absent e = rw (e, visit) refl

    module _ (s : Session fl) (e : lookup id m.sessions ≡ some s) where
      visit_stay :
          is_inside fl a s.player ≡ contains id a.sessions_on_area → visit fl id (a, m) ≡ (a, m)
      unfolding visit
      visit_stay b = elim (Bool-cases (contains id a.sessions_on_area)) [
        | inl c ↦ rw (e, visit) (rw (b) (rw (c) refl))
        | inr c ↦ rw (e, visit) (rw (b) (rw (c) refl))
      ]

      visit_enter :
          is_inside fl a s.player ≡ true
          → contains id a.sessions_on_area ≡ false
          → visit fl id (a, m) ≡ (
            record a { sessions_on_area = insert id true a.sessions_on_area },
            with_session fl id (protect fl) m,
          )
      unfolding visit
      visit_enter b c = rw (e, visit) (rw (b) (rw (c) refl))

      visit_exit :
          is_inside fl a s.player ≡ false
          → contains id a.sessions_on_area ≡ true
          → visit fl id (a, m) ≡ (
            record a { sessions_on_area = erase id a.sessions_on_area },
            with_session fl id (unprotect fl) m,
          )
      unfolding visit
      visit_exit b c = rw (e, visit) (rw (b) (rw (c) refl))

      stay_known : is_inside fl a s.player ≡ contains id a.sessions_on_area → Knows id (a, m)
      stay_known b t h =
          sym b ∙ ap (λ (x : Session fl). is_inside fl a x.player) (some-injective s t (sym e ∙ h))

      entered_Done :
          is_inside fl a s.player ≡ true
          → contains id a.sessions_on_area ≡ false
          → Done (
            record a { sessions_on_area = insert id true a.sessions_on_area },
            with_session fl id (protect fl) m,
          )
      unfolding is_inside
      entered_Done b c =
          let on = insert id true a.sessions_on_area in
          let in_ = contains-insert_here id true a.sessions_on_area in
          let unprotected : is_protected s ≡ false =
            g.agrees id s e ∙ ap (λ v. v && ltb s.player.faction 3) c in
          let agree =
            protect-eq s unprotected
            ∙ ap (λ (p : Player fl). ltb p.faction 3) (sym (protect-player s))
            ∙ ap (λ v. v && ltb (protect fl s).player.faction 3) (sym in_) in
          let known = in_ ∙ sym b ∙ ap (is_inside fl a) (sym (protect-player s)) in
          (
            changed-Kept id s a m e g (protect fl) on
                (λ k n. contains-insert_other k id true a.sessions_on_area n) agree known,
            changed-Knows id s a m e g (protect fl) on known,
          )

      exited_Done :
          is_inside fl a s.player ≡ false
          → contains id a.sessions_on_area ≡ true
          → Done (
            record a { sessions_on_area = erase id a.sessions_on_area },
            with_session fl id (unprotect fl) m,
          )
      unfolding is_inside
      exited_Done b c =
          let on = erase id a.sessions_on_area in
          let out = contains-erase_here id a.sessions_on_area in
          let agree =
            unprotect-eq s ∙ ap (λ v. v && ltb (unprotect fl s).player.faction 3) (sym out) in
          let known = out ∙ sym b ∙ ap (is_inside fl a) (sym (unprotect-player s)) in
          (
            changed-Kept id s a m e g (unprotect fl) on
                (λ k n. contains-erase_other k id a.sessions_on_area n) agree known,
            changed-Knows id s a m e g (unprotect fl) on known,
          )

    -- A round.
    pub visit-Done : Done (visit fl id (a, m))
    visit-Done = elim (Option-cases (lookup id m.sessions)) [
      | inl e ↦
          subst Done (sym (visit_absent e)) (same-Kept, λ s h. absurd (none-ne-some s (sym e ∙ h)))
      | inr (s, e) ↦ elim (Bool-cases (is_inside fl a s.player)) [
        | inl b ↦ elim (Bool-cases (contains id a.sessions_on_area)) [
          | inl c ↦
              subst Done (sym (visit_stay s e (b ∙ sym c))) (same-Kept, stay_known s e (b ∙ sym c))
          | inr c ↦ subst Done (sym (visit_enter s e b c)) (entered_Done s e b c)
        ]
        | inr b ↦ elim (Bool-cases (contains id a.sessions_on_area)) [
          | inl c ↦ subst Done (sym (visit_exit s e b c)) (exited_Done s e b c)
          | inr c ↦
              subst Done (sym (visit_stay s e (b ∙ sym c))) (same-Kept, stay_known s e (b ∙ sym c))
        ]
      ]
    ]
