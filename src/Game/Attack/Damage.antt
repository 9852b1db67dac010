-- ===== src/Game/Attack/Damage.antt =====
-- What an attack does to the player that it hits.
use scalable_cross_platform.Prelude.{
  ℕ, ◌+◌, ◌-◌, ◌≤◌, ◌<◌, ◌≡◌, ◌≢◌, refl, ap, ◌∙◌, ◌↔◌, ◌⊎◌, inl, inr, Bool, true, false, not, List,
  [], ◌∷◌, arith, ltb, lt→ltb, le→ltb, ◌==◌, ==_iff, if◌then◌else◌, Bool-cases,
}
use mathlib.Core.Path.{subst}
use scalable_cross_platform.Prelude.Float.{Float}
use scalable_cross_platform.Game.Vector
use scalable_cross_platform.Game.Player.{Player}
use scalable_cross_platform.Game.Attack.{
  cancelled, attacked_dead, attacking, AttackCall, send_out_of_range, Hit, take_hp, Attack,
  absorbed, passed, hit_shield, hit, Outcome, go_on, strike, update_attack,
}

module _ (damage shield hp hp_damage : ℕ) where
  take_hp-shield : (take_hp damage shield hp hp_damage).shield_left ≡ shield
  unfolding take_hp
  take_hp-shield = ground arith

  -- Health points stop at 0.
  take_hp-hp : (take_hp damage shield hp hp_damage).hp_left ≡ hp - hp_damage
  unfolding take_hp
  take_hp-hp = ground arith

module _ (fl : Float) (p : Player fl) (damage : ℕ) where
  abbrev soaked : ℕ
  soaked = absorbed fl p damage

  abbrev through : ℕ
  through = passed fl p damage

  hit-partial :
      soaked < p.shield → hit fl p damage ≡ take_hp damage (p.shield - soaked) p.hp through
  unfolding hit hit_shield
  hit-partial h = rw (lt→ltb soaked p.shield h, lt→ltb 0 p.shield (omega (arith, h)))

  hit-broken :
      0 < p.shield
      → p.shield < soaked
      → hit fl p damage ≡ take_hp damage 0 p.hp (through + (soaked - p.shield))
  unfolding hit hit_shield
  hit-broken g h =
      rw (le→ltb soaked p.shield (omega (arith, h)), lt→ltb 0 p.shield g, lt→ltb p.shield soaked h)

  hit-exact : 0 < p.shield → p.shield ≡ soaked → hit fl p damage ≡ take_hp damage 0 p.hp damage
  unfolding hit hit_shield
  hit-exact g h = rw (
    le→ltb soaked p.shield (omega (arith, h)),
    lt→ltb 0 p.shield g,
    le→ltb p.shield soaked (omega (arith, h)),
  )

  hit-bare : p.shield ≡ 0 → hit fl p damage ≡ take_hp damage 0 p.hp damage
  unfolding hit
  hit-bare h = rw (le→ltb 0 p.shield (omega (arith, h)))

  hit-cases :
      (p.shield ≡ 0)
      ⊎ ((0 < p.shield) × (soaked < p.shield))
      ⊎ ((0 < p.shield) × (p.shield < soaked))
      ⊎ ((0 < p.shield) × (p.shield ≡ soaked))
  hit-cases = omega arith

  hit_lowers : ((hit fl p damage).shield_left ≤ p.shield) × ((hit fl p damage).hp_left ≤ p.hp)
  hit_lowers = elim hit-cases [
    | inl z ↦
        rw (hit-bare z, take_hp-shield damage 0 p.hp damage, take_hp-hp damage 0 p.hp damage)
          (omega arith)
    | inr (inl (g, h)) ↦
        rw
          (
            hit-partial h,
            take_hp-shield damage (p.shield - soaked) p.hp through,
            take_hp-hp damage (p.shield - soaked) p.hp through,
          )
          (omega arith)
    | inr (inr (inl (g, h))) ↦
        rw
          (
            hit-broken g h,
            take_hp-shield damage 0 p.hp (through + (soaked - p.shield)),
            take_hp-hp damage 0 p.hp (through + (soaked - p.shield)),
          )
          (omega arith)
    | inr (inr (inr (g, h))) ↦
        rw (hit-exact g h, take_hp-shield damage 0 p.hp damage, take_hp-hp damage 0 p.hp damage)
          (omega arith)
  ]

  pub hit_total :
      0 < p.shield
      → p.shield ≢ soaked
      → 0 < (hit fl p damage).hp_left
      → (hit fl p damage).shield_left + (hit fl p damage).hp_left + (soaked + through)
        ≡ p.shield + p.hp
  hit_total g n s = elim hit-cases [
    | inl z ↦ absurd (omega (arith, z, g))
    | inr (inl (g, h)) ↦ omega (
      arith,
      s,
      h,
      ap (λ (x : Hit). x.shield_left) (hit-partial h),
      ap (λ (x : Hit). x.hp_left) (hit-partial h),
      take_hp-shield damage (p.shield - soaked) p.hp through,
      take_hp-hp damage (p.shield - soaked) p.hp through,
    )
    | inr (inr (inl (g, h))) ↦ omega (
      arith,
      s,
      h,
      ap (λ (x : Hit). x.shield_left) (hit-broken g h),
      ap (λ (x : Hit). x.hp_left) (hit-broken g h),
      take_hp-shield damage 0 p.hp (through + (soaked - p.shield)),
      take_hp-hp damage 0 p.hp (through + (soaked - p.shield)),
    )
    | inr (inr (inr (g, h))) ↦ absurd (n h)
  ]

  -- A player with a shield above 0 who survives a hit has lost, of shield and health points together,
  -- what the shield soaks up and what passes through, unless the hit uses up the shield exactly and
  -- something else than the whole damage passes through; and then he has not.
  pub hit_conserves :
      0 < p.shield
      → 0 < (hit fl p damage).hp_left
      → ((hit fl p damage).shield_left + (hit fl p damage).hp_left + (soaked + through)
          ≡ p.shield + p.hp)
        ↔ ((p.shield ≢ soaked) ⊎ (through ≡ damage))
  hit_conserves g s = elim hit-cases [
    | inl z ↦ absurd (omega (arith, z, g))
    | inr (inl (_, h)) ↦
        let n : p.shield ≢ soaked = λ x. omega (arith, h, x) in (λ e. inl n, λ x. hit_total g n s)
    | inr (inr (inl (_, h))) ↦
        let n : p.shield ≢ soaked = λ x. omega (arith, h, x) in (λ e. inl n, λ x. hit_total g n s)
    | inr (inr (inr (_, h))) ↦
        let a : (hit fl p damage).shield_left ≡ 0 =
          ap (λ (x : Hit). x.shield_left) (hit-exact g h) ∙ take_hp-shield damage 0 p.hp damage in
        let b : (hit fl p damage).hp_left ≡ p.hp - damage =
          ap (λ (x : Hit). x.hp_left) (hit-exact g h) ∙ take_hp-hp damage 0 p.hp damage in
        (
          λ e. inr (omega (arith, e, a, b, h, s)),
          λ x. elim x [ inl n ↦ absurd (n h) | inr t ↦ omega (arith, a, b, h, s, t) ],
        )
  ]

module _ (fl : Float) where
  -- A whole update: nobody gains, and the attacked player is reported dead when no health point is
  -- left and otherwise is as before or has some left.
  pub record IsFair (p : Player fl) (o : Outcome fl) : Type 0 where
    pub no_shield_gained : o.attacked.shield ≤ p.shield
    pub no_hp_gained : o.attacked.hp ≤ p.hp
    pub verdict :
        ((o.result ≡ attacked_dead) × (o.attacked.hp ≡ 0))
        ⊎ ((o.result ≢ attacked_dead) × ((o.attacked ≡ p) ⊎ (0 < o.attacked.hp)))

  module _ (a : Attack fl) (delta : fl.F) (p : Player fl) where
    attacking-ne : attacking ≢ attacked_dead
    attacking-ne = λ e.
        subst (λ r. elim r [ cancelled ↦ Unit {0} | attacked_dead ↦ ⊥ | attacking ↦ Unit {0} ]) e tt

    cancelled-ne : cancelled ≢ attacked_dead
    cancelled-ne = λ e.
        subst (λ r. elim r [ cancelled ↦ Unit {0} | attacked_dead ↦ ⊥ | attacking ↦ Unit {0} ]) e tt

    go_on-IsFair : (calls : List AttackCall) → IsFair p (go_on fl a delta p calls)
    unfolding go_on
    go_on-IsFair calls = record {
      no_shield_gained = omega arith;
      no_hp_gained = omega arith;
      verdict = inr (attacking-ne, inl refl);
    }

    strike-IsFair : (damage : ℕ) → IsFair p (strike fl a delta p damage)
    unfolding strike go_on
    strike-IsFair damage = elim (Bool-cases ((hit fl p damage).hp_left == 0)) [
      | inl z ↦ rw z (record {
        no_shield_gained = (hit_lowers fl p damage).0;
        no_hp_gained = (hit_lowers fl p damage).1;
        verdict = inl (refl, (==_iff (hit fl p damage).hp_left 0).0 z);
      })
      | inr z ↦ rw z (record {
        no_shield_gained = (hit_lowers fl p damage).0;
        no_hp_gained = (hit_lowers fl p damage).1;
        verdict = inr (attacking-ne, inr (positive z));
      })
    ]
      where
        positive : ((hit fl p damage).hp_left == 0) ≡ false → 0 < (hit fl p damage).hp_left
        positive z = ground arith

  -- Whatever is drawn, however far the players are from each other and whatever time has passed, an
  -- update of an attack gives the attacked player neither shield nor health points; it reports him
  -- dead only with no health point left, and if it does not, he is as he was or has some left.
  pub update_attack-IsFair :
      (chance drawn : ℕ) (pvp : Bool) (a : Attack fl) (attacker p : Player fl) (time_difference : ℕ)
      → IsFair p (update_attack fl chance drawn pvp a attacker p time_difference)
  unfolding update_attack
  update_attack-IsFair chance drawn pvp a attacker p t =
      go (Vector.less_equal fl a.timer (fl.lit 0 0))
        (Vector.less_equal fl (Vector.distance fl attacker.position p.position) a.radius) pvp
    where
      delta : fl.F
      delta = fl.div (fl.of_ℕ t) (fl.lit 1000 0)

      go :
          (due near fights : Bool)
          → IsFair p (
              if due
              then (if near
                  then (if not fights
                      then record { attack = a; attacked = p; calls = []; result = cancelled }
                      else strike fl a delta p (if ltb chance 20 then 0 else drawn))
                  else go_on fl (record a { timer = a.time }) delta p (send_out_of_range ∷ []))
              else go_on fl a delta p [])
      go false near fights = go_on-IsFair a delta p []
      go true false fights =
          go_on-IsFair (record a { timer = a.time }) delta p (send_out_of_range ∷ [])
      go true true true = strike-IsFair a delta p (if ltb chance 20 then 0 else drawn)
      go true true false = record {
        no_shield_gained = omega arith;
        no_hp_gained = omega arith;
        verdict = inr (cancelled-ne a delta p, inl refl);
      }
