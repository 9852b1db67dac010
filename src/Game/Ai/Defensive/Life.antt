-- ===== src/Game/Ai/Defensive/Life.antt =====
-- A defensive artificial player that is told of every session that goes never uses one that is gone.
use scalable_cross_platform.Prelude.{
  ℕ, ◌<◌, ◌≡◌, ◌≢◌, refl, ◌∙◌, inl, inr, true, Option, some, List, [], ◌∷◌, ◌==◌, Bool-cases, All,
}
use scalable_cross_platform.Prelude.Float.{Float}
use scalable_cross_platform.Prelude.Table.{contains, insert, erase}
use scalable_cross_platform.Prelude.Table.Laws.{
  contains-erase, contains-insert, insert-Entries, erase-Entries,
}
use scalable_cross_platform.Game.Match.{Match}
use scalable_cross_platform.Game.Match.Combat.Safety.{IsPeaceful}
use scalable_cross_platform.Game.Ai.Steady.{IsSteady}
use scalable_cross_platform.Game.Ai.Seen.{Sees, carried, erased-Sees, inserted-Sees}
use scalable_cross_platform.Game.Ai.Defensive.{
  DefensiveAi, Result, someone_disappear, attack_cancelled, forget,
}
use scalable_cross_platform.Game.Ai.Defensive.States.{
  Event, updated, attacked, gone, came, cancelled, happen, happen_all,
}
use scalable_cross_platform.Game.Ai.Defensive.Safety.{HasNoted, Goes}
use scalable_cross_platform.Game.Ai.Defensive.Run.{update_ai-Goes, someone_attacks-Goes}

module _ (fl : Float) (id : ℕ) where
  pub record IsReady (ai : DefensiveAi fl) (m : Match fl) : Type 0 where
    pub here : contains id m.sessions ≡ true
    pub peaceful : IsPeaceful fl m
    pub noted : HasNoted fl ai m

  -- It is not the artificial player itself that goes or attacks, and who comes is alive.
  abbrev pub IsAllowed : Event fl → Type 0
  IsAllowed (updated draws d) = Unit
  IsAllowed (attacked other) = id ≢ other
  IsAllowed (gone other) = id ≢ other
  IsAllowed (came other s) = 0 < s.player.hp
  IsAllowed cancelled = Unit

  abbrev Ends : Result fl → Type 0
  Ends o = (ai : DefensiveAi fl) × (m : Match fl) × (o ≡ some (ai, m)) × IsReady ai m

  went : (m : Match fl) (c : contains id m.sessions ≡ true) (o : Result fl) → Goes fl m o → Ends o
  went m c o (b, n, e, a, t) =
      (b, n, e, record { here = a.present id ∙ c; peaceful = a.peaceful; noted = t })

  -- Who goes is forgotten.
  forgotten-Sees :
      (k : ℕ) (o : Option ℕ) (i : ℕ) (m : Match fl)
      → Sees fl o i m
      → Sees fl (forget fl i o k) i (record m { sessions = erase k m.sessions })
  forgotten-Sees k o i m s = elim (Bool-cases (i == k)) [
    | inl b ↦ rw (b) tt
    | inr b ↦ rw (b) (erased-Sees fl k o i m (record m { sessions = erase k m.sessions }) refl b s)
  ]

  happen-Ends :
      (e : Event fl) (ai : DefensiveAi fl) (m : Match fl)
      → IsAllowed e
      → IsReady ai m
      → Ends (happen fl id e ai m)
  unfolding happen someone_disappear attack_cancelled
  happen-Ends (updated draws d) ai m h w =
      went m w.here _ (update_ai-Goes fl id draws d ai m w.here w.peaceful w.noted)
  happen-Ends (attacked k) ai m h w = elim (Bool-cases (contains k m.sessions)) [
    | inl b ↦
        rw (b) (went m w.here _ (someone_attacks-Goes fl id k ai m h b w.here w.peaceful w.noted))
    | inr b ↦ rw (b) (ai, m, refl, w)
  ]
  happen-Ends (gone k) ai m h w = (
    _,
    record m { sessions = erase k m.sessions },
    refl,
    record {
      here = contains-erase id k m.sessions h w.here;
      peaceful = record {
        no_self = w.peaceful.no_self;
        alive = erase-Entries (λ i s. 0 < s.player.hp) k m.sessions w.peaceful.alive;
      };
      noted = record {
        the_enemy = forgotten-Sees k ai.enemy ai.enemy_id m w.noted.the_enemy;
        the_target = forgotten-Sees k ai.target ai.target_id m w.noted.the_target;
      };
    },
  )
  happen-Ends (came k v) ai m h w =
      let n : Match fl = record m { sessions = insert k v m.sessions } in
      (
        ai,
        n,
        refl,
        record {
          here = contains-insert id k v m.sessions w.here;
          peaceful = record {
            no_self = w.peaceful.no_self;
            alive = insert-Entries (λ i s. 0 < s.player.hp) k v m.sessions h w.peaceful.alive;
          };
          noted = record {
            the_enemy = inserted-Sees fl k v ai.enemy ai.enemy_id m n refl w.noted.the_enemy;
            the_target = inserted-Sees fl k v ai.target ai.target_id m n refl w.noted.the_target;
          };
        },
      )
  happen-Ends cancelled ai m h w =
      let n : Match fl = record m { attacks = erase id m.attacks } in
      let p : IsPeaceful fl n = record {
        no_self = erase-Entries (λ i x. x.attacked ≢ i) id m.attacks w.peaceful.no_self;
        alive = w.peaceful.alive;
      } in
      let a : IsSteady fl m n = record { present = λ k. refl; peaceful = p } in
      (
        _,
        n,
        refl,
        record {
          here = w.here;
          peaceful = p;
          noted = record {
            the_enemy = tt;
            the_target = carried fl ai.target ai.target_id a w.noted.the_target;
          };
        },
      )

  -- Let an artificial player be in a peaceful match, and its enemy and its target, if it has any, be
  -- there under the ids that it has noted. Then, however it is updated and whatever it draws, whoever
  -- else attacks it, whoever else goes, each with a notice to it, or comes, alive, and however often its
  -- attack is cancelled, it never uses a session that is gone; and behind all this it is still there,
  -- the match is peaceful, and the enemy and the target that it then has are there under the ids that
  -- it has noted.
  pub happen_all-IsReady :
      (es : List (Event fl)) (ai : DefensiveAi fl) (m : Match fl)
      → All IsAllowed es
      → IsReady ai m
      → (b : DefensiveAi fl) × (n : Match fl) × (happen_all fl id es ai m ≡ some (b, n))
        × IsReady b n
  unfolding happen_all
  happen_all-IsReady [] ai m h w = (ai, m, refl, w)
  happen_all-IsReady (e ∷ es) ai m h w =
      let (b, n, f, x) = happen-Ends e ai m h.0 w in
      rw (f, happen_all) (happen_all-IsReady es b n h.1 x)
