-- ===== src/Game/Ai/FullAggresive/Run.antt =====
-- What an aggresive artificial player does in the course of time.
use scalable_cross_platform.Prelude.{
  ℕ, ◌<◌, ◌≡◌, ◌≢◌, refl, ◌∙◌, inl, inr, true, some, List, [], ◌∷◌, ◌==◌, Bool-cases, Option-cases,
  All,
}
use scalable_cross_platform.Prelude.Float.{Float}
use scalable_cross_platform.Prelude.Table.{lookup, contains, insert, erase, keys}
use scalable_cross_platform.Prelude.Table.Laws.{
  lookup_of_contains, contains_of_lookup, contains-erase, contains-insert, insert-Entries,
  erase-Entries,
}
use scalable_cross_platform.Game.Vector
use scalable_cross_platform.Game.Match.{Match}
use scalable_cross_platform.Game.Match.Combat.Safety.{IsPeaceful}
use scalable_cross_platform.Game.Ai.{Draws, is_hostile_near}
use scalable_cross_platform.Game.Ai.Steady.{IsSteady-refl, start-IsSteady}
use scalable_cross_platform.Game.Ai.Seen.{Sees, carried, hostile_other, erased-Sees, inserted-Sees}
use scalable_cross_platform.Game.Ai.FullAggresive.{
  FullAggresiveAi, Result, someone_disappear, attack_cancelled, detected, look_around,
  detect_enemies, update_ai, Event, updated, gone, came, cancelled, happen, happen_all,
}
use scalable_cross_platform.Game.Ai.FullAggresive.Safety.{IsWell, Goes, then-Goes, step-Goes}

module _ (fl : Float) where
  module _ (id : ℕ) where
    look_around-Goes :
        (d : fl.F) (l : List ℕ) (ai : FullAggresiveAi fl) (m : Match fl)
        → contains id m.sessions ≡ true
        → IsPeaceful fl m
        → Sees fl ai.enemy ai.enemy_id m
        → Goes fl id m (look_around fl d id l ai m)
    unfolding look_around
    look_around-Goes d [] ai m c p s = (_, m, refl, IsSteady-refl fl m p, s)
    look_around-Goes d (other ∷ l) ai m c p s =
        let (npc, e) = lookup_of_contains id m.sessions c in
        elim (Option-cases (lookup other m.sessions)) [
          | inl f ↦ rw (e, look_around) (rw (f, look_around) (look_around-Goes d l ai m c p s))
          | inr (t, f) ↦ elim (Bool-cases (is_hostile_near fl npc.player t.player)) [
            | inr b ↦
                rw (e, look_around) (rw (f, look_around) (rw (b) (look_around-Goes d l ai m c p s)))
            | inl b ↦
                let (n, g, same, a) =
                  start-IsSteady fl id m c p other (hostile_other fl id other m npc t e f b) in
                elim (Bool-cases (contains id n.attacks)) [
                  | inl k ↦
                      rw (e, look_around)
                        (rw (f, look_around)
                          (rw (b) (
                            rw (g, look_around)
                              (rw (k) (
                                detected fl other ai,
                                n,
                                refl,
                                a,
                                (refl, a.present other ∙ contains_of_lookup other t m.sessions f),
                              )))))
                  | inr k ↦
                      rw (e, look_around)
                        (rw (f, look_around)
                          (rw (b) (
                            rw (g, look_around)
                              (rw (k) (
                                then-Goes fl id a (
                                  look_around-Goes d l ai n (a.present id ∙ c) a.peaceful
                                    (carried fl ai.enemy ai.enemy_id a s)))))))
                ]
          ]
        ]

    detect_enemies-Goes :
        (d : fl.F) (ai : FullAggresiveAi fl) (m : Match fl)
        → contains id m.sessions ≡ true
        → IsPeaceful fl m
        → Sees fl ai.enemy ai.enemy_id m
        → Goes fl id m (detect_enemies fl d id ai m)
    unfolding detect_enemies
    detect_enemies-Goes d ai m c p s = elim (Option-cases ai.enemy) [
      | inr (e, h) ↦ rw (h, detect_enemies) (ai, m, refl, IsSteady-refl fl m p, s)
      | inl h ↦ elim (Bool-cases (Vector.less_equal fl ai.enemy_detection_timer (fl.lit 0 0))) [
        | inl b ↦
            rw (h, detect_enemies)
              (rw (b) (
                look_around-Goes d (keys m.sessions)
                  (record ai { enemy_detection_timer = fl.lit 15 1 }) m c p s))
        | inr b ↦ rw (h, detect_enemies) (rw (b) (_, m, refl, IsSteady-refl fl m p, s))
      ]
    ]

    update_ai-Goes :
        (draws : Draws fl) (d : fl.F) (ai : FullAggresiveAi fl) (m : Match fl)
        → contains id m.sessions ≡ true
        → IsPeaceful fl m
        → Sees fl ai.enemy ai.enemy_id m
        → Goes fl id m (update_ai fl draws d id ai m)
    unfolding update_ai
    update_ai-Goes draws d ai m c p s =
        let (next, n, e, a, t) = detect_enemies-Goes d ai m c p s in
        rw (e, update_ai)
          (then-Goes fl id a
            (step-Goes fl id n (a.present id ∙ c) a.peaceful next.state draws d next t))

    -- It is not the artificial player itself that goes, and who comes is alive.
    abbrev pub IsAllowed : Event fl → Type 0
    IsAllowed (updated draws d) = Unit
    IsAllowed (gone other) = id ≢ other
    IsAllowed (came other s) = 0 < s.player.hp
    IsAllowed cancelled = Unit

    abbrev Ends : Result fl → Type 0
    Ends o = (ai : FullAggresiveAi fl) × (m : Match fl) × (o ≡ some (ai, m)) × IsWell fl id ai m

    pub happen-Ends :
        (e : Event fl) (ai : FullAggresiveAi fl) (m : Match fl)
        → IsAllowed e
        → IsWell fl id ai m
        → Ends (happen fl id e ai m)
    unfolding happen someone_disappear attack_cancelled
    happen-Ends (updated draws d) ai m h w =
        let (b, n, e, a, t) = update_ai-Goes draws d ai m w.here w.peaceful w.sees in
        (b, n, e, record { here = a.present id ∙ w.here; peaceful = a.peaceful; sees = t })
    happen-Ends (gone k) ai m h w =
        let n : Match fl = record m { sessions = erase k m.sessions } in
        let p : IsPeaceful fl n = record {
          no_self = w.peaceful.no_self;
          alive = erase-Entries (λ i s. 0 < s.player.hp) k m.sessions w.peaceful.alive;
        } in
        let here = contains-erase id k m.sessions h w.here in
        elim (Bool-cases (ai.enemy_id == k)) [
          | inl b ↦ rw (b) (_, n, refl, record { here = here; peaceful = p; sees = tt })
          | inr b ↦ rw (b) (
            ai,
            n,
            refl,
            record {
              here = here;
              peaceful = p;
              sees = erased-Sees fl k ai.enemy ai.enemy_id m n refl b w.sees;
            },
          )
        ]
    happen-Ends (came k v) ai m h w =
        let n : Match fl = record m { sessions = insert k v m.sessions } in
        (
          ai,
          n,
          refl,
          record {
            here = contains-insert id k v m.sessions w.here;
            peaceful = record {
              no_self = w.peaceful.no_self;
              alive = insert-Entries (λ i s. 0 < s.player.hp) k v m.sessions h w.peaceful.alive;
            };
            sees = inserted-Sees fl k v ai.enemy ai.enemy_id m n refl w.sees;
          },
        )
    happen-Ends cancelled ai m h w = (
      _,
      record m { attacks = erase id m.attacks },
      refl,
      record {
        here = w.here;
        peaceful = record {
          no_self = erase-Entries (λ i x. x.attacked ≢ i) id m.attacks w.peaceful.no_self;
          alive = w.peaceful.alive;
        };
        sees = tt;
      },
    )

    -- Let an artificial player be in a peaceful match, and the enemy that it has, if any, be there
    -- under the id that it has noted. Then, however it is updated and whatever it draws, whoever else
    -- goes, each with a notice to it, or comes, alive, and however often its attack is cancelled, it
    -- never uses a session that is gone; and behind all this it is still there, the match is peaceful,
    -- and the enemy that it then has is there under the id that it has noted.
    pub happen_all-IsWell :
        (es : List (Event fl)) (ai : FullAggresiveAi fl) (m : Match fl)
        → All IsAllowed es
        → IsWell fl id ai m
        → (b : FullAggresiveAi fl) × (n : Match fl) × (happen_all fl id es ai m ≡ some (b, n))
          × IsWell fl id b n
    unfolding happen_all
    happen_all-IsWell [] ai m h w = (ai, m, refl, w)
    happen_all-IsWell (e ∷ es) ai m h w =
        let (b, n, f, x) = happen-Ends e ai m h.0 w in
        rw (f, happen_all) (happen_all-IsWell es b n h.1 x)
