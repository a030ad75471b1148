-- ===== src/Conf/Watcher/Reload.antt =====
-- When the configuration in force changes.
use goddd.Conf.Watcher.{
  callbacks_fail, is_after, Bootstrap, Watcher, watch_round, watch_rounds, reload, Round, adopt,
  Callback,
}
use goddd.Common.{
  arith, Option-cases, [], ap, ◌∙◌, ◌⊎◌, Bool-cases, ◌≡◌, Option, List, ◌∷◌, inr, inl, some, none,
  false, true, refl, ℕ,
}

module _ {Runtime Rest : Type 0} (cbs : List (Callback Runtime Rest)) where
  -- What a round may do to the configuration: keep it, or take over what the file parsed as, which
  -- no callback refused, but for its part `Runtime`.
  abbrev pub Changes : Round Runtime Rest → Watcher Runtime Rest → Watcher Runtime Rest → Type 0
  Changes r w v =
      (v.current ≡ w.current)
      ⊎ ((new : Bootstrap Runtime Rest) × (r.parsed ≡ some new)
          × (callbacks_fail cbs w.current new ≡ false)
          × (is_after r.stat w.last_mod ≡ true)
          × (v.current ≡ record { runtime = w.current.runtime; rest = new.rest }))

  adopt_lem :
      (p : Option (Bootstrap Runtime Rest)) (w : Watcher Runtime Rest)
      → ((adopt cbs p w).current ≡ w.current)
        ⊎ ((new : Bootstrap Runtime Rest) × (p ≡ some new)
            × (callbacks_fail cbs w.current new ≡ false)
            × ((adopt cbs p w).current ≡ record { runtime = w.current.runtime; rest = new.rest }))
  unfolding adopt
  adopt_lem none w = inl refl
  adopt_lem (some new) w = elim (Bool-cases (callbacks_fail cbs w.current new)) [
    | inl b ↦ inl (rw b refl)
    | inr b ↦ inr (new, refl, b, rw b refl)
  ]

  reload-none :
      (r : Round Runtime Rest) (w : Watcher Runtime Rest) → r.stat_again ≡ none → reload cbs r w ≡ w
  unfolding reload
  reload-none r w s = ground (arith, s)

  reload-some :
      (r : Round Runtime Rest) (w : Watcher Runtime Rest) (t : ℕ)
      → r.stat_again ≡ some t
      → reload cbs r w ≡ adopt cbs r.parsed (record w { last_mod = t })
  unfolding reload
  reload-some r w t s = ground (arith, s)

  reload_lem :
      (r : Round Runtime Rest) (w : Watcher Runtime Rest)
      → ((reload cbs r w).current ≡ w.current)
        ⊎ ((new : Bootstrap Runtime Rest) × (r.parsed ≡ some new)
            × (callbacks_fail cbs w.current new ≡ false)
            × ((reload cbs r w).current ≡ record { runtime = w.current.runtime; rest = new.rest }))
  unfolding reload
  reload_lem r w = elim (Option-cases r.stat_again) [
    | inl s ↦ inl (ap (λ v. v.current) (reload-none r w s))
    | inr (t, s) ↦
        (let same_step = ap (λ v. v.current) (reload-some r w t s) in
          elim (adopt_lem r.parsed (record w { last_mod = t })) [
            | inl p ↦ inl (same_step ∙ p)
            | inr (new, a, b, p) ↦ inr (new, a, b, same_step ∙ p)
          ])
  ]

  round_reloads :
      (r : Round Runtime Rest) (w : Watcher Runtime Rest)
      → w.returned ≡ false
      → r.done_at_tick ≡ false
      → is_after r.stat w.last_mod ≡ true
      → r.done_in_pause ≡ false
      → watch_round cbs r w ≡ reload cbs r w
  unfolding watch_round
  round_reloads r w b c d e = ground (arith, b, c, d, e)

  -- A round changes the configuration only to what the file parsed as, where the file's time was
  -- later than the last one seen and every callback accepted the change from the configuration that
  -- was in force; and its part `Runtime` stays. Else the configuration stays as it was.
  pub watch_round-Changes :
      (r : Round Runtime Rest) (w : Watcher Runtime Rest) → Changes r w (watch_round cbs r w)
  unfolding watch_round
  watch_round-Changes r w = elim (Bool-cases w.returned) [
    | inl b ↦ rw b (inl refl)
    | inr b ↦ elim (Bool-cases r.done_at_tick) [
      | inl c ↦ rw b (rw c (inl refl))
      | inr c ↦ elim (Bool-cases (is_after r.stat w.last_mod)) [
        | inr d ↦ rw b (rw c (rw d (inl refl)))
        | inl d ↦ elim (Bool-cases r.done_in_pause) [
          | inl e ↦ rw b (rw c (rw d (rw e (inl refl))))
          | inr e ↦ elim (reload_lem r w) [
            | inl p ↦ inl (ap (λ v. v.current) (round_reloads r w b c d e) ∙ p)
            | inr (new, a, f, p) ↦
                inr (new, a, f, d, ap (λ v. v.current) (round_reloads r w b c d e) ∙ p)
          ]
        ]
      ]
    ]
  ]

  -- Over any number of rounds the part `Runtime` is the one that the service started with.
  pub watch_rounds_runtime :
      (rs : List (Round Runtime Rest)) (w : Watcher Runtime Rest)
      → (watch_rounds cbs rs w).current.runtime ≡ w.current.runtime
  unfolding watch_rounds
  watch_rounds_runtime [] w = refl
  watch_rounds_runtime (r ∷ rs) w =
      watch_rounds_runtime rs (watch_round cbs r w) ∙ elim (watch_round-Changes r w) [
        | inl p ↦ ap (λ b. b.runtime) p
        | inr (new, a, b, c, p) ↦ ap (λ b. b.runtime) p
      ]
