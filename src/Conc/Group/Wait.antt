-- ===== src/Conc/Group/Wait.antt =====
-- What a caller may know who has waited.
use goddd.Conc.Group.{
  Waiter, is_called, not_called, call_wait, calls_wait, waiting, got_error, new_group, cancels,
  returns_wait, runs, got_nil, selects, ends, go_run, wait_returns, act, select_once, returns, run,
  panics, Action, Ending, recovered, end_task, Group,
}
use goddd.Common.{
  ◌&&◌, sym, ◌∙◌, ◌-◌, length-append, suc, ◌≢◌, ◌==◌, Bool, ◌⊎◌, arith, Bool-cases, inr, inl, false,
  true, ap, ◌+◌, [], ◌++◌, length, ◌≡◌, List, ◌∷◌, refl,
}

is_called_lem : (w : Waiter) → is_called w ≡ true → w ≢ not_called
unfolding is_called
is_called_lem not_called t = ground arith
is_called_lem waiting t = λ e. cc
is_called_lem got_nil t = λ e. cc
is_called_lem got_error t = λ e. cc

module _ {Err : Type 0} where
  abbrev pub panics_of : List (Ending Err) → List Err
  panics_of [] = []
  panics_of (returns ∷ hs) = panics_of hs
  panics_of (panics e ∷ hs) = e ∷ panics_of hs

  -- Each task that was started has ended or is counted, and each panic was traced.
  abbrev pub IsCounted : Group Err → Type 0
  IsCounted g =
      (g.started ≡ length g.ended + g.counter)
      × (g.counter ≡ g.running)
      × (g.traced ≡ panics_of g.ended)

  panics_of-append :
      (hs : List (Ending Err)) (h : Ending Err)
      → panics_of (hs ++ (h ∷ [])) ≡ panics_of hs ++ recovered h
  unfolding recovered
  panics_of-append [] returns = refl
  panics_of-append [] (panics e) = refl
  panics_of-append (returns ∷ hs) h = panics_of-append hs h
  panics_of-append (panics e ∷ hs) h = ap (◌∷◌ e) (panics_of-append hs h)

  end_task-IsCounted : (h : Ending Err) (g : Group Err) → IsCounted g → IsCounted (end_task h g)
  unfolding end_task
  end_task-IsCounted h g i = elim (Bool-cases (g.running == 0)) [
    | inl b ↦ rw b i
    | inr b ↦ rw b (
      rw (length-append g.ended (h ∷ [])) (ground (arith, i.0, i.1, b)),
      ap (λ n. n - 1) i.1,
      ap (λ es. es ++ recovered h) i.2 ∙ sym (panics_of-append g.ended h),
    )
  ]

  wait_returns-IsCounted : (g : Group Err) → IsCounted g → IsCounted (wait_returns g)
  unfolding wait_returns
  wait_returns-IsCounted g i = elim (Bool-cases (g.counter == 0 && is_called g.waiter)) [
    | inl b ↦ rw b i
    | inr b ↦ rw b i
  ]

  call_wait-keeps :
      (g : Group Err)
      → ((call_wait g).counter ≡ g.counter)
        × ((call_wait g).running ≡ g.running)
        × ((call_wait g).traced ≡ g.traced)
        × ((call_wait g).started ≡ g.started)
        × ((call_wait g).ended ≡ g.ended)
        × ((call_wait g).done ≡ g.done)
  unfolding call_wait
  call_wait-keeps g = ground arith

  select_once-keeps :
      (d : Bool) (g : Group Err)
      → ((select_once d g).counter ≡ g.counter)
        × ((select_once d g).running ≡ g.running)
        × ((select_once d g).traced ≡ g.traced)
        × ((select_once d g).started ≡ g.started)
        × ((select_once d g).ended ≡ g.ended)
        × ((select_once d g).done ≡ g.done)
  unfolding select_once
  select_once-keeps d g = ground arith

  -- A step that changes none of what is counted.
  keeps-IsCounted :
      (g h : Group Err)
      → h.counter ≡ g.counter
      → h.running ≡ g.running
      → h.traced ≡ g.traced
      → h.started ≡ g.started
      → h.ended ≡ g.ended
      → IsCounted g
      → IsCounted h
  keeps-IsCounted g h c r t s e i = (
    s ∙ i.0 ∙ ap (λ c. length g.ended + c) (sym c) ∙ ap (λ es. length es + h.counter) (sym e),
    c ∙ i.1 ∙ sym r,
    t ∙ i.2 ∙ ap panics_of (sym e),
  )

  act-IsCounted : (a : Action Err) (g : Group Err) → IsCounted g → IsCounted (act a g)
  unfolding act go_run
  act-IsCounted runs g i = (ground (arith, i.0), ap suc i.1, i.2)
  act-IsCounted (ends h) g i = end_task-IsCounted h g i
  act-IsCounted returns_wait g i = wait_returns-IsCounted g i
  act-IsCounted calls_wait g i =
      let k = call_wait-keeps g in keeps-IsCounted g (call_wait g) k.0 k.1 k.2 k.3 k.4 i
  act-IsCounted (selects d) g i =
      let k = select_once-keeps d g in keeps-IsCounted g (select_once d g) k.0 k.1 k.2 k.3 k.4 i
  act-IsCounted cancels g i = i

  run-IsCounted : (acts : List (Action Err)) (g : Group Err) → IsCounted g → IsCounted (run acts g)
  unfolding run
  run-IsCounted [] g i = i
  run-IsCounted (a ∷ acts) g i = run-IsCounted acts (act a g) (act-IsCounted a g i)

  end_task-done : (h : Ending Err) (g : Group Err) → (end_task h g).done ≡ g.done
  unfolding end_task
  end_task-done h g = ground arith

  -- An open channel that `Wait` closes: the caller waits, and the counter is at zero.
  wait_returns_closes :
      (g : Group Err)
      → g.done ≡ false
      → (wait_returns g).done ≡ true
      → (g.waiter ≢ not_called) × (g.counter ≡ 0)
  unfolding wait_returns
  wait_returns_closes g f t = elim (Bool-cases (is_called g.waiter)) [
    | inl c ↦ (is_called_lem g.waiter c, ground (arith, c, f, t))
    | inr c ↦ ground (arith, c, f, t)
  ]

  -- The channel is closed by a `Wait` of the caller that found the counter at zero.
  act_closes :
      (a : Action Err) (g : Group Err)
      → g.done ≡ false
      → (act a g).done ≡ true
      → (a ≡ returns_wait) × (g.waiter ≢ not_called) × (g.counter ≡ 0)
  unfolding act go_run
  act_closes runs g f t = absurd (let u = t in cc)
  act_closes (ends h) g f t = absurd (let k = end_task-done h g in cc)
  act_closes calls_wait g f t = absurd (let k = (call_wait-keeps g).5 in cc)
  act_closes returns_wait g f t =
      let (called, zero) = wait_returns_closes g f t in (refl, called, zero)
  act_closes (selects d) g f t = absurd (let k = (select_once-keeps d g).5 in cc)
  act_closes cancels g f t = absurd (let u = t in cc)

  -- `Wait` returned in the run and closed the channel: the caller had called by then, and the counter was
  -- at zero.
  abbrev Closed : List (Action Err) → Group Err → Type 0
  Closed acts g =
      (before after : List (Action Err)) × (acts ≡ before ++ (returns_wait ∷ after))
      × ((run before g).done ≡ false)
      × ((run before g).waiter ≢ not_called)
      × ((run before g).counter ≡ 0)

  run-Closed :
      (acts : List (Action Err)) (g : Group Err)
      → g.done ≡ false
      → (run acts g).done ≡ true
      → Closed acts g
  unfolding run
  run-Closed [] g f t = absurd cc
  run-Closed (a ∷ acts) g f t = elim (Bool-cases (act a g).done) [
    | inl b ↦
        (let (is_wait, called, zero_then) = act_closes a g f b in
          ([], acts, ap (λ x. x ∷ acts) is_wait, f, called, zero_then))
    | inr b ↦
        (let (before, after, split, open_then, called, zero) = run-Closed acts (act a g) b t in
          (a ∷ before, after, ap (◌∷◌ a) split, open_then, called, zero))
  ]

  -- The moment of the run that the caller waited for: `Wait` of the group returned, the caller had
  -- called by then and did not have nil yet, and as many tasks had ended as were started.
  abbrev pub HadEnded : List (Action Err) → Type 0
  HadEnded acts =
      (before after : List (Action Err)) × (acts ≡ before ++ (returns_wait ∷ after))
      × ((run before new_group).waiter ≢ not_called)
      × ((run before new_group).waiter ≢ got_nil)
      × ((run before new_group).started ≡ length (run before new_group).ended)

  -- A waiter that has nil has found the channel closed.
  abbrev IsSettled : Group Err → Type 0
  IsSettled g = (g.done ≡ true) ⊎ (g.waiter ≢ got_nil)

  end_task-IsSettled : (h : Ending Err) (g : Group Err) → IsSettled g → IsSettled (end_task h g)
  unfolding end_task
  end_task-IsSettled h g i = elim (Bool-cases (g.running == 0)) [ inl b ↦ rw b i | inr b ↦ rw b i ]

  wait_returns-IsSettled : (g : Group Err) → IsSettled g → IsSettled (wait_returns g)
  unfolding wait_returns
  wait_returns-IsSettled g i = elim (Bool-cases (g.counter == 0 && is_called g.waiter)) [
    | inl b ↦ rw b (inl refl)
    | inr b ↦ rw b i
  ]

  call_wait-got_nil : (g : Group Err) → (call_wait g).waiter ≡ got_nil → g.waiter ≡ got_nil
  unfolding call_wait
  call_wait-got_nil g e = ground (arith, e)

  call_wait-IsSettled : (g : Group Err) → IsSettled g → IsSettled (call_wait g)
  unfolding call_wait
  call_wait-IsSettled g (inl t) = inl ((call_wait-keeps g).5 ∙ t)
  call_wait-IsSettled g (inr n) = inr (λ e. n (call_wait-got_nil g e))

  -- nil is only for a closed channel.
  select_once-got_nil :
      (d : Bool) (g : Group Err)
      → g.waiter ≢ got_nil
      → (select_once d g).waiter ≡ got_nil
      → g.done ≡ true
  unfolding select_once
  select_once-got_nil d g h e = ground arith

  select_once-IsSettled : (d : Bool) (g : Group Err) → IsSettled g → IsSettled (select_once d g)
  select_once-IsSettled d g (inl t) = inl ((select_once-keeps d g).5 ∙ t)
  select_once-IsSettled d g (inr n) = elim (Bool-cases g.done) [
    | inl t ↦ inl ((select_once-keeps d g).5 ∙ t)
    | inr f ↦ inr (λ e. let t = select_once-got_nil d g n e in cc)
  ]

  act-IsSettled : (a : Action Err) (g : Group Err) → IsSettled g → IsSettled (act a g)
  unfolding act go_run
  act-IsSettled runs g i = i
  act-IsSettled (ends h) g i = end_task-IsSettled h g i
  act-IsSettled calls_wait g i = call_wait-IsSettled g i
  act-IsSettled returns_wait g i = wait_returns-IsSettled g i
  act-IsSettled (selects d) g i = select_once-IsSettled d g i
  act-IsSettled cancels g i = i

  run-IsSettled : (acts : List (Action Err)) (g : Group Err) → IsSettled g → IsSettled (run acts g)
  unfolding run
  run-IsSettled [] g i = i
  run-IsSettled (a ∷ acts) g i = run-IsSettled acts (act a g) (act-IsSettled a g i)

  -- For whatever happens to a new group, in any order: as many tasks were started as have ended and are
  -- counted, and the panics that the tasks ended with, and no others, were traced, in their order.
  pub run-new_group : (acts : List (Action Err)) → IsCounted (run acts new_group)
  unfolding new_group
  run-new_group acts = run-IsCounted acts new_group (refl, refl, refl)

  no_nil_while_open :
      (acts : List (Action Err))
      → (run acts new_group).done ≡ false
      → (run acts new_group).waiter ≢ got_nil
  unfolding new_group
  no_nil_while_open acts f = elim (run-IsSettled acts new_group (inr (λ w. cc))) [
    | inl t ↦ absurd cc
    | inr n ↦ n
  ]

  Closed-HadEnded : (acts : List (Action Err)) → Closed acts new_group → HadEnded acts
  Closed-HadEnded acts (before, after, split, open_then, called, zero_then) = (
    before,
    after,
    split,
    called,
    no_nil_while_open before open_then,
    (let c = (run-new_group before).0 in ground (arith, c, zero_then)),
  )

  -- When `UnsafeWaitWithContext` has returned nil to its caller, whatever happened to the new group:
  -- after the call, and before nil was returned, `Wait` of the group returned at a moment at which
  -- as many tasks had ended as had been started.
  pub run-got_nil :
      (acts : List (Action Err)) → (run acts new_group).waiter ≡ got_nil → HadEnded acts
  unfolding new_group
  run-got_nil acts e = elim (run-IsSettled acts new_group (inr (λ w. cc))) [
    | inl t ↦ Closed-HadEnded acts (run-Closed acts new_group refl t)
    | inr n ↦ absurd (n e)
  ]

  -- What is left to happen when the tasks end with `hs`: each end, then `Wait` returns, then the select.
  abbrev pub then_waits : List (Ending Err) → Bool → List (Action Err)
  then_waits [] d = returns_wait ∷ selects d ∷ []
  then_waits (h ∷ hs) d = ends h ∷ then_waits hs d

  run-then_waits_counted :
      (hs : List (Ending Err)) (d : Bool) (g : Group Err)
      → g.counter ≡ length hs
      → g.running ≡ length hs
      → g.cancelled ≡ false
      → g.waiter ≡ waiting
      → (run (then_waits hs d) g).waiter ≡ got_nil
  unfolding run act end_task wait_returns select_once
  run-then_waits_counted [] d g c r f w = ground (arith, c, f, w)
  run-then_waits_counted (h ∷ hs) d g c r f w =
      run-then_waits_counted hs d (end_task h g) (ground (arith, c, r)) (ground (arith, c, r))
        (ground (arith, c, r, f)) (ground (arith, c, r, w))

  -- Whatever has happened to a new group: when the context is not done, a caller that waits gets nil as
  -- soon as all tasks that run have ended, by a panic or not, `Wait` has returned and the select
  -- has run.
  pub run-then_waits :
      (acts : List (Action Err)) (hs : List (Ending Err)) (d : Bool)
      → (run acts new_group).running ≡ length hs
      → (run acts new_group).cancelled ≡ false
      → (run acts new_group).waiter ≡ waiting
      → (run (then_waits hs d) (run acts new_group)).waiter ≡ got_nil
  run-then_waits acts hs d r f w =
      let c = (run-IsCounted acts new_group (unfold new_group in (refl, refl, refl))).1 in
      run-then_waits_counted hs d (run acts new_group) (c ∙ r) r f w
