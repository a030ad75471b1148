-- ===== src/Conc/Group.antt =====
-- pkg/conc/conc.go: tasks that run beside each other, and a caller that waits for them. The wait group
-- of sync is its counter. A run is a list of what happens, in any order; what cannot happen yet
-- changes nothing. One caller waits, once. `Err` is what a task panics with.
pub mod Wait
mod Examples
use goddd.Common.Int.{pos, ℤ}
use goddd.Common.{
  ◌++◌, not, ◌||◌, ◌-◌, ◌&&◌, ◌==◌, if◌then◌else◌, List, Bool, suc, [], ◌∷◌, false, true, ℕ,
}

-- How a task ends.
pub data Ending (Err : Type 0) : Type 0 where
  returns : Ending Err
  panics : Err → Ending Err

-- What `UnsafeWaitWithContext` has come to: it has not been called, it waits, it returned nil, or the
-- error of the context.
pub data Waiter : Type 0 where
  not_called : Waiter
  waiting : Waiter
  got_nil : Waiter
  got_error : Waiter

-- `started` and `ended` are the history. `done` says that the channel is closed behind `Wait`, and
-- `cancelled` that the context is done.
pub record Group (Err : Type 0) : Type 0 where
  pub counter : ℕ
  pub running : ℕ
  pub traced : List Err
  pub done : Bool
  pub cancelled : Bool
  pub waiter : Waiter
  pub started : ℕ
  pub ended : List (Ending Err)

pub data Action (Err : Type 0) : Type 0 where
  runs : Action Err
  ends : Ending Err → Action Err
  calls_wait : Action Err
  returns_wait : Action Err
  selects : Bool → Action Err
  cancels : Action Err

pub is_called : Waiter → Bool
is_called not_called = false
is_called waiting = true
is_called got_nil = true
is_called got_error = true

module _ {Err : Type 0} where
  -- `New`
  pub new_group : Group Err
  new_group = record {
    counter = 0;
    running = 0;
    traced = [];
    done = false;
    cancelled = false;
    waiter = not_called;
    started = 0;
    ended = [];
  }

  -- `GoRun`
  pub go_run : Group Err → Group Err
  go_run g = record g { counter = suc g.counter; running = suc g.running; started = suc g.started }

  -- The deferred calls: a panic is given to the tracer, and the wait group is told.
  pub recovered : Ending Err → List Err
  recovered returns = []
  recovered (panics e) = e ∷ []

  pub end_task : Ending Err → Group Err → Group Err
  unfolding recovered
  end_task how g = if g.running == 0 then g else record g {
    counter = g.counter - 1;
    running = g.running - 1;
    traced = g.traced ++ recovered how;
    ended = g.ended ++ (how ∷ []);
  }

  -- `UnsafeWaitWithContext` is called, which starts the goroutine of the waiter.
  pub call_wait : Group Err → Group Err
  call_wait g = elim g.waiter [
    | not_called ↦ record g { waiter = waiting }
    | waiting ↦ g
    | got_nil ↦ g
    | got_error ↦ g
  ]

  -- `g.Wait()` returns in the goroutine of the waiter, which closes the channel.
  pub wait_returns : Group Err → Group Err
  unfolding is_called
  wait_returns g = if g.counter == 0 && is_called g.waiter then record g { done = true } else g

  -- The `select`; `done_first` says which of two is taken.
  pub select_once : Bool → Group Err → Group Err
  select_once done_first g = elim g.waiter [
    | not_called ↦ g
    | waiting ↦
        if g.done && (done_first || not g.cancelled)
        then record g { waiter = got_nil }
        else if g.cancelled
        then record g { waiter = got_error }
        else g
    | got_nil ↦ g
    | got_error ↦ g
  ]

  pub act : Action Err → Group Err → Group Err
  unfolding go_run end_task call_wait wait_returns select_once
  act runs g = go_run g
  act (ends how) g = end_task how g
  act calls_wait g = call_wait g
  act returns_wait g = wait_returns g
  act (selects done_first) g = select_once done_first g
  act cancels g = record g { cancelled = true }

  pub run : List (Action Err) → Group Err → Group Err
  unfolding act
  run [] g = g
  run (a ∷ acts) g = run acts (act a g)

-- `Timer`: what its loop waits for. `DefaultTimer` waits three seconds before the first call.
pub data Signal : Type 0 where
  fires : Signal
  is_done : Signal

-- The calls of `fn`, each with the time that was waited for before it.
unfoldable pub timer : ℤ → ℤ → List Signal → List ℤ
timer wait every [] = []
timer wait every (is_done ∷ ss) = []
timer wait every (fires ∷ ss) = wait ∷ timer every every ss

pub default_timer : ℤ → List Signal → List ℤ
unfolding timer
default_timer every ss = timer (pos 3_000_000_000) every ss
