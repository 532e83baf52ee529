-- ===== src/Iterate/Safety/Shapes.antt =====
-- The rules of Iterate/Safety/Rules.antt for what a pass has to leave, by the shapes of
-- Iterate/Steps.antt.
use certmonger.Prelude.{ℕ, ◌≡◌, sym, subst, ==_refl, Bool, true, false, Option, none, some, arith}
use certmonger.Store.{State, Details}
use certmonger.Iterate.Lock.{Lock, is_held_by, same_holder}
use certmonger.Iterate.Machine.{
  World, Tool, Call, When, soon, soonish, Machine, M, finish, deref, ◌>>◌, set_running,
}
use certmonger.Iterate.Steps.{
  launch, launch_or_skip, poll, when, settle, take_lock, hold_lock, release_lock,
}
use certmonger.Iterate.Safety.Invariant.{tool_of, phase_fits}
use certmonger.Iterate.Safety.Rules.{
  Sure, watching, with_details, with_lock, without_lock, when_rule, poll_rule, settle_rule,
  deref_rule, finish_rule, launch_rule, launch_or_skip_rule, take_lock_rule, hold_lock_rule,
  release_lock_rule,
}
use certmonger.Iterate.Safety.Outcome.{
  Post, Here, may_enter, may_settle, running, stopped, still, started, watch_wakes, with_tasks,
  with_held, closed, settled,
}

module _ (w : World) (e : ℕ) (st : State) (l : Lock) (b : Bool) (tool : Tool) where
  pub settle-Post :
      (next : State) (at : When) (s : Machine)
      → Here e l b (some tool) s.lock s.tasks
      → may_settle st b next at ≡ true
      → Sure (Post e st l) (settle w tool next at) s
  settle-Post next at s here fits =
      settle_rule (Post e st l) w tool s (running tool s.tasks here.tasks) next at
        λ d. settled {b = b} _ (with_tasks none here (stopped tool s.tasks here.tasks)) fits

  pub when-Post :
      (question : Call) (body others : M (Unit {0})) (s : Machine)
      → Here e l b (some tool) s.lock s.tasks
      → ((d : Details) → Sure (Post e st l) body (with_details s d))
      → ((d : Details) → Sure (Post e st l) others (with_details s d))
      → Sure (Post e st l) (when w tool question body others) s
  when-Post question body others s here hb ho =
      when_rule (Post e st l) w tool s (running tool s.tasks here.tasks) question body others hb ho

  pub deref-Post :
      (k : M (Unit {0})) (s : Machine)
      → Here e l b (some tool) s.lock s.tasks
      → Sure (Post e st l) k s
      → Sure (Post e st l) (deref tool >> k) s
  deref-Post k s here h = deref_rule (Post e st l) w tool s (running tool s.tasks here.tasks) k h

  pub finish-Post :
      (k : M (Unit {0})) (s : Machine)
      → Here e l b (some tool) s.lock s.tasks
      → ((d : Details)
          → Here e l b none s.lock (set_running tool false s.tasks)
          → Sure (Post e st l) k (record s { details = d; tasks = set_running tool false s.tasks }))
      → Sure (Post e st l) (finish w tool >> k) s
  finish-Post k s here h =
      finish_rule (Post e st l) w tool s (running tool s.tasks here.tasks) k
        λ d. h d (with_tasks none here (stopped tool s.tasks here.tasks))

  pub rung-Post :
      (question : Call) (next : State) (at : When) (others : M (Unit {0})) (s : Machine)
      → Here e l b (some tool) s.lock s.tasks
      → may_settle st b next at ≡ true
      → ((d : Details) → Sure (Post e st l) others (with_details s d))
      → Sure (Post e st l) (when w tool question (settle w tool next at) others) s
  rung-Post question next at others s here fits h =
      when_rule (Post e st l) w tool s (running tool s.tasks here.tasks) question _ others
        (λ d. settle-Post next at (with_details s d) here fits) h

  pub poll-Post :
      (ready : Call) (body : M (Unit {0})) (s : Machine)
      → Here e l b (some tool) s.lock s.tasks
      → s.state ≡ st
      → tool_of st ≡ some tool
      → may_enter st b st ≡ true
      → ((d : Details) → Sure (Post e st l) body (with_details s d))
      → Sure (Post e st l) (poll w tool ready body) s
  poll-Post ready body s here at own fits h =
      poll_rule (Post e st l) w tool s (running tool s.tasks here.tasks) ready body h λ d.
        closed {b = b} (watching w tool (with_details s d)) (rw (at, own) here)
          (subst (λ x. may_enter st b x ≡ true) (sym at) fits) (watch_wakes (w.fd tool) s.state)

  module _ (call : Call) (next : State) (s : Machine) (here : Here e l b none s.lock s.tasks)
      (busy : tool_of next ≡ some tool) (fits : may_enter st b next ≡ true) where
    begun :
        (d : Details)
        → Post e st l (
            watching w tool
              (record s { details = d; tasks = set_running tool true s.tasks; state = next }))
    begun d =
        closed {b = b}
          (watching w tool
            (record s { details = d; tasks = set_running tool true s.tasks; state = next }))
          (rw busy (with_tasks (some tool) here (started tool s.tasks here.tasks))) fits
          (watch_wakes (w.fd tool) next)

    pub launch-Post :
        s.state ≡ st
        → may_settle st b st soonish ≡ true
        → Sure (Post e st l) (launch w tool call next) s
    launch-Post at stay = launch_rule (Post e st l) w s tool call next begun λ d.
        settled {b = b} _ (with_tasks none here (still tool s.tasks here.tasks))
          (subst (λ x. may_settle st b x soonish ≡ true) (sym at) stay)

    pub skip-Post :
        (skipped : State)
        → may_settle st b skipped When.now ≡ true
        → Sure (Post e st l) (launch_or_skip w tool call next skipped) s
    skip-Post skipped others =
        launch_or_skip_rule (Post e st l) w s tool call next skipped begun
          λ d. settled {b = b} _ (with_tasks none here (still tool s.tasks here.tasks)) others

module _ (e : ℕ) (l : Lock) (o : Option Tool) (s : Machine) where
  -- The facts after the lock was given back, and after it was taken.
  pub given_back : Here e l true o s.lock s.tasks → Here e l false o (without_lock s).lock s.tasks
  unfolding phase_fits is_held_by
  given_back here = ground arith

  pub taken :
      Here e l false o s.lock s.tasks
      → s.lock.holder ≡ none
      → Here e l true o (with_lock e s).lock s.tasks
  unfolding phase_fits is_held_by same_holder
  taken here free = ground (arith, ==_refl e)

module _ (e : ℕ) (st : State) (l : Lock) (o : Option Tool) (body : M (Unit {0})) (s : Machine) where
  pub release-Post :
      Here e l true o s.lock s.tasks
      → Sure (Post e st l) body (without_lock s)
      → Sure (Post e st l) (release_lock e body) s
  release-Post here h = release_lock_rule (Post e st l) e s body here.held h

  pub take-Post :
      Here e l false o s.lock s.tasks
      → s.state ≡ st
      → o ≡ none
      → may_settle st false st soon ≡ true
      → (Here e l true o (with_lock e s).lock s.tasks → Sure (Post e st l) body (with_lock e s))
      → Sure (Post e st l) (take_lock e body) s
  take-Post here at idle stay h =
      take_lock_rule (Post e st l) e s body here.held (λ free. h (taken e l o s here free))
        (settled {b = false} _ (rw idle at here)
          (subst (λ x. may_settle st false x soon ≡ true) (sym at) stay))

  pub hold-Post :
      (b : Bool)
      → Here e l b o s.lock s.tasks
      → s.state ≡ st
      → o ≡ none
      → may_settle st b st soon ≡ true
      → ((r : Machine) → Here e l true o r.lock r.tasks → r.state ≡ st → Sure (Post e st l) body r)
      → Sure (Post e st l) (hold_lock e body) s
  unfolding is_held_by
  hold-Post b here at idle stay h =
      hold_lock_rule (Post e st l) e s body here.sound (λ mine. h s (with_held true here mine) at)
        (λ free. h (with_lock e s) (taken e l o s (with_held false here (rw free)) free) at)
        (settled {b = b} _ (rw idle at here)
          (subst (λ x. may_settle st b x soon ≡ true) (sym at) stay))
