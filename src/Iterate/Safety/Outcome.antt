-- ===== src/Iterate/Safety/Outcome.antt =====
-- What a pass over an entry leaves, and the rules of Iterate/Safety/Rules.antt for it.
use certmonger.Prelude.{
  ℕ, ◌≡◌, refl, ◌⊎◌, inl, Bool, true, false, not, ◌&&◌, ◌||◌, Option, none, some, is_some, arith,
}
use certmonger.Store.{State}
use certmonger.Iterate.Lock.{Lock, entry_holder}
use certmonger.Iterate.Machine.{
  Tool, Tasks, When, soon, no_time, Machine, keygen, is_running, set_running, no_tasks,
}
use certmonger.Iterate.Safety.Invariant.{
  Inv, is_valid, held, not_held, lock_need, need_met, tool_of, tasks_for, phase_fits, holds,
}
use certmonger.Iterate.Safety.Diagram.{leads, awaits}

-- What a pass of the entry at `e` may do to the lock: nothing, take it while it is free, or give up
-- its own.
abbrev pub LockMove : ℕ → Lock → Lock → Type 0
LockMove e l l' =
    (l'.phase ≡ l.phase)
    × ((l'.holder ≡ l.holder)
        ⊎ (((l.holder ≡ none) × (l'.holder ≡ some (entry_holder e)))
            ⊎ ((holds e l ≡ true) × (l'.holder ≡ none))))

abbrev pub is_no_time : When → Bool
is_no_time no_time = true
is_no_time _ = false

-- Something will bring the daemon back to the entry, or the entry waits for instructions.
abbrev pub wakes : When → Option ℕ → State → Bool
wakes at fd st = not (is_no_time at) || (is_some fd || awaits st)

-- The machine `t` after a pass that began in the state `st` with the lock `l`.
pub record Post (e : ℕ) (st : State) (l : Lock) (t : Machine) : Type 0 where
  pub inv : Inv e t
  pub lock_move : LockMove e l t.lock
  pub edge : leads st t.state ≡ true
  pub wake : wakes t.when t.readfd t.state ≡ true

-- In the middle of such a pass: whether the lock is the entry's, and which helper is at work.
pub record Here (e : ℕ) (l : Lock) (b : Bool) (o : Option Tool) (l' : Lock) (t : Tasks)
    : Type 0 where
  pub sound : phase_fits l'.holder l'.phase ≡ true
  pub held : holds e l' ≡ b
  pub tasks : t ≡ tasks_for o
  pub moved : LockMove e l l'

-- The state `next` may be entered, by a test that computes.
abbrev pub may_enter : State → Bool → State → Bool
may_enter st b next = is_valid next && (need_met (lock_need next) b && leads st next)

-- ... with no helper at work, to come back `at` some time.
abbrev pub may_settle : State → Bool → State → When → Bool
may_settle st b next at =
    may_enter st b next && (not (is_some (tool_of next)) && (not (is_no_time at) || awaits next))

pub running : (tool : Tool) (t : Tasks) → t ≡ tasks_for (some tool) → is_running tool t ≡ true
unfolding no_tasks tasks_for
running keygen t h = ground arith
running _ t h = ground arith

pub stopped :
    (tool : Tool) (t : Tasks)
    → t ≡ tasks_for (some tool)
    → set_running tool false t ≡ tasks_for none
unfolding no_tasks tasks_for
stopped keygen t h = ground arith
stopped _ t h = ground arith

pub still :
    (tool : Tool) (t : Tasks) → t ≡ tasks_for none → set_running tool false t ≡ tasks_for none
unfolding no_tasks tasks_for
still keygen t h = ground arith
still _ t h = ground arith

pub started :
    (tool : Tool) (t : Tasks) → t ≡ tasks_for none → set_running tool true t ≡ tasks_for (some tool)
unfolding no_tasks tasks_for
started keygen t h = ground arith
started _ t h = ground arith

pub both : {a b : Bool} → a && b ≡ true → (a ≡ true) × (b ≡ true)
both {a = true} {b = true} h = (refl, refl)
both {a = true} {b = false} h = cc
both {a = false} h = cc

pub none_of : {A : Type 0} (o : Option A) → not (is_some o) ≡ true → o ≡ none
none_of none h = refl
none_of (some a) h = cc

or-true : (a b c : Bool) → a || b ≡ true → a || (c || b) ≡ true
or-true true b c h = refl
or-true false true true h = refl
or-true false true false h = refl
or-true false false c h = cc

pub watch_wakes :
    (fd : Option ℕ) (st : State) → wakes (elim fd [ none ↦ soon | some n ↦ no_time ]) fd st ≡ true
watch_wakes none st = refl
watch_wakes (some n) st = refl

module _ {e : ℕ} {l : Lock} {b : Bool} where
  pub with_tasks :
      {o : Option Tool} (p : Option Tool) {l' : Lock} {t u : Tasks}
      → Here e l b o l' t
      → u ≡ tasks_for p
      → Here e l b p l' u
  with_tasks p here h = record {
    sound = here.sound;
    held = here.held;
    tasks = h;
    moved = here.moved;
  }

  pub with_held :
      {o : Option Tool} (c : Bool) {l' : Lock} {t : Tasks}
      → Here e l b o l' t
      → holds e l' ≡ c
      → Here e l c o l' t
  with_held c here h = record {
    sound = here.sound;
    held = h;
    tasks = here.tasks;
    moved = here.moved;
  }

  -- A machine that may be left with a helper at work, or with none.
  pub closed :
      {st : State} (t : Machine)
      → Here e l b (tool_of t.state) t.lock t.tasks
      → may_enter st b t.state ≡ true
      → wakes t.when t.readfd t.state ≡ true
      → Post e st l t
  closed t here fits wake =
      let (valid, allowed) = both fits in
      let (met, edge) = both allowed in
      record {
        inv = record {
          valid = valid;
          lock_sound = here.sound;
          lock_fits = rw here.held met;
          tasks_exact = here.tasks;
        };
        lock_move = here.moved;
        edge = edge;
        wake = wake;
      }

  pub settled :
      {st : State} (t : Machine)
      → Here e l b none t.lock t.tasks
      → may_settle st b t.state t.when ≡ true
      → Post e st l t
  settled t here fits =
      let (enter, idle) = both fits in
      let (free, wake) = both idle in
      closed t (rw (none_of (tool_of t.state) free) here) enter
        (or-true (not (is_no_time t.when)) (awaits t.state) (is_some t.readfd) wake)

module _ (e : ℕ) (s : Machine) (v : Inv e s) where
  -- The facts at the beginning of a pass.
  pub at_start :
      (st : State) (b : Bool)
      → s.state ≡ st
      → holds e s.lock ≡ b
      → Here e s.lock b (tool_of st) s.lock s.tasks
  at_start st b at mine = record {
    sound = v.lock_sound;
    held = mine;
    tasks = rw at at v.tasks_exact;
    moved = (refl, inl refl);
  }

  pub held_at : (st : State) → s.state ≡ st → lock_need st ≡ held → holds e s.lock ≡ true
  held_at st at need = rw (at, need) at v.lock_fits

  pub free_at : (st : State) → s.state ≡ st → lock_need st ≡ not_held → holds e s.lock ≡ false
  free_at st at need = ground (arith, v.lock_fits)
