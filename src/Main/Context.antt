-- ===== src/Main/Context.antt =====
-- src/cm.c: the context of the daemon with its entries, and what it does to the event library. The
-- address of an entry stands for the entry; what `cm_iterate_entry` and its kin do is an interface.
use certmonger.Prelude.{ℕ, Bool, Option, List, ℤ, Text}
use certmonger.Iterate.Machine.{When}

-- What an event waits for: a time in seconds, or a descriptor that can be read.
pub data Trigger : Type 0 where
  at_time : ℤ → Trigger
  on_traffic : ℕ → Trigger

-- The calls of the event library, by the handle that the event has: tevent_add_timer() and
-- tevent_add_fd(), and talloc_free() of an event.
pub data EventCall : Type 0 where
  added : ℕ → Trigger → EventCall
  freed : ℕ → EventCall

-- What a pass answers by `*when`, `*delay` and `*readfd`.
pub record Verdict : Type 0 where
  pub when : When
  pub delay : ℤ
  pub fd : Option ℕ

-- The functions of src/iterate.c and src/store-files.c that the loop calls for an entry, on the state
-- that they share. `begin` and `drop` say whether they succeeded.
pub record Iteration (S : Type 0) : Type 0 where
  pub begin : S → ℕ → Bool × S
  pub pass : S → ℕ → Verdict × S
  pub finish : S → ℕ → S
  pub save : S → ℕ → S
  pub drop : S → ℕ → Bool × S
  pub ca_of : S → ℕ → Option Text

-- What the loop gets from outside: the handle of a new event, or NULL, and the time, by what was done
-- so far.
pub record Events : Type 0 where
  pub new_event : List EventCall → Option ℕ
  pub time : List EventCall → ℤ

-- An entry in the arrays `entries` and `entry_events`: its address and names, whether `iterate_state` is
-- set, and `next_event`.
pub record Slot : Type 0 where
  pub entry : ℕ
  pub nickname : Text
  pub busname : Text
  pub is_started : Bool
  pub next_event : Option ℕ

-- The part of `struct cm_context` that is about entries, with the shared state and the calls of the
-- event library, the last one first.
pub record Context (S : Type 0) : Type 0 where
  pub slots : List Slot
  pub shared : S
  pub calls : List EventCall
  pub idle_timeout : ℤ
  pub idle_event : Option ℕ
  pub should_quit : ℕ
