-- ===== src/Main/Orders.antt =====
-- src/cm.c: whatever the daemon is asked to do, and whatever event fires, every pending event
-- stays the event of one entry, or the idle timer.
use certmonger.Prelude.{
  ℕ, zero, suc, Bool, true, false, Option, none, some, List, [], ◌∷◌, ◌≡◌, refl, subst, Text, arith,
  ap, length, if◌then◌else◌, ◌&&◌,
}
use certmonger.Main.Context.{Iteration, Events, Slot, Context}
use certmonger.Main.Slots.{find_index, slot_at, is_named}
use certmonger.Main.Loop.{
  handle_event, start_entry, stop_entry, restart_entry, on_timeout, reset_timeout, add_entry,
  insert_entry, unused_name, remove_entry, rename_entry, restart_if, restart_from,
  restart_entries_by_ca,
}
use certmonger.Main.Loop
use certmonger.Main.Sweeps.{AllBare, start_all-Orderly, stop_all-Orderly}
use certmonger.Main.Owners.{FreshEvents, Orderly}
use certmonger.Main.Keeping.{handle_event-Orderly}
use certmonger.Main.Named.{IsBare, stop_entry-Orderly, start_entry-Orderly, restart_entry-Orderly}
use certmonger.Main.Arrays.{
  on_timeout-Orderly, reset_timeout-Orderly, add_entry-Orderly, insert_entry-Orderly,
  remove_entry-Orderly, rename_entry-Orderly,
}

module _ {S : Type 0} (it : Iteration S) (ev : Events) where
  restart_by :
      FreshEvents ev
      → (b : Bool) (s : Slot) (r : Bool × (Bool × Context S)) → Orderly r.1.1
      → let q : Bool × (Bool × Context S) =
          (if b
            then (let (fine, d) = restart_entry it ev s.nickname r.1.1 in
                (true, ((if r.0 then fine && r.1.0 else fine), d)))
            else r) in
        Orderly q.1.1
  restart_by fresh true s r v = restart_entry-Orderly it ev fresh s.nickname r.1.1 v
  restart_by fresh false s r v = v

  restart_if-Orderly :
      FreshEvents ev
      → (ca : Text) (s : Slot) (r : Bool × (Bool × Context S)) → Orderly r.1.1
      → Orderly (restart_if it ev ca s r).1.1
  unfolding restart_if
  restart_if-Orderly fresh ca s r v = restart_by fresh _ s r v

  turned :
      FreshEvents ev
      → (ca : Text) (o : Option Slot) (r : Bool × (Bool × Context S)) → Orderly r.1.1
      → let q : Bool × (Bool × Context S) = elim o [
        | none ↦ r
        | some s ↦ restart_if it ev ca s r
      ] in
        Orderly q.1.1
  turned fresh ca none r v = v
  turned fresh ca (some s) r v = restart_if-Orderly fresh ca s r v

  restart_from-Orderly :
      FreshEvents ev
      → (ca : Text) (left i : ℕ) (r : Bool × (Bool × Context S)) → Orderly r.1.1
      → Orderly (restart_from it ev ca left i r).1.1
  unfolding restart_from
  restart_from-Orderly fresh ca zero i r v = v
  restart_from-Orderly fresh ca (suc left) i r v =
      restart_from-Orderly fresh ca left (suc i) _ (turned fresh ca (slot_at r.1.1.slots i) r v)

  pub restart_entries_by_ca-Orderly :
      FreshEvents ev
      → (ca : Text) (c : Context S) → Orderly c
      → Orderly (restart_entries_by_ca it ev ca c).1
  unfolding restart_entries_by_ca
  restart_entries_by_ca-Orderly fresh ca c v =
      restart_from-Orderly fresh ca (length c.slots) 0 (false, (false, c)) v

  named_by :
      (o : Option ℕ) (name chosen : Text) (later : Option Text) (ss : List Slot)
      → find_index (is_named name) ss ≡ o
      → (later ≡ some chosen → find_index (is_named chosen) ss ≡ none)
      → (let r : Option Text = elim o [ none ↦ some name | some i ↦ later ] in r) ≡ some chosen
      → find_index (is_named chosen) ss ≡ none
  named_by none name chosen later ss looked rest took =
      subst (λ n. find_index (is_named n) ss ≡ none)
        (ap (λ o. elim o [ none ↦ name | some n ↦ n ]) took) looked
  named_by (some i) name chosen later ss looked rest took = rest took

  -- A nickname that was taken from the clock is no entry's.
  unused_name_missing :
      (clock : List Text) (ss : List Slot) (chosen : Text)
      → unused_name it ev clock ss ≡ some chosen
      → find_index (is_named chosen) ss ≡ none
  unfolding unused_name
  unused_name_missing [] ss chosen took = ground arith
  unused_name_missing (name ∷ clock) ss chosen took =
      named_by (find_index (is_named name) ss) name chosen (unused_name it ev clock ss) ss refl
        (unused_name_missing clock ss chosen) took

  -- What can happen to the context: an event fires, the idle timer fires or is set again, an entry is added,
  -- removed, stopped, started, restarted or given a new nickname, those of a CA are restarted, or all are
  -- started or stopped. An entry is started by an order only after it was stopped, and all are started only
  -- while none has an event.
  pub data Turn : Context S → Context S → Type 0 where
    event : (c : Context S) (h : ℕ) → Turn c (handle_event it ev h c)
    timeout : (c : Context S) → Turn c (on_timeout it ev c)
    reset : (c : Context S) → Turn c (reset_timeout it ev c)
    add : (c : Context S) (e : ℕ) (name bus : Text) → Turn c (add_entry it ev e name bus c).1
    add_unnamed :
        (c : Context S) (e : ℕ) (clock : List Text) (name bus : Text)
        → unused_name it ev clock c.slots ≡ some name
        → Turn c (insert_entry it ev e name bus c).1
    remove : (c : Context S) (name : Text) → Turn c (remove_entry it ev name c).1
    stop : (c : Context S) (name : Text) → Turn c (stop_entry it ev name c).1
    start :
        (c : Context S) (name : Text) → IsBare it ev name c → Turn c (start_entry it ev name c).1
    restart : (c : Context S) (name : Text) → Turn c (restart_entry it ev name c).1
    start_all : (c : Context S) → AllBare it ev 0 c → Turn c (Loop.start_all it ev c)
    stop_all : (c : Context S) → Turn c (Loop.stop_all it ev c)
    rename : (c : Context S) (i : ℕ) (name : Text) → Turn c (rename_entry it ev i name c)
    restart_by_ca : (c : Context S) (ca : Text) → Turn c (restart_entries_by_ca it ev ca c).1

  pub data Turns : Context S → Context S → Type 0 where
    rest : (c : Context S) → Turns c c
    next : {a b c : Context S} → Turns a b → Turn b c → Turns a c

  Turn-Orderly : {c d : Context S} → FreshEvents ev → Orderly c → Turn c d → Orderly d
  Turn-Orderly fresh v (event c h) = handle_event-Orderly it ev fresh h c v
  Turn-Orderly fresh v (timeout c) = on_timeout-Orderly it ev c v
  Turn-Orderly fresh v (reset c) = reset_timeout-Orderly it ev fresh c v
  Turn-Orderly fresh v (add c e name bus) = add_entry-Orderly it ev fresh e name bus c v
  Turn-Orderly fresh v (add_unnamed c e clock name bus new) =
      insert_entry-Orderly it ev fresh e name bus c v (unused_name_missing clock c.slots name new)
  Turn-Orderly fresh v (remove c name) = remove_entry-Orderly it ev fresh name c v
  Turn-Orderly fresh v (stop c name) = stop_entry-Orderly it ev name c v
  Turn-Orderly fresh v (start c name bare) = start_entry-Orderly it ev fresh name c v bare
  Turn-Orderly fresh v (restart c name) = restart_entry-Orderly it ev fresh name c v
  Turn-Orderly fresh v (start_all c bare) = start_all-Orderly it ev fresh c v bare
  Turn-Orderly fresh v (stop_all c) = stop_all-Orderly it ev c v
  Turn-Orderly fresh v (rename c i name) = rename_entry-Orderly it ev i name c v
  Turn-Orderly fresh v (restart_by_ca c ca) = restart_entries_by_ca-Orderly fresh ca c v

  -- If new events have handles that no pending event has, then through any sequence of these turns every
  -- pending event keeps exactly one pointer among the entries and the idle timer, and no pointer is to an
  -- event that is not pending: events and the idle timer that fire, the idle timer that is set again,
  -- entries that are added, with a nickname or without, removed, stopped, restarted, renamed or, while they
  -- have no event, started, the entries of a CA that are restarted, all entries that are stopped, and all
  -- that are started while none has an event.
  pub Turns-Orderly : {c d : Context S} → FreshEvents ev → Orderly c → Turns c d → Orderly d
  Turns-Orderly fresh v (rest c) = v
  Turns-Orderly fresh v (next turns turn) = Turn-Orderly fresh (Turns-Orderly fresh v turns) turn
