-- ===== src/Main/Sweeps.antt =====
-- src/cm.c: starting and stopping all entries leaves each pending event its one pointer.
use certmonger.Prelude.{
  ℕ, zero, suc, ◌+◌, ◌≤◌, Bool, true, false, Option, none, some, ◌≡◌, refl, sym, ◌∙◌, subst, arith,
  length, if◌then◌else◌,
}
use certmonger.Main.Context.{Iteration, Events, Slot, Context}
use certmonger.Main.Slots.{slot_at, modify_slot}
use certmonger.Main.Loop.{
  free_event, sweep, serve, service_entry, start_at, set_going, start_all, stop_at, stop_all,
}
use certmonger.Main.Counts.{slot_at-other}
use certmonger.Main.Owners.{FreshEvents, Orderly, Detached}
use certmonger.Main.Serving.{service_entry-Adds, serve-Orderly}
use certmonger.Main.Keeping.{freed-Detached, start_at-Orderly, stop_at-Orderly}
use certmonger.Main.Arrays.{reset_timeout-Orderly}

module _ {S : Type 0} (it : Iteration S) (ev : Events) where
  -- What holds of the context when the entries from the index `i` on are left, and is kept by each turn.
  module _ (P : ℕ → Context S → Type 0) (act : ℕ → Slot → Context S → Context S)
      (done : (i : ℕ) (s : Slot) (c : Context S)
        → slot_at c.slots i ≡ some s
        → P i c
        → P (suc i) (act i s c))
      (skip : (i : ℕ) (c : Context S) → P i c → P (suc i) c) where
    turned_by :
        (i : ℕ) (c : Context S) (o : Option Slot)
        → slot_at c.slots i ≡ o
        → P i c
        → P (suc i) (elim o [ none ↦ c | some s ↦ act i s c ])
    turned_by i c none at h = skip i c h
    turned_by i c (some s) at h = done i s c at h

    sweep_rule : (left i : ℕ) (c : Context S) → P i c → P (i + left) (sweep it ev act left i c)
    unfolding sweep
    sweep_rule zero i c h = subst (λ n. P n c) (omega arith) h
    sweep_rule (suc left) i c h =
        subst (λ n. P n (sweep it ev act (suc left) i c)) (omega arith)
          (sweep_rule left (suc i) _ (turned_by i c (slot_at c.slots i) refl h))

  pub stop_all-Orderly : (c : Context S) → Orderly c → Orderly (stop_all it ev c)
  unfolding stop_all
  stop_all-Orderly c v =
      sweep_rule (λ i d. Orderly d) (λ i s d. (stop_at it ev i s d).1)
        (λ i s d at w. stop_at-Orderly it ev i s d w at) (λ i d w. w) (length c.slots) 0 c v

  -- The entries from the index `i` on have no event.
  abbrev pub AllBare : ℕ → Context S → Type 0
  AllBare i c = (j : ℕ) (s : Slot) → i ≤ j → slot_at c.slots j ≡ some s → s.next_event ≡ none

  -- In order, with entries still without events.
  record Ahead (i : ℕ) (c : Context S) : Type 0 where
    orderly : Orderly c
    bare : AllBare i c

  -- A change of the entry at `i` is nothing to those behind it.
  behind :
      (i : ℕ) (f : Slot → Slot) (c d : Context S)
      → d.slots ≡ modify_slot c.slots i f
      → AllBare (suc i) c
      → AllBare (suc i) d
  behind i f c d same bare j s from at =
      bare j s from (sym (slot_at-other c.slots i j f (omega arith)) ∙ (rw same at at))

  served_slots :
      FreshEvents ev
      → (i e : ℕ) (c : Context S)
      → (serve it ev i e c).slots
        ≡ modify_slot c.slots i (λ s. record s { next_event = (service_entry it ev e c).0 })
  unfolding serve
  served_slots fresh i e c = rw (service_entry-Adds it ev fresh e c).same_slots refl

  serve-Ahead :
      FreshEvents ev
      → (i e : ℕ) (s : Slot) (c : Context S) → Detached i s c
      → AllBare (suc i) c
      → Ahead (suc i) (serve it ev i e c)
  serve-Ahead fresh i e s c v bare = record {
    orderly = serve-Orderly it ev fresh i e s c v;
    bare = behind i _ c (serve it ev i e c) (served_slots fresh i e c) bare;
  }

  begun_bare :
      FreshEvents ev
      → (b : Bool) (i e : ℕ) (c : Context S) (shared : S) → AllBare (suc i) c
      → let r : Bool × Context S =
          (if b
            then (
              true,
              serve it ev i e (record c {
                shared = shared;
                slots = modify_slot c.slots i (λ s. record s { is_started = true });
              }),
            )
            else (false, record c { shared = shared })) in
        AllBare (suc i) r.1
  begun_bare fresh true i e c shared bare =
      let d : Context S = record c {
        shared = shared;
        slots = modify_slot c.slots i (λ s. record s { is_started = true });
      } in
      behind i _ d (serve it ev i e d) (served_slots fresh i e d) (behind i _ c d refl bare)
  begun_bare fresh false i e c shared bare = bare

  going_by :
      FreshEvents ev
      → (b : Bool) (i : ℕ) (s : Slot) (c : Context S) → slot_at c.slots i ≡ some s
      → Ahead i c
      → Ahead (suc i) (if b then serve it ev i s.entry c else (start_at it ev i s c).1)
  unfolding free_event start_at
  going_by fresh true i s c at v =
      serve-Ahead fresh i s.entry s c
        (freed-Detached it ev i s c none v.orderly at (v.bare i s (omega arith) at))
        (λ j r from at. v.bare j r (omega arith) at)
  going_by fresh false i s c at v =
      let bare = v.bare i s (omega arith) at in
      record {
        orderly = start_at-Orderly it ev fresh i s c v.orderly at bare;
        bare =
            begun_bare fresh (it.begin c.shared s.entry).0 i s.entry c (it.begin c.shared s.entry).1
              (λ j r from at. v.bare j r (omega arith) at);
      }

  pub start_all-Orderly :
      FreshEvents ev → (c : Context S) → Orderly c → AllBare 0 c → Orderly (start_all it ev c)
  unfolding start_all set_going
  start_all-Orderly fresh c v bare =
      reset_timeout-Orderly it ev fresh _
        (sweep_rule Ahead (set_going it ev) (λ i s d at w. going_by fresh s.is_started i s d at w)
          (λ i d w. record {
            orderly = w.orderly;
            bare = λ j s from at. w.bare j s (omega arith) at;
          })
          (length c.slots) 0 c (record { orderly = v; bare = bare })).orderly
