-- ===== src/Scenarios/MainWitnesses.antt =====
-- Concrete runs of src/cm.c, which also show that the theorems' conditions can be met.
use certmonger.Prelude.{
  ℕ, suc, ◌+◌, ◌≤◌, true, none, some, is_some, List, [], ◌∷◌, ◌≡◌, ◌⊎◌, refl, pos, Text, text_eq,
  codes, arith,
}
use certmonger.Iterate.Machine.{no_tasks}
use certmonger.Iterate.Lock.{lock_by_entry, is_held_by, is_free}
use certmonger.Iterate.Steps.{take_lock}
use certmonger.Iterate.Entry.Keys.{on_need_key_pair}
use certmonger.Iterate.Entry.{iterate, begin, conclude, dispatch}
use certmonger.Iterate.Safety.System.{at_work}
use certmonger.Iterate.Safety.Diagram.{awaits}
use certmonger.Main.Context.{EventCall, added, freed, Iteration, Events, Context}
use certmonger.Main.Slots.{find_index, slot_at, modify_slot, find_entry_by_nickname}
use certmonger.Main.Loop.{
  add_entry, insert_entry, start_entry, at_nickname, start_at, serve, service_entry, schedule,
  add_event, reset_timeout, rearm, free_event, handle_event, rename_entry,
}
use certmonger.Main.Owners.{pending, FreshEvents, Orderly}
use certmonger.Main.Arrays.{add_entry-Orderly}
use certmonger.Main.Orders.{Turn, Turns, Turns-Orderly}
use certmonger.Main.Answered.{Answered, handle_event-Answered}
use certmonger.Main.Entries.{verdict_of, service_entry_comes_back}
use certmonger.Scenarios.{world_1, system_1, system_1-Sound, making}

-- Handles that were never in use.
abbrev past : List EventCall → ℕ
past [] = 1
past (added h t ∷ cs) = suc h + past cs
past (freed h ∷ cs) = suc h + past cs

abbrev events_1 : Events
events_1 = record { new_event = λ cs. some (past cs); time = λ cs. pos 7000 }

beyond : (cs : List EventCall) (h : ℕ) → past cs ≤ h → pending h cs ≡ 0
unfolding pending
beyond [] h far = refl
beyond (added g t ∷ cs) h far = let rest = beyond cs h (omega arith) in ground (arith, rest, far)
beyond (freed g ∷ cs) h far = let rest = beyond cs h (omega arith) in omega arith

events_1-FreshEvents : FreshEvents events_1
events_1-FreshEvents cs h new = beyond cs h (ground (arith, new))

-- Entries of which every pass is that of an entry whose key is being made.
abbrev iteration_1 : Iteration ℕ
iteration_1 = record {
  begin = λ n e. (true, n);
  pass = λ n e. (verdict_of making, suc n);
  finish = λ n e. n;
  save = λ n e. n;
  drop = λ n e. (true, n);
  ca_of = λ n e. none;
}

abbrev nobody : Context ℕ
nobody = record {
  slots = [];
  shared = 0;
  calls = [];
  idle_timeout = pos 60;
  idle_event = none;
  should_quit = 0;
}

nobody-Orderly : Orderly nobody
unfolding pending
nobody-Orderly = record { tidy = λ h. (refl, omega arith) }

abbrev web : Text
web = codes "web"

abbrev somebody : Context ℕ
somebody = (add_entry iteration_1 events_1 1 web web nobody).1

Turns-Orderly_example : Orderly (rename_entry iteration_1 events_1 0 (codes "w") somebody)
Turns-Orderly_example = Turns-Orderly iteration_1 events_1 events_1-FreshEvents nobody-Orderly (
    Turns.next (Turns.next (Turns.rest nobody) (Turn.add nobody 1 web web))
      (Turn.rename somebody 0 (codes "w")))

somebody-Orderly : Orderly somebody
somebody-Orderly =
    add_entry-Orderly iteration_1 events_1 events_1-FreshEvents 1 web web nobody nobody-Orderly

handle_event-Answered_example :
    Answered iteration_1 events_1 1 somebody (handle_event iteration_1 events_1 1 somebody)
unfolding add_entry insert_entry start_entry at_nickname start_at serve service_entry schedule
    add_event reset_timeout rearm free_event find_index slot_at modify_slot find_entry_by_nickname
    pending text_eq
handle_event-Answered_example =
    handle_event-Answered iteration_1 events_1 events_1-FreshEvents 1 somebody somebody-Orderly refl

service_entry_comes_back_example :
    (is_some (service_entry iteration_1 events_1 1 nobody).0 ≡ true)
    ⊎ ((events_1.new_event [] ≡ none) ⊎ (awaits making.state ≡ true))
unfolding iterate begin conclude dispatch on_need_key_pair take_lock lock_by_entry is_held_by
    is_free no_tasks
service_entry_comes_back_example =
    service_entry_comes_back iteration_1 events_1 world_1 1 (at_work system_1 1) making nobody
      (system_1-Sound 1) refl refl
