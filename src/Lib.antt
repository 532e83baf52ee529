-- ===== src/Lib.antt =====
-- A verification library for certmonger, the daemon that tracks certificates: it makes keys and
-- signing requests, sends requests to CAs, saves what they issue, and renews it in time.
--
-- The core of the daemon is a state machine in src/iterate.c. Its main loop calls
-- `cm_iterate_entry` for every tracked certificate, an entry. One call is a pass: it looks at the
-- state of the entry, starts, polls or ends at most one helper, moves the entry to another state,
-- and answers when it wants to be called again or which descriptor to wait for. Helpers work in
-- child processes. Entries and CAs share one writing lock, since the storage of keys and
-- certificates may not be used by two of them at once.
--
-- Prelude: Boolean tests, signed integers and texts as lists of bytes.
-- Store, Store/States: the data of src/store-int.h. `State` has the constructors of `enum cm_state`
--   with the prefix left out, `Details` the fields of `struct cm_store_entry` that the state
--   machine uses, and `Ca` those of `struct cm_store_ca`. NULL is `none`.
-- Store/Names, Store/Serial, Store/Encoding: names of states, serial numbers, and bytes in
--   hexadecimal digits and base64, from src/store-gen.c. The number that strtoul() reads in a name
--   is an argument.
-- Iterate/Lock: `writing_lock` and its five functions. abort() is the fault `aborted`.
-- Iterate/Machine, Iterate/Steps: what a pass reads and writes, and the shapes its cases share. A
--   `World` holds what the code outside of src/iterate.c answers during one pass; `Tasks` says which
--   pointers of `struct cm_entry_state` are set, and a use of one that is NULL is a fault. A helper
--   may change every field of the entry but its state.
-- Iterate/Delay, Iterate/Expiry: `cm_decide_ca_delay`, `cm_decide_monitor_delay`,
--   `cm_check_expiration_is_noteworthy`, `cm_check_rekey_is_expected`. Times are natural numbers.
-- Iterate/Entry: `cm_iterate_entry` (`iterate`, with the function `on_<state>` for the case of each
--   state in the modules below), `cm_iterate_entry_init` (`init`), `cm_iterate_entry_done` (`done`)
--   and `cm_entry_reset_state` (`reset_state`).
-- Iterate/Safety: what makes an entry well formed, rules for the shapes of Iterate/Steps, one
--   theorem for every state (Keys, Requests, Submission, Saving, CaSaving, Notifying, Monitoring,
--   Added), and what follows for passes (Passes, Storage, Renewal, Waiting, Adoption), for set-up and end
--   (Lifecycle) and for all entries with the lock they share (System).
-- Iterate/Ca: `cm_iterate_ca` (`iterate_ca`, with the function `on_<state>` for the case of each state),
--   `cm_iterate_ca_init` and `cm_iterate_ca_done`, for one phase of a CA's data. The pointers of
--   `struct cm_ca_state` may be NULL, live or freed, and a use of one that is not live is a fault; `*when`
--   and `*delay` are options, since the caller leaves them unset. Iterate/Ca/Safety: what makes a phase well
--   formed (`CaInv`), with the cases that fetch, analyse and save, whole passes, set-up and end.
-- Iterate/Safety/Daemon: all entries and all phases of CAs' data, with the writing lock they share,
--   who uses the storage (Exclusion), and what a lock that is not given back leads to (Starvation).
-- Json: the values, encoder and decoder of src/json.c, which carry the messages of some CA helpers.
--   Json/Values: `struct cm_json` and the functions that look into it and change it (Lookup: what is
--   found after a change). Json/Utf: code points and UTF-8. Json/Strings: `cm_json_escape` (Escape,
--   with Written for what it writes of one character) and `cm_json_decode_string` (Unescape, Decode,
--   with ReadBack for how it reads one character). Json/Numbers, Json/Encode, Json/Decode: the rest
--   of `cm_json_encode` and `cm_json_decode`, with the function `on_<case>` for a case of its switch
--   (Levels: the variables of one call). Json/Find: `cm_json_find`, with `strtol` an argument.
--   Json/RoundTrip, Json/Termination: encoding with decoding (Plain: the values that are read back), and
--   that decoding ends.
-- Main: the part of src/cm.c that is about entries. Main/Context: `struct cm_context`; an entry is its
--   address, what `cm_iterate_entry` and the store do is the interface `Iteration`, and the event library the
--   argument `Events`, with the calls of it recorded. Main/Slots: the array of entries and the searches in it.
--   Main/Loop: `cm_service_entry`, the handlers of events, the orders of clients, and the nickname that
--   `request_modify` of src/tdbush.c gives an entry. Main/Counts, Main/Owners: whose the pending events are.
--   Main/Serving, Main/Keeping, Main/Named, Main/Arrays, Main/Sweeps, Main/Orders: what is done keeps it so.
--   Main/Answered: what becomes of an event that fires. Main/Entries: a pass of Iterate/Entry in the loop.
-- Scenarios: concrete situations, and runs of them.
--
-- A buffer that src/json.c reads is a list of bytes with its NUL, and a position is the list from there on;
-- reading behind the NUL or writing behind the space that was allocated is an outcome of its own.
-- `long double`, its printing and reading, and what talloc makes of an append to NULL are arguments.
--
-- Fuel: `loop` of Json/Decode takes a turn for each unit, and `decode` gives it two for each byte of the
-- text and its NUL, one for a turn that uses up a byte and one for the call that a bracket or brace
-- may make. `escape_from`, `scan`, `write` and `find_from` get the length of what they run over, and each
-- of their turns uses up a byte at least, and `print_digits` gets more than the number it prints.
--
-- A pass over an entry has no loop but those over lists. The loops that wait for a
-- helper in `cm_iterate_entry_init` are modelled by their last poll; that a helper comes to an end
-- is not modelled. Failures of memory allocation, logging and the release of memory are left out,
-- and so are the CAs in the main loop, its set-up, the files of the store, and the helpers.
--
-- An entry is well formed (`Inv`) if its state is valid, the lock's phase fits its holder, the entry
-- has the lock where its state needs it and does not have it where its state must not have it, and
-- exactly the helper of its state is at work. A phase of a CA's data is (`CaInv`) if the lock's phase fits
-- its holder, the phase has the lock exactly where its state needs it, and exactly the helper of its
-- state is at work, or the phase is disabled and the pointer to its analysis dangles. What
-- `cm_restart_entries_by_ca` does in the middle of a pass over a CA is recorded as an effect, and a call of
-- `cm_iterate_ca_done` without a state is not modelled.
pub mod Prelude
pub mod Store
pub mod Iterate
pub mod Json
pub mod Main
pub mod Scenarios
