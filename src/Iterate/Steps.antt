-- ===== src/Iterate/Steps.antt =====
-- The shapes that the cases of `cm_iterate_entry` in src/iterate.c share: starting a helper,
-- polling one, ending one, and taking or giving back the writing lock.
use certmonger.Prelude.{ℕ}
use certmonger.Store.{State, Phase}
use certmonger.Iterate.Lock.{entry_holder, has_lock, lock_by_entry, unlock_by_entry}
use certmonger.Iterate.Machine.{
  Tool, Call, World, When, soon, soonish, M, branch, ◌>>=◌, ◌>>◌, goto, revisit, on_lock, start,
  check, finish, watch,
}

module _ (w : World) where
  -- Start a helper. If that works, move to `next` and wait for it, else try again soonish.
  unfoldable pub launch : Tool → Call → State → M (Unit {0})
  launch tool call next = do
    started ← start w tool call
    branch started (do goto next; watch w tool) (revisit soonish)

  -- Start a helper that may be left out: without it, move straight to `skipped`.
  unfoldable pub launch_or_skip : Tool → Call → State → State → M (Unit {0})
  launch_or_skip tool call next skipped = do
    started ← start w tool call
    branch started (do goto next; watch w tool) (do goto skipped; revisit When.now)

  -- If the helper is ready go on with `body`, else wait for it.
  unfoldable pub poll : Tool → Call → M (Unit {0}) → M (Unit {0})
  poll tool ready body = do is_ready ← check w tool ready; branch is_ready body (watch w tool)

  -- One rung of a ladder of questions to a helper.
  unfoldable pub when : Tool → Call → M (Unit {0}) → M (Unit {0}) → M (Unit {0})
  when tool question body others = do answer ← check w tool question; branch answer body others

  -- Done with a helper: move on.
  unfoldable pub settle : Tool → State → When → M (Unit {0})
  settle tool next at = do finish w tool; goto next; revisit at

module _ (e : ℕ) where
  -- `if (!cm_writing_lock_by_entry(entry)) { *when = cm_time_soon; break; }`
  unfoldable pub take_lock : M (Unit {0}) → M (Unit {0})
  take_lock body = do taken ← on_lock (lock_by_entry e); branch taken body (revisit soon)

  -- The same, where the entry may hold the lock already.
  unfoldable pub hold_lock : M (Unit {0}) → M (Unit {0})
  hold_lock body s = branch (has_lock (entry_holder e) Phase.invalid s.lock) body (take_lock body) s

  -- `if (!cm_writing_unlock_by_entry(entry)) { *when = cm_time_soon; break; }`
  unfoldable pub release_lock : M (Unit {0}) → M (Unit {0})
  release_lock body = do released ← on_lock (unlock_by_entry e); branch released body (revisit soon)
