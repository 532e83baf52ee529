-- ===== src/Iterate/Safety/Daemon/Starvation.antt =====
-- What becomes of the daemon of src/iterate.c while an entry that waits for guidance has the writing lock.
use certmonger.Prelude.{ℕ, true, false, ◌≡◌, ◌==◌}
use certmonger.Store.{need_guidance}
use certmonger.Iterate.Machine.{Machine}
use certmonger.Iterate.Safety.Invariant.{holds}
use certmonger.Iterate.Safety.System.{System}
use certmonger.Iterate.Safety.Daemon.{Daemon, DaemonStep, entry_set_up}

-- Nobody sets the entry at `e` up anew.
abbrev pub LeavesAlone : {y z : Daemon} → ℕ → DaemonStep y z → Type 0
LeavesAlone e (entry_set_up y w a d t run) = e == a ≡ false
LeavesAlone e _ = Unit {0}

pub data StepsWithout (e : ℕ) : Daemon → Daemon → Type 0 where
  stay : (y : Daemon) → StepsWithout e y y
  more :
      {x y z : Daemon}
      → StepsWithout e x y
      → (step : DaemonStep y z) → LeavesAlone e step
      → StepsWithout e x z

-- The entry waits for guidance and has the writing lock.
abbrev pub IsStuck : ℕ → System → Type 0
IsStuck e y = ((y.entries e).state ≡ need_guidance) × (holds e y.lock ≡ true)
