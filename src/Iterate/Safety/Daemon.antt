-- ===== src/Iterate/Safety/Daemon.antt =====
-- The daemon as a whole: the entries and the phases of CAs' data that it iterates (src/iterate.c, as
-- src/cm.c calls it), which share the writing lock, as steps of one system.
pub mod Locks
pub mod Exclusion
pub mod Starvation
use certmonger.Prelude.{
  ℕ, Bool, true, false, Option, none, some, ◌≡◌, refl, sym, ◌∙◌, ap, subst, ◌==◌, ==_iff, ◌&&◌, inl,
  inr, arith, if◌then◌else◌,
}
use certmonger.Store.{Ca, Details, Phase}
use certmonger.Iterate.Lock.{
  Lock, Outcome, ok, Holder, entry_holder, ca_holder, is_held_by, same_holder, same_phase,
}
use certmonger.Iterate.Machine.{World, Machine}
use certmonger.Iterate.Entry.{iterate, init}
use certmonger.Iterate.Ca.{iterate_ca, ca_init, ca_done}
use certmonger.Iterate.Ca.Machine.{CaWorld, CaMachine}
use certmonger.Iterate.Safety.Invariant.{Ensures, Inv, held, lock_need, phase_fits, holds}
use certmonger.Iterate.Safety.Outcome.{LockMove}
use certmonger.Iterate.Safety.System.{
  System, at_work, put, Sound, relocked, passed, started_anew, put-Sound,
}
use certmonger.Iterate.Ca.Safety.Passes.{CaEnds, iterate_ca-CaEnds}
use certmonger.Iterate.Ca.Safety.Lifecycle.{CaEnded, Begun, ca_init-Begun, ca_done-CaEnded}
use certmonger.Iterate.Ca.Safety.{ca_holds, needs_lock, CaInv, CaLockMove, CaPost}

-- The entries with the lock, and the phases of CAs' data that are being iterated, by the address of
-- the CA: the lock of a phase's own record is ignored.
pub record Daemon : Type 0 where
  pub system : System
  pub phases : ℕ → Phase → Option CaMachine

-- A phase as a pass finds it, with the data that the CA has by then.
abbrev pub phase_at : Daemon → CaMachine → Ca → CaMachine
phase_at y s d = record s { lock = y.system.lock; ca = d }

-- The daemon after work on the phase `p` of the CA at `c` left the lock as `l` and the phase as `t`.
abbrev pub put_phase : Daemon → ℕ → Phase → Lock → Option CaMachine → Daemon
put_phase y c p l t = record {
  system = record y.system { lock = l };
  phases = λ x q. if c == x && same_phase p q then t else y.phases x q;
}

-- What can happen next: a pass over an entry, setting an entry up, and the same and the end of the
-- work for a phase of a CA's data.
pub data DaemonStep : Daemon → Daemon → Type 0 where
  entry_pass :
      (y : Daemon) (w : World) (e : ℕ) (t : Machine)
      → iterate w e (at_work y.system e) ≡ ok (tt, t)
      → DaemonStep y (record y { system = put y.system e t })
  entry_set_up :
      (y : Daemon) (w : World) (e : ℕ) (d : Details) (t : Machine)
      → init w e (record (at_work y.system e) { details = d }) ≡ ok (tt, t)
      → DaemonStep y (record y { system = put y.system e t })
  ca_pass :
      (y : Daemon) (w : CaWorld) (c : ℕ) (p : Phase) (s : CaMachine) (d : Ca) (t : CaMachine)
      → y.phases c p ≡ some s
      → iterate_ca w c p (phase_at y s d) ≡ ok (tt, t)
      → DaemonStep y (put_phase y c p t.lock (some t))
  ca_set_up :
      (y : Daemon) (c : ℕ) (p : Phase) (s t : CaMachine)
      → same_phase p Phase.invalid ≡ false
      → ca_init c p (record s { lock = y.system.lock }) ≡ ok (tt, t)
      → DaemonStep y (put_phase y c p t.lock (some t))
  ca_end :
      (y : Daemon) (c : ℕ) (p : Phase) (s : CaMachine) (d : Ca) (t : CaMachine)
      → y.phases c p ≡ some s
      → ca_done c p (phase_at y s d) ≡ ok (tt, t)
      → DaemonStep y (put_phase y c p t.lock none)

pub data DaemonSteps : Daemon → Daemon → Type 0 where
  stay : (y : Daemon) → DaemonSteps y y
  more : {x y z : Daemon} → DaemonSteps x y → DaemonStep y z → DaemonSteps x z

-- A phase is well formed under a lock, if it is iterated at all.
abbrev pub FitUnder : Lock → ℕ → Phase → Option CaMachine → Type 0
FitUnder l c p none = Unit {0}
FitUnder l c p (some s) = CaInv c p (record s { lock = l })

-- Every entry and every phase is well formed.
pub record AllSound (y : Daemon) : Type 0 where
  pub entries : Sound y.system
  pub phases : (c : ℕ) (p : Phase) → FitUnder y.system.lock c p (y.phases c p)

-- Who uses the storage: an entry, or a phase of a CA's data.
pub data User : Type 0 where
  entry_user : ℕ → User
  ca_user : ℕ → Phase → User

-- The user is in a state in which the storage is used under the writing lock.
abbrev pub UsesStorage : Daemon → User → Type 0
UsesStorage y (entry_user e) = lock_need (y.system.entries e).state ≡ held
UsesStorage y (ca_user c p) =
    (s : CaMachine) × (y.phases c p ≡ some s) × (needs_lock s.state ≡ true)

-- The writing lock is the user's.
abbrev pub has_storage : Lock → User → Bool
has_storage l (entry_user e) = holds e l
has_storage l (ca_user c p) = ca_holds c p l
