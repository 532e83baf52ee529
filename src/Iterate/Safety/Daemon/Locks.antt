-- ===== src/Iterate/Safety/Daemon/Locks.antt =====
-- What the users of the writing lock of src/iterate.c do to each other by taking it and giving it back.
use certmonger.Prelude.{ℕ, true, false, some, ◌≡◌, refl, sym, ◌==◌, ◌&&◌, inl, inr, arith}
use certmonger.Store.{Phase}
use certmonger.Iterate.Lock.{Lock, ca_holder, is_held_by, same_holder, same_phase}
use certmonger.Iterate.Safety.Invariant.{phase_fits, holds}
use certmonger.Iterate.Safety.Outcome.{LockMove}
use certmonger.Iterate.Ca.Safety.{ca_holds, CaLockMove}

pub same_phase_sound : (p q : Phase) → same_phase p q ≡ true → p ≡ q
unfolding same_phase
same_phase_sound p q h = ground arith

-- What a CA does with the lock tells entries nothing.
pub ca_move-holds :
    (c x : ℕ) (p : Phase) (l l' : Lock) → CaLockMove c p l l' → holds x l' ≡ holds x l
unfolding is_held_by same_holder
ca_move-holds c x p l l' (inl h) = rw h refl
ca_move-holds c x p l l' (inr (inl (free, took))) = ground (arith, free, took)
ca_move-holds c x p l l' (inr (inr (mine, gave))) = ground (arith, mine, gave)

-- What an entry does with it tells phases nothing.
pub entry_move-ca_holds :
    (e c : ℕ) (p : Phase) (l l' : Lock) → LockMove e l l' → ca_holds c p l' ≡ ca_holds c p l
unfolding is_held_by same_holder
entry_move-ca_holds e c p l l' (same, inl h) = rw (h, same) refl
entry_move-ca_holds e c p l l' (same, inr (inl (free, took))) = ground (arith, free, took)
entry_move-ca_holds e c p l l' (same, inr (inr (mine, gave))) = ground (arith, mine, gave)

pub ca_has :
    (c : ℕ) (p : Phase) (l : Lock)
    → ca_holds c p l ≡ true
    → (l.holder ≡ some (ca_holder c)) × (l.phase ≡ p)
unfolding is_held_by same_holder
ca_has c p l h = (ground arith, same_phase_sound l.phase p (ground arith))

-- What a phase does with it tells other phases nothing.
pub ca_move-ca_holds :
    (c x : ℕ) (p q : Phase) (l l' : Lock)
    → c == x && same_phase p q ≡ false
    → CaLockMove c p l l'
    → ca_holds x q l' ≡ ca_holds x q l
unfolding is_held_by same_holder
ca_move-ca_holds c x p q l l' other (inl h) = rw h refl
ca_move-ca_holds c x p q l l' other (inr (inl (free, took))) = rw (took, free) other
ca_move-ca_holds c x p q l l' other (inr (inr (mine, gave))) =
    let (here, now) = ca_has c p l mine in rw (gave, here, now) (sym other)

pub move_kept :
    (c : ℕ) (p : Phase) (l l' : Lock)
    → same_phase p Phase.invalid ≡ false
    → phase_fits l.holder l.phase ≡ true
    → CaLockMove c p l l'
    → phase_fits l'.holder l'.phase ≡ true
unfolding phase_fits same_phase
move_kept c p l l' proper sound (inl h) = rw h sound
move_kept c p l l' proper sound (inr (inl (free, took))) = rw (took, proper) refl
move_kept c p l l' proper sound (inr (inr (mine, gave))) = rw gave refl
