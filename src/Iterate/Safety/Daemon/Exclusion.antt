-- ===== src/Iterate/Safety/Daemon/Exclusion.antt =====
-- The daemon's entries and phases of CAs' data stay well formed (src/iterate.c), and use the storage
-- one at a time.
use certmonger.Prelude.{
  ℕ, Bool, true, false, Option, none, some, ◌≡◌, refl, sym, ◌∙◌, ap, subst, ◌==◌, ==_iff, ◌&&◌,
  arith, if◌then◌else◌,
}
use certmonger.Store.{Ca, Phase}
use certmonger.Iterate.Lock.{Lock, ok, is_held_by, same_holder, same_phase}
use certmonger.Iterate.Machine.{Machine}
use certmonger.Iterate.Ca.{iterate_ca, ca_init, ca_done}
use certmonger.Iterate.Ca.Machine.{CaWorld, CaMachine}
use certmonger.Iterate.Safety.Invariant.{Ensures, Inv, phase_fits}
use certmonger.Iterate.Safety.Outcome.{LockMove}
use certmonger.Iterate.Safety.System.{at_work, put, relocked, passed, started_anew, put-Sound}
use certmonger.Iterate.Ca.Safety.Passes.{CaEnds, iterate_ca-CaEnds}
use certmonger.Iterate.Ca.Safety.Lifecycle.{CaEnded, Begun, ca_init-Begun, ca_done-CaEnded}
use certmonger.Iterate.Ca.Safety.{ca_holds, CaInv, CaLockMove}
use certmonger.Iterate.Safety.Daemon.{
  Daemon, phase_at, put_phase, DaemonStep, DaemonSteps, FitUnder, AllSound, User, UsesStorage,
  has_storage, entry_user, ca_user, entry_pass, entry_set_up, ca_pass, ca_set_up, ca_end, stay,
  more,
}
use certmonger.Iterate.Safety.Daemon.Locks.{
  same_phase_sound, ca_move-holds, entry_move-ca_holds, ca_has, ca_move-ca_holds, move_kept,
}

refit :
    (l l' : Lock) (c : ℕ) (p : Phase) (o : Option CaMachine)
    → FitUnder l c p o
    → phase_fits l'.holder l'.phase ≡ true
    → ca_holds c p l' ≡ ca_holds c p l
    → FitUnder l' c p o
refit l l' c p none v sound same = tt
refit l l' c p (some s) v sound same = record {
  proper = v.proper;
  lock_sound = sound;
  lock_exact = same ∙ v.lock_exact;
  tasks_fit = v.tasks_fit;
  state_fits = v.state_fits;
}

-- Work on an entry leaves everything well formed.
entry-AllSound :
    (y : Daemon) (e : ℕ) (t : Machine)
    → AllSound y
    → Inv e t
    → LockMove e y.system.lock t.lock
    → AllSound (record y { system = put y.system e t })
entry-AllSound y e t v here move = record {
  entries = put-Sound y.system e t v.entries here move;
  phases = λ c p.
      refit y.system.lock t.lock c p (y.phases c p) (v.phases c p) here.lock_sound
        (entry_move-ca_holds e c p y.system.lock t.lock move);
}

chosen_phase :
    (l : Lock) (x : ℕ) (q : Phase) (t u : Option CaMachine) (b : Bool)
    → (b ≡ true → FitUnder l x q t)
    → (b ≡ false → FitUnder l x q u)
    → FitUnder l x q (if b then t else u)
chosen_phase l x q t u true ht hu = ht refl
chosen_phase l x q t u false ht hu = hu refl

same_place : (c x : ℕ) (p q : Phase) → c == x && same_phase p q ≡ true → (c ≡ x) × (p ≡ q)
same_place c x p q h =
    ((==_iff c x).0 (ground (arith, h)), same_phase_sound p q (ground (arith, h)))

-- Work on a phase does, too.
pub phase-AllSound :
    (y : Daemon) (c : ℕ) (p : Phase) (l : Lock) (t : Option CaMachine)
    → AllSound y
    → phase_fits l.holder l.phase ≡ true
    → CaLockMove c p y.system.lock l
    → FitUnder l c p t
    → AllSound (put_phase y c p l t)
phase-AllSound y c p l t v sound move here = record {
  entries = λ x.
      relocked x (at_work y.system x) l (v.entries x) sound
        (ca_move-holds c x p y.system.lock l move);
  phases = λ x q.
      chosen_phase l x q t (y.phases x q) (c == x && same_phase p q)
        (λ this.
          let (same_ca, same) = same_place c x p q this in
          subst (λ x. FitUnder l x q t) same_ca (subst (λ q. FitUnder l c q t) same here))
        λ other.
          refit y.system.lock l x q (y.phases x q) (v.phases x q) sound
            (ca_move-ca_holds c x p q y.system.lock l other move);
}

-- A phase that is iterated, as a pass finds it.
found :
    (y : Daemon) (c : ℕ) (p : Phase) (s : CaMachine) (d : Ca)
    → AllSound y
    → y.phases c p ≡ some s
    → CaInv c p (phase_at y s d)
found y c p s d v at =
    let here = subst (FitUnder y.system.lock c p) at (v.phases c p) in
    record {
      proper = here.proper;
      lock_sound = here.lock_sound;
      lock_exact = here.lock_exact;
      tasks_fit = here.tasks_fit;
      state_fits = here.state_fits;
    }

-- What work on a phase leaves, if it returns.
pub ca_pass_leaves :
    (y : Daemon) (w : CaWorld) (c : ℕ) (p : Phase) (s : CaMachine) (d : Ca) (t : CaMachine)
    → AllSound y
    → y.phases c p ≡ some s
    → iterate_ca w c p (phase_at y s d) ≡ ok (tt, t)
    → CaEnds w c p (phase_at y s d) (ok (tt, t))
ca_pass_leaves y w c p s d t v at run =
    subst (CaEnds w c p (phase_at y s d)) run
      (iterate_ca-CaEnds w c p (phase_at y s d) (found y c p s d v at))

pub ca_set_up_leaves :
    (y : Daemon) (c : ℕ) (p : Phase) (s t : CaMachine)
    → AllSound y
    → same_phase p Phase.invalid ≡ false
    → ca_init c p (record s { lock = y.system.lock }) ≡ ok (tt, t)
    → Begun c p (record s { lock = y.system.lock }) t
ca_set_up_leaves y c p s t v proper run =
    subst
      (λ o.
        Ensures {A = Unit {0} × CaMachine} (λ r. Begun c p (record s { lock = y.system.lock }) r.1)
          o)
      run (ca_init-Begun c p (record s { lock = y.system.lock }) proper (v.entries 0).lock_sound)

pub ca_end_leaves :
    (y : Daemon) (c : ℕ) (p : Phase) (s : CaMachine) (d : Ca) (t : CaMachine)
    → AllSound y
    → y.phases c p ≡ some s
    → ca_done c p (phase_at y s d) ≡ ok (tt, t)
    → CaEnded c p (phase_at y s d) (ok (tt, t))
ca_end_leaves y c p s d t v at run =
    subst (CaEnded c p (phase_at y s d)) run
      (ca_done-CaEnded c p (phase_at y s d) (found y c p s d v at))

-- Whatever happens next, everything stays well formed.
pub DaemonStep-AllSound : {y z : Daemon} → AllSound y → DaemonStep y z → AllSound z
DaemonStep-AllSound v (entry_pass y w e t run) =
    let post = passed w e (at_work y.system e) t (v.entries e) run in
    entry-AllSound y e t v post.inv post.lock_move
DaemonStep-AllSound v (entry_set_up y w e d t run) =
    let (rest, here) =
      started_anew w e (record (at_work y.system e) { details = d }) t (v.entries e).valid
        (v.entries e).lock_sound run in
    entry-AllSound y e t v here rest.lock_move
DaemonStep-AllSound v (ca_pass y w c p s d t at run) =
    let post = ca_pass_leaves y w c p s d t v at run in
    phase-AllSound y c p t.lock (some t) v post.inv.lock_sound post.lock_move post.inv
DaemonStep-AllSound v (ca_set_up y c p s t proper run) =
    let post = ca_set_up_leaves y c p s t v proper run in
    phase-AllSound y c p t.lock (some t) v post.inv.lock_sound post.lock_move post.inv
DaemonStep-AllSound v (ca_end y c p s d t at run) =
    let here = found y c p s d v at in
    let (fit, bare, same, gone, move) = ca_end_leaves y c p s d t v at run in
    phase-AllSound y c p t.lock none v
      (move_kept c p y.system.lock t.lock here.proper here.lock_sound move) move tt

pub DaemonSteps-AllSound : {y z : Daemon} → AllSound y → DaemonSteps y z → AllSound z
DaemonSteps-AllSound v (stay y) = v
DaemonSteps-AllSound v (more steps step) = DaemonStep-AllSound (DaemonSteps-AllSound v steps) step

pub one_user : (l : Lock) (u v : User) → has_storage l u ≡ true → has_storage l v ≡ true → u ≡ v
unfolding is_held_by same_holder
one_user l (entry_user a) (entry_user b) hu hv = ap entry_user (ground arith)
one_user l (entry_user a) (ca_user c p) hu hv = ground arith
one_user l (ca_user c p) (entry_user b) hu hv = ground arith
one_user l (ca_user c p) (ca_user d q) hu hv =
    let (hc, hp) = ca_has c p l hu in
    let (hd, hq) = ca_has d q l hv in
    let same_ca : c ≡ d = ground (arith, hc, hd) in
    ap (λ x. ca_user x p) same_ca ∙ ap (ca_user d) (sym hp ∙ hq)

pub has_storage-UsesStorage :
    (y : Daemon) (u : User) → AllSound y → UsesStorage y u → has_storage y.system.lock u ≡ true
has_storage-UsesStorage y (entry_user e) v uses = rw uses at (v.entries e).lock_fits
has_storage-UsesStorage y (ca_user c p) v (s, at, needs) =
    (subst (FitUnder y.system.lock c p) at (v.phases c p)).lock_exact ∙ needs

-- Whatever happened since everything was well formed: two users that both use the storage, be they
-- entries or phases of CAs' data, are the same user, and the writing lock is theirs.
pub one_user_at_a_time :
    {y z : Daemon} (u v : User)
    → AllSound y
    → DaemonSteps y z
    → UsesStorage z u
    → UsesStorage z v
    → (u ≡ v) × (has_storage z.system.lock u ≡ true)
one_user_at_a_time {z = z} u v sound steps hu hv =
    let safe = DaemonSteps-AllSound sound steps in
    let mine = has_storage-UsesStorage z u safe hu in
    (one_user z.system.lock u v mine (has_storage-UsesStorage z v safe hv), mine)
