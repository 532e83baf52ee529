-- ===== src/Iterate/Safety/System.antt =====
-- The entries that the daemon iterates (src/iterate.c), with the CAs that take the same writing lock
-- in between, as steps of one system; which entries can be at work on the storage at once.
use certmonger.Prelude.{
  ℕ, ◌==◌, ==_iff, ◌≡◌, refl, sym, subst, Bool, true, false, some, arith, inl, inr, if◌then◌else◌,
}
use certmonger.Store.{Details, Phase}
use certmonger.Iterate.Lock.{
  Lock, ok, entry_holder, lock_by_ca, unlock_by_ca, is_held_by, same_holder,
}
use certmonger.Iterate.Machine.{World, Machine}
use certmonger.Iterate.Entry.{iterate, init}
use certmonger.Iterate.Safety.Invariant.{Ensures, Inv, is_valid, held, lock_need, phase_fits, holds}
use certmonger.Iterate.Safety.Outcome.{LockMove, Post}
use certmonger.Iterate.Safety.Lifecycle.{Rested, init-Rested}
use certmonger.Iterate.Safety.Passes.{iterate-Post}

-- The daemon's entries, and the lock that they share: the lock of an entry's own record is ignored.
pub record System : Type 0 where
  pub lock : Lock
  pub entries : ℕ → Machine

-- An entry as a pass over it finds it.
abbrev pub at_work : System → ℕ → Machine
at_work y e = record (y.entries e) { lock = y.lock }

-- The system after a pass left the machine `t` for the entry at `e`.
abbrev pub put : System → ℕ → Machine → System
put y e t = record { lock = t.lock; entries = λ x. if x == e then t else y.entries x }

-- What can happen next: a pass over an entry, setting an entry up anew with other details, or a CA taking or giving back the lock.
pub data Step : System → System → Type 0 where
  pass :
      (y : System) (w : World) (e : ℕ) (t : Machine)
      → iterate w e (at_work y e) ≡ ok (tt, t)
      → Step y (put y e t)
  set_up :
      (y : System) (w : World) (e : ℕ) (d : Details) (t : Machine)
      → init w e (record (at_work y e) { details = d }) ≡ ok (tt, t)
      → Step y (put y e t)
  ca_lock :
      (y : System) (c : ℕ) (p : Phase) (b : Bool) (l : Lock)
      → lock_by_ca c p y.lock ≡ ok (b, l)
      → Step y (record y { lock = l })
  ca_unlock :
      (y : System) (c : ℕ) (p : Phase) (b : Bool) (l : Lock)
      → unlock_by_ca c p y.lock ≡ ok (b, l)
      → Step y (record y { lock = l })

pub data Steps : System → System → Type 0 where
  stay : (y : System) → Steps y y
  more : {x y z : System} → Steps x y → Step y z → Steps x z

-- Every entry is well formed.
abbrev pub Sound : System → Type 0
Sound y = (e : ℕ) → Inv e (at_work y e)

-- An entry that is well formed stays so under a lock that it has as before.
pub relocked :
    (x : ℕ) (s : Machine) (l : Lock)
    → Inv x s
    → phase_fits l.holder l.phase ≡ true
    → holds x l ≡ holds x s.lock
    → Inv x (record s { lock = l })
relocked x s l v sound same = record {
  valid = v.valid;
  lock_sound = sound;
  lock_fits = rw same v.lock_fits;
  tasks_exact = v.tasks_exact;
}

-- A pass over another entry does not change whether this one has the lock.
pub others_lock :
    (e x : ℕ) (l l' : Lock) → x == e ≡ false → LockMove e l l' → holds x l' ≡ holds x l
unfolding is_held_by same_holder
others_lock e x l l' other (p, inl h) = rw h refl
others_lock e x l l' other (p, inr (inl (free, took))) = ground (arith, other, free, took)
others_lock e x l l' other (p, inr (inr (mine, gave))) = ground (arith, other, mine, gave)

-- A CA's calls leave the lock sound, and tell entries nothing.
ca_lock_kept :
    (c : ℕ) (p : Phase) (l l' : Lock) (b : Bool) (x : ℕ)
    → phase_fits l.holder l.phase ≡ true
    → lock_by_ca c p l ≡ ok (b, l')
    → (phase_fits l'.holder l'.phase ≡ true) × (holds x l' ≡ holds x l)
unfolding lock_by_ca phase_fits is_held_by same_holder
ca_lock_kept c p l l' b x sound run = ground arith

ca_unlock_kept :
    (c : ℕ) (p : Phase) (l l' : Lock) (b : Bool) (x : ℕ)
    → phase_fits l.holder l.phase ≡ true
    → unlock_by_ca c p l ≡ ok (b, l')
    → (phase_fits l'.holder l'.phase ≡ true) × (holds x l' ≡ holds x l)
unfolding unlock_by_ca phase_fits is_held_by same_holder
ca_unlock_kept c p l l' b x sound run = ground arith

-- The result of a pass that is known to return.
pub passed :
    (w : World) (e : ℕ) (s t : Machine)
    → Inv e s
    → iterate w e s ≡ ok (tt, t)
    → Post e s.state s.lock t
passed w e s t v run =
    subst (λ o. Ensures {A = Unit {0} × Machine} (λ r. Post e s.state s.lock r.1) o) run
      (iterate-Post w e s v)

chosen :
    (x : ℕ) (t u : Machine) (l : Lock) (b : Bool)
    → (b ≡ true → Inv x (record t { lock = l }))
    → (b ≡ false → Inv x (record u { lock = l }))
    → Inv x (record (if b then t else u) { lock = l })
chosen x t u l true ht hu = ht refl
chosen x t u l false ht hu = hu refl

pub put-Sound :
    (y : System) (e : ℕ) (t : Machine)
    → Sound y
    → Inv e t
    → LockMove e y.lock t.lock
    → Sound (put y e t)
put-Sound y e t sound v move x =
    chosen x t (y.entries x) t.lock (x == e)
      (λ same. subst (λ z. Inv z t) (sym ((==_iff x e).0 same)) v)
      (λ other.
        relocked x (at_work y x) t.lock (sound x) v.lock_sound
          (others_lock e x y.lock t.lock other move))

pub started_anew :
    (w : World) (e : ℕ) (s t : Machine)
    → is_valid s.state ≡ true
    → phase_fits s.lock.holder s.lock.phase ≡ true
    → init w e s ≡ ok (tt, t)
    → Rested e s t × Inv e t
started_anew w e s t valid sound run =
    subst (λ o. Ensures {A = Unit {0} × Machine} (λ r. Rested e s r.1 × Inv e r.1) o) run
      (init-Rested w e s valid sound)

-- Whatever happens next, well-formed entries stay well formed.
pub Step-Sound : {y z : System} → Sound y → Step y z → Sound z
Step-Sound sound (pass y w e t run) x =
    let p = passed w e (at_work y e) t (sound e) run in put-Sound y e t sound p.inv p.lock_move x
Step-Sound sound (set_up y w e d t run) x =
    let (rest, v) =
      started_anew w e (record (at_work y e) { details = d }) t (sound e).valid (sound e).lock_sound
        run in
    put-Sound y e t sound v rest.lock_move x
Step-Sound sound (ca_lock y c p b l run) x =
    let (fits, same) = ca_lock_kept c p y.lock l b x (sound x).lock_sound run in
    relocked x (at_work y x) l (sound x) fits same
Step-Sound sound (ca_unlock y c p b l run) x =
    let (fits, same) = ca_unlock_kept c p y.lock l b x (sound x).lock_sound run in
    relocked x (at_work y x) l (sound x) fits same

Steps-Sound : {y z : System} → Sound y → Steps y z → Sound z
Steps-Sound sound (stay y) = sound
Steps-Sound sound (more steps step) = Step-Sound (Steps-Sound sound steps) step

one_holder : (a b : ℕ) (l : Lock) → holds a l ≡ true → holds b l ≡ true → a ≡ b
unfolding is_held_by same_holder
one_holder a b l ha hb = ground arith

entry_has : (a : ℕ) (l : Lock) → holds a l ≡ true → l.holder ≡ some (entry_holder a)
unfolding is_held_by same_holder
entry_has a l h = ground arith

-- Whatever happened since all entries were well formed: two entries that are both in states in which
-- the storage is used under the writing lock are the same entry, and it has the lock.
pub mutual_exclusion :
    {y z : System} (a b : ℕ)
    → Sound y
    → Steps y z
    → lock_need (z.entries a).state ≡ held
    → lock_need (z.entries b).state ≡ held
    → (a ≡ b) × (z.lock.holder ≡ some (entry_holder a))
mutual_exclusion {z = z} a b sound steps ha hb =
    let safe = Steps-Sound sound steps in
    let mine = rw ha at (safe a).lock_fits in
    let yours = rw hb at (safe b).lock_fits in
    (one_holder a b z.lock mine yours, entry_has a z.lock mine)
