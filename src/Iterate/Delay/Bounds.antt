-- ===== src/Iterate/Delay/Bounds.antt =====
-- The waits of src/iterate.c lie within their limits, and monitoring does not sleep through the
-- moments at which somebody is to be warned or a renewal is due.
use certmonger.Prelude.{
  ℕ, ◌+◌, ◌-◌, ◌≤◌, ◌<◌, ◌⊎◌, inl, inr, Option, none, some, List, [], ◌∷◌, ℤ, pos, ◌≤ℤ◌, arith,
  if◌then◌else◌, ltb, ◌&&◌,
}
use Prim.Native.Nat.{max}
use mathlib.Core.List.{Memᴰ}
use certmonger.Iterate.Delay.{
  delay_soon, delay_ca_poll_minimum, delay_ca_poll_maximum, delay_monitor_poll_minimum,
  delay_monitor_poll_maximum, clamp, decide_ca_delay, next_ttl, next_ttl_of, monitor_delay_known,
  monitor_delay, decide_monitor_delay,
}

pub clamp_bounds :
    (lo hi : ℕ) (d : ℤ) → lo ≤ hi → (pos lo ≤ℤ clamp lo hi d) × (clamp lo hi d ≤ℤ pos hi)
unfolding clamp
clamp_bounds lo hi d h = ground arith

-- The wait before a CA is asked again is at least five minutes and at most a year, whatever time the
-- certificate has left.
pub decide_ca_delay_bounds :
    (remaining : ℤ)
    → (pos delay_ca_poll_minimum ≤ℤ decide_ca_delay remaining)
      × (decide_ca_delay remaining ≤ℤ pos delay_ca_poll_maximum)
unfolding decide_ca_delay
decide_ca_delay_bounds remaining = ground arith

-- The wait before a certificate is looked at again is at least half an hour and at most a week,
-- whatever time it has left and whatever distances are configured.
pub decide_monitor_delay_bounds :
    (remaining : ℤ) (ttls1 ttls2 : Option (List ℕ))
    → (pos delay_monitor_poll_minimum ≤ℤ decide_monitor_delay remaining ttls1 ttls2)
      × (decide_monitor_delay remaining ttls1 ttls2 ≤ℤ pos delay_monitor_poll_maximum)
unfolding decide_monitor_delay
decide_monitor_delay_bounds remaining ttls1 ttls2 =
    clamp_bounds _ _ (pos (monitor_delay remaining ttls1 ttls2)) (omega arith)

-- What the search for the next threshold finds is below the time that remains, not less than what
-- it began with, and not less than any threshold below the time that remains.
next_ttl_below : (r n : ℕ) (ts : List ℕ) → n < r → next_ttl r n ts < r
unfolding next_ttl
next_ttl_below r n [] h = h
next_ttl_below r n (t ∷ ts) h = ground (arith, next_ttl_below r t ts, next_ttl_below r n ts)

next_ttl_grows : (r n : ℕ) (ts : List ℕ) → n ≤ next_ttl r n ts
unfolding next_ttl
next_ttl_grows r n [] = omega arith
next_ttl_grows r n (t ∷ ts) = ground (arith, next_ttl_grows r t ts, next_ttl_grows r n ts)

next_ttl_covers : (r n t : ℕ) (ts : List ℕ) → Memᴰ t ts → t < r → t ≤ next_ttl r n ts
unfolding next_ttl
next_ttl_covers r n t [] m h = elim m [ ]
next_ttl_covers r n t (u ∷ ts) (Memᴰ.head e) h =
    ground (arith, next_ttl_grows r u ts, next_ttl_grows r n ts)
next_ttl_covers r n t (u ∷ ts) (Memᴰ.tail m) h =
    next_ttl_covers r (if ltb u r && ltb n u then u else n) t ts m h

-- A threshold of a list that the configuration gave.
abbrev pub Configured : ℕ → Option (List ℕ) → Type 0
Configured t none = ⊥
Configured t (some ts) = Memᴰ t ts

next_ttl_of-below : (r n : ℕ) (o : Option (List ℕ)) → n < r → next_ttl_of r n o < r
unfolding next_ttl_of
next_ttl_of-below r n none h = h
next_ttl_of-below r n (some ts) h = next_ttl_below r n ts h

next_ttl_of-grows : (r n : ℕ) (o : Option (List ℕ)) → n ≤ next_ttl_of r n o
unfolding next_ttl_of
next_ttl_of-grows r n none = omega arith
next_ttl_of-grows r n (some ts) = next_ttl_grows r n ts

next_ttl_of-covers :
    (r n t : ℕ) (o : Option (List ℕ)) → Configured t o → t < r → t ≤ next_ttl_of r n o
unfolding next_ttl_of
next_ttl_of-covers r n t none m h = absurd m
next_ttl_of-covers r n t (some ts) m h = next_ttl_covers r n t ts m h

module _ (r t : ℕ) (ttls1 ttls2 : Option (List ℕ)) where
  abbrev found : ℕ
  found = next_ttl_of r (next_ttl_of r 0 ttls1) ttls2

  covers : Configured t ttls1 ⊎ Configured t ttls2 → t < r → t ≤ found
  covers (inl m) h =
      omega (
        arith,
        next_ttl_of-covers r 0 t ttls1 m h,
        next_ttl_of-grows r (next_ttl_of r 0 ttls1) ttls2,
      )
  covers (inr m) h = next_ttl_of-covers r _ t ttls2 m h

  found-below : 0 < r → found < r
  found-below h = next_ttl_of-below r _ ttls2 (next_ttl_of-below r 0 ttls1 h)

  known_wakes :
      Configured t ttls1 ⊎ Configured t ttls2
      → 0 < t
      → t < r
      → monitor_delay_known r ttls1 ttls2 ≤ r - t + delay_soon
  unfolding monitor_delay_known
  known_wakes m z h = ground (arith, covers m h, found-below (omega arith))

  -- While the time that remains is above a configured positive threshold `t`, the certificate is looked at
  -- again at most `delay_soon` after it comes down to `t`, or after the shortest wait there is.
  pub monitor_delay_wakes :
      Configured t ttls1 ⊎ Configured t ttls2
      → 0 < t
      → t < r
      → decide_monitor_delay (pos r) ttls1 ttls2
        ≤ℤ pos (max delay_monitor_poll_minimum (r - t + delay_soon))
  unfolding decide_monitor_delay
  monitor_delay_wakes m z h = ground (arith, known_wakes m z h)
