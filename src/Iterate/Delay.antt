-- ===== src/Iterate/Delay.antt =====
-- src/iterate.c: how long to wait before the CA is asked again and before a certificate is looked
-- at again. The constants are those of configure.ac, in seconds.
pub mod Bounds
use certmonger.Prelude.{
  ℕ, ◌+◌, ◌-◌, ◌*◌, ◌/◌, ◌==◌, Bool, not, ◌&&◌, Option, none, some, List, [], ◌∷◌, if◌then◌else◌,
  ltb, ℤ, pos, negsuc, ltb_ℤ, eqb_ℤ, half_ℤ,
}

-- CM_DELAY_SOON
abbrev pub delay_soon : ℕ
delay_soon = 5

-- CM_DELAY_SOONISH
abbrev pub delay_soonish : ℕ
delay_soonish = 30

abbrev pub delay_ca_poll : ℕ
delay_ca_poll = 7 * 24 * 60 * 60

abbrev pub delay_ca_poll_minimum : ℕ
delay_ca_poll_minimum = 5 * 60

abbrev pub delay_ca_poll_maximum : ℕ
delay_ca_poll_maximum = 365 * 24 * 60 * 60

abbrev pub delay_cadata_poll : ℕ
delay_cadata_poll = 6 * 60 * 60

abbrev pub delay_monitor_poll : ℕ
delay_monitor_poll = 24 * 60 * 60

abbrev pub delay_monitor_poll_minimum : ℕ
delay_monitor_poll_minimum = 30 * 60

abbrev pub delay_monitor_poll_maximum : ℕ
delay_monitor_poll_maximum = 7 * 24 * 60 * 60

-- (time_t) -1, for a certificate whose end is not known.
abbrev pub unknown_remaining : ℤ
unknown_remaining = negsuc 0

-- `if (delay < lo) delay = lo; if (delay > hi) delay = hi;`
unfoldable pub clamp : ℕ → ℕ → ℤ → ℤ
clamp lo hi d =
    let raised = if ltb_ℤ d (pos lo) then pos lo else d in
    if ltb_ℤ (pos hi) raised then pos hi else raised

-- `cm_decide_ca_delay`
unfoldable pub decide_ca_delay : ℤ → ℤ
unfolding clamp
decide_ca_delay remaining =
    if not (eqb_ℤ remaining unknown_remaining) && ltb_ℤ remaining (pos (2 * delay_ca_poll))
    then clamp delay_ca_poll_minimum delay_ca_poll_maximum (half_ℤ remaining)
    else pos delay_ca_poll

-- One of the loops of `cm_decide_monitor_delay`: the greatest of the values below `remaining`.
unfoldable pub next_ttl : ℕ → ℕ → List ℕ → ℕ
next_ttl remaining next [] = next
next_ttl remaining next (ttl ∷ ttls) =
    next_ttl remaining (if ltb ttl remaining && ltb next ttl then ttl else next) ttls

-- `if ((get_ttls(&ttls, &n_ttls) == 0) && (n_ttls > 0)) for (...)`
unfoldable pub next_ttl_of : ℕ → ℕ → Option (List ℕ) → ℕ
unfolding next_ttl
next_ttl_of remaining next none = next
next_ttl_of remaining next (some ttls) = next_ttl remaining next ttls

-- The wait when `remaining` is known and positive, before it is clamped.
unfoldable pub monitor_delay_known : ℕ → Option (List ℕ) → Option (List ℕ) → ℕ
monitor_delay_known remaining ttls1 ttls2 =
    let next = next_ttl_of remaining (next_ttl_of remaining 0 ttls1) ttls2 in
    let delay : ℕ = delay_monitor_poll in
    if not (next == 0) && ltb (remaining - next + delay_soon) delay
    then remaining - next + delay_soon
    else (if ltb remaining (2 * delay) then remaining / 2 else delay)

-- The wait before it is clamped.
unfoldable pub monitor_delay : ℤ → Option (List ℕ) → Option (List ℕ) → ℕ
monitor_delay (pos n) ttls1 ttls2 =
    if ltb 0 n then monitor_delay_known n ttls1 ttls2 else delay_monitor_poll
monitor_delay (negsuc n) ttls1 ttls2 = delay_monitor_poll

-- `cm_decide_monitor_delay`
unfoldable pub decide_monitor_delay : ℤ → Option (List ℕ) → Option (List ℕ) → ℤ
unfolding clamp monitor_delay
decide_monitor_delay remaining ttls1 ttls2 =
    clamp delay_monitor_poll_minimum delay_monitor_poll_maximum
      (pos (monitor_delay remaining ttls1 ttls2))
