-- ===== src/Iterate/Expiry.antt =====
-- src/iterate.c: whether the end of a certificate has come near enough to act on
-- (`cm_check_expiration_is_noteworthy`), and whether policy wants a new key
-- (`cm_check_rekey_is_expected`).
pub mod Crossings
use certmonger.Prelude.{
  ℕ, ◌+◌, ◌-◌, ◌==◌, Bool, true, false, not, ◌&&◌, ◌||◌, Option, none, some, List, [], ◌∷◌,
  if◌then◌else◌, ltb, leb, any, ℤ, pos, ltb_ℤ, eqb_ℤ,
}
use certmonger.Store.{Details}
use certmonger.Iterate.Delay.{delay_monitor_poll_minimum}

-- The time that is left at `at`; an end in the past leaves 0.
unfoldable pub ttl_at : ℕ → ℕ → ℕ
ttl_at not_after at = if ltb not_after at then 0 else not_after - at

-- The time left went past `t`, in either direction.
unfoldable pub crosses : ℕ → ℕ → ℕ → Bool
crosses ttl previous t = (ltb ttl t && leb t previous) || (leb t ttl && ltb previous t)

-- The checks once the list of interesting values is at hand.
unfoldable pub crossed_any : ℕ → ℕ → Option (List ℕ) → Bool
unfolding crosses
crossed_any ttl previous none = false
crossed_any ttl previous (some []) = false
crossed_any ttl previous (some (t ∷ ts)) = any (crosses ttl previous) (t ∷ ts) || ttl == 0

-- `cm_check_expiration_is_noteworthy`: whether it returns 0, and `*last_check` afterwards. The age
-- test `not_before > now - minimum` is written without the difference, which may be negative.
unfoldable pub check_noteworthy : ℕ → ℕ → ℕ → Option (List ℕ) → ℕ → Bool × ℕ
unfolding ttl_at crossed_any
check_noteworthy at not_before not_after ttls last_check =
    if not_after == 0
    then (false, last_check)
    else (if ltb at (not_before + delay_monitor_poll_minimum)
        then (false, last_check)
        else (crossed_any (ttl_at not_after at) (ttl_at not_after last_check) ttls, at))

-- The two calls that the state machine makes, on the entry's own record of its last check.
unfoldable pub check_notify : ℕ → Option (List ℕ) → Details → Bool × Details
check_notify at ttls d =
    let (hit, last) =
      check_noteworthy at d.cert_not_before d.cert_not_after ttls d.last_need_notify_check in
    (hit, record d { last_need_notify_check = last })

unfoldable pub check_enroll : ℕ → Option (List ℕ) → Details → Bool × Details
check_enroll at ttls d =
    let (hit, last) =
      check_noteworthy at d.cert_not_before d.cert_not_after ttls d.last_need_enroll_check in
    (hit, record d { last_need_enroll_check = last })

abbrev is_past : Option ℕ → ℕ → Bool
is_past none at = false
is_past (some t) at = leb t at

-- `cm_check_rekey_is_expected`
unfoldable pub rekey_is_expected : ℕ → (ℕ → Option ℕ) → ℤ → Details → Bool
rekey_is_expected at end_of_life max_uses d =
    if not (d.key_generated_date == 0) && is_past (end_of_life d.key_generated_date) at
    then true
    else ltb_ℤ (pos 0) max_uses && not (ltb_ℤ (pos d.key_issued_count) max_uses)
