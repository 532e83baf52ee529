-- ===== src/Iterate/Entry/Submission.antt =====
-- src/iterate.c, `cm_iterate_entry`: the cases that send a request to a CA and act on what the CA
-- says.
use certmonger.Prelude.{Option, none, some, if◌then◌else◌, is_some, ℤ, pos, ltb_ℤ}
use certmonger.Store.{
  Ca, CaType, internal_self, external, Details, submitting, need_ca, need_to_submit,
  need_to_save_cert, monitoring, need_to_notify_rejection, ca_unreachable, ca_working,
  ca_unconfigured, need_scep_data, need_key_pair, need_guidance,
}
use certmonger.Store.Serial.{increment_serial}
use certmonger.Iterate.Machine.{
  World, When, soonish, delayed, M, saved_ca, branch, ◌>>=◌, ◌>>◌, goto, revisit, modify,
  get_details, set_details, set_delay, emit, deref, start, finish, watch, submit, submit_start,
  submit_ready, submit_issued, submit_rejected, submit_unreachable, submit_save_ca_cookie,
  submit_unconfigured, submit_need_scep_messages, submit_need_rekey,
}
use certmonger.Iterate.Delay.{decide_ca_delay}
use certmonger.Iterate.Steps.{poll, when, settle}

-- The internal CA's serial number is used up when a submission starts.
unfoldable pub use_serial : CaType → Ca → M (Unit {0})
use_serial external ca = modify λ s. s
use_serial internal_self ca = do
  modify λ s. record s {
    ca = some (record ca { internal_serial = some (increment_serial ca.internal_serial) });
  }
  emit saved_ca

unfoldable pub mark_serial : Option Ca → M (Unit {0})
unfolding use_serial
mark_serial none = modify λ s. s
mark_serial (some ca) = use_serial ca.type ca

-- The nonce of a SCEP exchange is remembered.
unfoldable pub note_nonce : Details → Details
note_nonce d = if is_some d.scep_nonce then record d { scep_last_nonce = d.scep_nonce } else d

-- cm_submit_clear_ca_cookie(state->cm_submit_state), and then `k`
abbrev pub clear_ca_cookie : M (Unit {0}) → M (Unit {0})
clear_ca_cookie k = do deref submit; set_details λ d. record d { ca_cookie = none }; k

module _ (w : World) where
  -- The submission has been started, or could not be.
  abbrev pub if_started : M (Unit {0})
  if_started = do goto submitting; watch w submit; λ s. mark_serial s.ca s; set_details note_nonce

  abbrev pub if_not_started : M (Unit {0})
  if_not_started s = branch (is_some s.ca) (revisit soonish) (do goto need_ca; revisit When.now) s

  -- CM_NEED_TO_SUBMIT
  unfoldable pub on_need_to_submit : M (Unit {0})
  on_need_to_submit = do
    started ← start w submit submit_start
    branch started if_started if_not_started

  -- The wait that the CA asks for, or one of ours if it asks for none.
  unfoldable pub submit_delay : ℤ → ℤ
  submit_delay remaining =
      if ltb_ℤ w.specified_delay (pos 0) then decide_ca_delay remaining else w.specified_delay

  -- cm_submit_issued() == 0
  abbrev if_issued : M (Unit {0})
  if_issued = clear_ca_cookie (settle w submit need_to_save_cert When.now)

  -- cm_submit_rejected() == 0
  abbrev if_rejected : M (Unit {0})
  if_rejected = clear_ca_cookie do
    finish w submit
    d ← get_details
    branch (is_some d.cert) (do goto monitoring; revisit soonish)
        (do goto need_to_notify_rejection; revisit When.now)

  -- cm_submit_unconfigured() == 0
  abbrev if_unconfigured : ℤ → M (Unit {0})
  if_unconfigured remaining = do
    set_delay w.specified_delay
    finish w submit
    d ← get_details
    branch (is_some d.cert) (do goto monitoring; revisit soonish)
        (do goto ca_unconfigured; revisit delayed; set_delay (submit_delay remaining))

  -- CM_SUBMITTING
  unfoldable pub on_submitting : ℤ → M (Unit {0})
  on_submitting remaining = poll w submit submit_ready do
    set_details λ d. record d { submitted = w.now_submitted }
    when w submit submit_issued if_issued (
        when w submit submit_rejected if_rejected (
          when w submit submit_unreachable
            (do set_delay (submit_delay remaining); settle w submit ca_unreachable delayed)
            (when w submit submit_save_ca_cookie
              (do set_delay (submit_delay remaining); settle w submit ca_working delayed)
              (when w submit submit_unconfigured (if_unconfigured remaining) (
                when w submit submit_need_scep_messages (settle w submit need_scep_data When.now) (
                  when w submit submit_need_rekey (settle w submit need_key_pair soonish)
                    (settle w submit need_guidance When.now)))))))

  -- CM_CA_WORKING
  unfoldable pub on_ca_working : M (Unit {0})
  on_ca_working = do goto need_to_submit; revisit When.now

  -- CM_CA_UNREACHABLE
  unfoldable pub on_ca_unreachable : M (Unit {0})
  on_ca_unreachable = do goto need_to_submit; revisit soonish
