-- ===== src/Iterate/Safety/Submission.antt =====
-- The cases of Iterate/Entry/Submission.antt leave what a pass has to leave.
use certmonger.Prelude.{ℕ, ℤ, ◌≡◌, refl, sym, subst, true, false, Option, none, some, List, is_some}
use certmonger.Store.{
  Details, Ca, CaType, internal_self, external, need_to_submit, submitting, ca_unreachable,
  ca_working,
}
use certmonger.Iterate.Machine.{
  set_details, World, soonish, Machine, M, Effect, ◌>>◌, submit, submit_start, set_running,
}
use certmonger.Iterate.Entry.Submission.{
  if_started, if_not_started, note_nonce, use_serial, mark_serial, on_need_to_submit, on_submitting,
  on_ca_working, on_ca_unreachable,
}
use certmonger.Iterate.Safety.Invariant.{Inv}
use certmonger.Iterate.Safety.Rules.{watching, Sure, start_rule, branch_rule}
use certmonger.Iterate.Safety.Outcome.{
  Post, may_settle, at_start, free_at, settled, closed, with_tasks, started, still, watch_wakes,
}
use certmonger.Iterate.Safety.Shapes.{
  settle-Post, rung-Post, poll-Post, when-Post, finish-Post, deref-Post,
}

-- Using up a serial number changes the CA and writes it out.
module _ (P : Machine → Type 0) (k : M (Unit {0})) (s : Machine)
    (h : (c : Option Ca) (fx : List Effect) → Sure P k (record s { ca = c; effects = fx })) where
  use_serial_rule : (t : CaType) (ca : Ca) → Sure P (use_serial t ca >> k) s
  unfolding use_serial
  use_serial_rule external ca = h s.ca s.effects
  use_serial_rule internal_self ca = h _ _

  mark_serial_rule : (o : Option Ca) → Sure P (mark_serial o >> k) s
  unfolding mark_serial
  mark_serial_rule none = h s.ca s.effects
  mark_serial_rule (some ca) = use_serial_rule ca.type ca

module _ (w : World) (e : ℕ) (s : Machine) (v : Inv e s) where
  pub on_ca_working-Post :
      s.state ≡ ca_working → Sure (Post e ca_working s.lock) (on_ca_working w) s
  unfolding on_ca_working
  on_ca_working-Post at =
      settled {b = false} _ (at_start e s v ca_working false at (free_at e s v ca_working at refl))
        refl

  pub on_ca_unreachable-Post :
      s.state ≡ ca_unreachable → Sure (Post e ca_unreachable s.lock) (on_ca_unreachable w) s
  unfolding on_ca_unreachable
  on_ca_unreachable-Post at =
      settled {b = false} _
        (at_start e s v ca_unreachable false at (free_at e s v ca_unreachable at refl)) refl

  pub on_submitting-Post :
      (remaining : ℤ)
      → s.state ≡ submitting
      → Sure (Post e submitting s.lock) (on_submitting w remaining) s
  unfolding on_submitting
  on_submitting-Post remaining at =
      let here = at_start e s v submitting false at (free_at e s v submitting at refl) in
      let P = Post e submitting s.lock in
      let ask = when-Post w e submitting s.lock false submit in
      let rung = rung-Post w e submitting s.lock false submit in
      let end = settle-Post w e submitting s.lock false submit in
      let go = deref-Post w e submitting s.lock false submit in
      let stop = finish-Post w e submitting s.lock false submit in
      poll-Post w e submitting s.lock false submit _ _ s here at refl refl λ d.
        ask _ _ _ _ here (λ d. go _ _ here (end _ _ _ here refl))
          λ d.
            ask _ _ _ _ here
              (λ d. go _ _ here (
                stop _ _ here λ d idle.
                  branch_rule P (is_some d.cert) _ _ (settled {b = false} _ idle refl)
                    (settled {b = false} _ idle refl)))
              λ d.
                ask _ _ _ _ here (λ d. end _ _ _ here refl)
                  λ d.
                    ask _ _ _ _ here (λ d. end _ _ _ here refl)
                      λ d.
                        ask _ _ _ _ here
                          (λ d. stop _ _ here λ d idle.
                            branch_rule P (is_some d.cert) _ _ (settled {b = false} _ idle refl)
                              (settled {b = false} _ idle refl))
                          λ d.
                            rung _ _ _ _ _ here refl
                              λ d. rung _ _ _ _ _ here refl λ d. end _ _ _ here refl

  pub on_need_to_submit-Post :
      s.state ≡ need_to_submit → Sure (Post e need_to_submit s.lock) (on_need_to_submit w) s
  unfolding on_need_to_submit
  on_need_to_submit-Post at =
      let here = at_start e s v need_to_submit false at (free_at e s v need_to_submit at refl) in
      let P = Post e need_to_submit s.lock in
      let d : Details = (w.answer submit_start s.details).1 in
      let t : Machine = record s {
        state = submitting;
        details = d;
        tasks = set_running submit true s.tasks;
      } in
      start_rule P w submit submit_start (if_started w) (if_not_started w) s
        (mark_serial_rule P (set_details note_nonce) (watching w submit t)
          (λ c fx.
            closed {b = false}
              (record (watching w submit t) { details = note_nonce d; ca = c; effects = fx })
              (with_tasks (some submit) here (started submit s.tasks here.tasks)) refl
              (watch_wakes (w.fd submit) submitting))
          s.ca)
        (branch_rule P (is_some s.ca) _ _
          (settled {b = false}
            (record s { details = d; tasks = set_running submit false s.tasks; when = soonish })
            (with_tasks none here (still submit s.tasks here.tasks))
            (subst (λ x. may_settle need_to_submit false x soonish ≡ true) (sym at) refl))
          (settled {b = false} _ (with_tasks none here (still submit s.tasks here.tasks)) refl))
