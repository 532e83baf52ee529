-- ===== src/Iterate/Entry/Requests.antt =====
-- src/iterate.c, `cm_iterate_entry`: the cases that generate a signing request and the messages
-- that a CA wants over SCEP.
use certmonger.Store.{
  need_csr, generating_csr, have_csr, need_csr_gen_token, need_csr_gen_pin, need_to_submit,
  need_scep_data, generating_scep_data, have_scep_data, need_scep_gen_token, need_scep_gen_pin,
  need_scep_encryption_cert, need_scep_rsa_client_key,
}
use certmonger.Iterate.Machine.{
  World, When, soonish, M, ◌>>◌, goto, revisit, csrgen, scepgen, csrgen_start, csrgen_ready,
  csrgen_save_csr, csrgen_need_token, csrgen_need_pin, scepgen_start, scepgen_ready,
  scepgen_save_scep, scepgen_need_token, scepgen_need_pin, scepgen_need_encryption_certs,
  scepgen_need_different_key_type,
}
use certmonger.Iterate.Steps.{launch, poll, when, settle}

module _ (w : World) where
  -- CM_HAVE_KEYINFO
  unfoldable pub on_have_keyinfo : M (Unit {0})
  on_have_keyinfo = do goto need_csr; revisit When.now

  -- CM_NEED_CSR
  unfoldable pub on_need_csr : M (Unit {0})
  on_need_csr = launch w csrgen csrgen_start generating_csr

  -- CM_GENERATING_CSR
  unfoldable pub on_generating_csr : M (Unit {0})
  on_generating_csr = poll w csrgen csrgen_ready (
      when w csrgen csrgen_save_csr (settle w csrgen have_csr When.now) (
        when w csrgen csrgen_need_token (settle w csrgen need_csr_gen_token When.now) (
          when w csrgen csrgen_need_pin (settle w csrgen need_csr_gen_pin When.now)
            (settle w csrgen need_csr soonish))))

  -- CM_HAVE_CSR
  unfoldable pub on_have_csr : M (Unit {0})
  on_have_csr = do goto need_to_submit; revisit When.now

  -- CM_NEED_SCEP_DATA
  unfoldable pub on_need_scep_data : M (Unit {0})
  on_need_scep_data = launch w scepgen scepgen_start generating_scep_data

  -- CM_GENERATING_SCEP_DATA
  unfoldable pub on_generating_scep_data : M (Unit {0})
  on_generating_scep_data = poll w scepgen scepgen_ready (
      when w scepgen scepgen_save_scep (settle w scepgen have_scep_data When.now) (
        when w scepgen scepgen_need_token (settle w scepgen need_scep_gen_token When.now) (
          when w scepgen scepgen_need_pin (settle w scepgen need_scep_gen_pin When.now) (
            when w scepgen scepgen_need_encryption_certs
              (settle w scepgen need_scep_encryption_cert When.now)
              (when w scepgen scepgen_need_different_key_type
                (settle w scepgen need_scep_rsa_client_key When.now)
                (settle w scepgen need_scep_data soonish))))))

  -- CM_HAVE_SCEP_DATA
  unfoldable pub on_have_scep_data : M (Unit {0})
  on_have_scep_data = do goto need_to_submit; revisit When.now
