-- ===== src/Iterate/Entry/Keys.antt =====
-- src/iterate.c, `cm_iterate_entry`: the cases that generate a key pair and read what is known of
-- it.
use certmonger.Prelude.{ℕ}
use certmonger.Store.{
  generating_key_pair, need_key_pair, have_key_pair, need_key_gen_perms, need_key_gen_token,
  need_key_gen_pin, need_keyinfo, reading_keyinfo, have_keyinfo, need_keyinfo_read_token,
  need_keyinfo_read_pin,
}
use certmonger.Iterate.Lock.{unlock_by_entry}
use certmonger.Iterate.Machine.{
  World, When, soonish, M, branch, ◌>>=◌, ◌>>◌, goto, revisit, on_lock, start, watch, keygen,
  keyiread, keygen_start, keygen_ready, keygen_saved_keypair, keygen_need_perms, keygen_need_token,
  keygen_need_pin, keyiread_start, keyiread_ready, keyiread_finished_reading, keyiread_need_token,
  keyiread_need_pin,
}
use certmonger.Iterate.Steps.{launch, poll, when, settle, take_lock, release_lock}

module _ (w : World) (e : ℕ) where
  -- CM_NEED_KEY_PAIR
  unfoldable pub on_need_key_pair : M (Unit {0})
  on_need_key_pair = take_lock e do
    started ← start w keygen keygen_start
    branch started (do goto generating_key_pair; watch w keygen)
        (do on_lock (unlock_by_entry e); revisit soonish)

  -- CM_GENERATING_KEY_PAIR
  unfoldable pub on_generating_key_pair : M (Unit {0})
  on_generating_key_pair = poll w keygen keygen_ready (
      release_lock e (
        when w keygen keygen_saved_keypair (settle w keygen have_key_pair When.now) (
          when w keygen keygen_need_perms (settle w keygen need_key_gen_perms When.now) (
            when w keygen keygen_need_token (settle w keygen need_key_gen_token When.now) (
              when w keygen keygen_need_pin (settle w keygen need_key_gen_pin When.now)
                (settle w keygen need_key_pair soonish))))))

module _ (w : World) where
  -- CM_HAVE_KEY_PAIR
  unfoldable pub on_have_key_pair : M (Unit {0})
  on_have_key_pair = do goto need_keyinfo; revisit When.now

  -- CM_NEED_KEYINFO
  unfoldable pub on_need_keyinfo : M (Unit {0})
  on_need_keyinfo = launch w keyiread keyiread_start reading_keyinfo

  -- CM_READING_KEYINFO. The helper is done with after the choice of a state; the order of the two
  -- makes no difference.
  unfoldable pub on_reading_keyinfo : M (Unit {0})
  on_reading_keyinfo = poll w keyiread keyiread_ready (
      when w keyiread keyiread_finished_reading (settle w keyiread have_keyinfo When.now) (
        when w keyiread keyiread_need_token (settle w keyiread need_keyinfo_read_token When.now) (
          when w keyiread keyiread_need_pin (settle w keyiread need_keyinfo_read_pin When.now)
            (settle w keyiread need_key_pair soonish))))
