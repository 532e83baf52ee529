-- ===== src/Store/Names/RoundTrip.antt =====
-- The names of src/store-gen.c are read back as what they were written for.
use certmonger.Prelude.{ℕ, ◌≡◌, refl, ap, ◌∙◌, Option, some, [], ◌∷◌, Text, text_eq}
use certmonger.Store.States.{
  State, need_key_pair, CaState, idle, Phase, state_value, ca_state_value, phase_value,
}
use certmonger.Store.Names.{
  lower, Table, state_names, ca_state_names, ca_phase_names, name_of, value_of, or_number,
  state_as_string, ca_state_as_string, ca_phase_as_string, state_from_string, ca_state_from_string,
  ca_phase_from_string,
}

-- Case makes no difference to a search.
value_of-lower : (a b : Text) (t : Table) → lower a ≡ lower b → value_of a t ≡ value_of b t
unfolding value_of
value_of-lower a b [] h = refl
value_of-lower a b ((n, x) ∷ t) h = rw (h, value_of-lower a b t h) refl

state_found :
    (st : State) → value_of (state_as_string (state_value st)) state_names ≡ some (state_value st)
unfolding text_eq value_of state_as_string name_of state_names
state_found need_key_pair = refl
state_found _ = refl

ca_state_found :
    (st : CaState)
    → value_of (ca_state_as_string (ca_state_value st)) ca_state_names ≡ some (ca_state_value st)
unfolding text_eq value_of ca_state_as_string name_of ca_state_names
ca_state_found idle = refl
ca_state_found _ = refl

phase_found :
    (p : Phase)
    → value_of (ca_phase_as_string (phase_value p)) ca_phase_names ≡ some (phase_value p)
unfolding text_eq value_of ca_phase_as_string name_of ca_phase_names
phase_found Phase.identify = refl
phase_found _ = refl

module _ (number : Text → Option ℕ) (name : Text) where
  -- The name of every state, however its letters are cased, is read as that state.
  pub state_from_string-state_as_string :
      (st : State)
      → lower name ≡ lower (state_as_string (state_value st))
      → state_from_string number name ≡ state_value st
  unfolding state_from_string or_number
  state_from_string-state_as_string st h =
      ap (or_number number (state_value State.invalid) name)
        (value_of-lower name _ state_names h ∙ state_found st)

  -- The same for the states of a CA's data.
  pub ca_state_from_string-ca_state_as_string :
      (st : CaState)
      → lower name ≡ lower (ca_state_as_string (ca_state_value st))
      → ca_state_from_string number name ≡ ca_state_value st
  unfolding ca_state_from_string or_number
  ca_state_from_string-ca_state_as_string st h =
      ap (or_number number (ca_state_value CaState.disabled) name)
        (value_of-lower name _ ca_state_names h ∙ ca_state_found st)

  -- The same for the kinds of a CA's data.
  pub ca_phase_from_string-ca_phase_as_string :
      (p : Phase)
      → lower name ≡ lower (ca_phase_as_string (phase_value p))
      → ca_phase_from_string number name ≡ phase_value p
  unfolding ca_phase_from_string or_number
  ca_phase_from_string-ca_phase_as_string p h =
      ap (or_number number (phase_value Phase.invalid) name)
        (value_of-lower name _ ca_phase_names h ∙ phase_found p)
