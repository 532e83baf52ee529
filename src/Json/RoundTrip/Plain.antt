-- ===== src/Json/RoundTrip/Plain.antt =====
-- src/json.c: the values whose text `cm_json_decode` reads back.
use certmonger.Prelude.{ℕ, ◌<◌, ◌≡◌, true, false, none, List, Text, All}
use certmonger.Json.Values.{
  Json, Items, Fields, Ref, nowhere, ref, no_items, item, no_fields, field, array, object, null,
  string, numberl, numberd, boolean, c_string, append_field, find_last,
}
use certmonger.Json.Strings.Written.{IsBasic}
use certmonger.Json.Strings.RoundTrip.{utf8}
use certmonger.Json.Numbers.RoundTrip.{IsLongLong}
use certmonger.Json.RoundTrip.Leaves.{IsDecimal}

-- A name that no field before it has: text of the basic plane without a NUL.
pub record IsName {D : Type 0} (acc : Fields D) (k : Text) : Type 0 where
  pub points : List ℕ
  pub basic : All IsBasic points
  pub spelled : k ≡ utf8 points
  pub whole : c_string k ≡ k
  pub fresh : find_last k acc ≡ none

module _ {D : Type 0} (print_d : D → Text) (read_d : Text → D) where
  -- The value with every `long double` as its text is read back, and all else as it is.
  unfoldable mutual
    pub reread : Json D → Json D
    reread (numberd d) = numberd (read_d (print_d d))
    reread (object fs) = object (reread_fields fs)
    reread (array xs) = array (reread_items xs)
    reread null = null
    reread (string t) = string t
    reread (numberl z) = numberl z
    reread (boolean b) = boolean b

    pub reread_ref : Ref D → Ref D
    reread_ref nowhere = nowhere
    reread_ref (ref v) = ref (reread v)

    pub reread_items : Items D → Items D
    reread_items no_items = no_items
    reread_items (item v xs) = item (reread_ref v) (reread_items xs)

    pub reread_fields : Fields D → Fields D
    reread_fields no_fields = no_fields
    reread_fields (field k v fs) = field k (reread_ref v) (reread_fields fs)

  -- The values that are printed as JSON that says what they are: texts and names of the basic plane,
  -- names without a NUL, integers of the range of `long long`, decimal texts for a `long double`,
  -- booleans 0 and 1, no value missing and no name twice in an object.
  unfoldable mutual
    pub IsPlain : Json D → Type 0
    IsPlain null = Unit
    IsPlain (string t) = (ps : List ℕ) × (All IsBasic ps × (t ≡ utf8 ps))
    IsPlain (numberl z) = IsLongLong z
    IsPlain (numberd d) = IsDecimal (print_d d)
    IsPlain (boolean b) = b < 2
    IsPlain (object fs) = ArePlainFields no_fields fs
    IsPlain (array xs) = ArePlainItems xs

    pub ArePlainItems : Items D → Type 0
    ArePlainItems no_items = Unit
    ArePlainItems (item nowhere xs) = true ≡ false
    ArePlainItems (item (ref v) xs) = IsPlain v × ArePlainItems xs

    -- Fields that come behind others, of which only the names matter.
    pub ArePlainFields : Fields D → Fields D → Type 0
    ArePlainFields acc no_fields = Unit
    ArePlainFields acc (field k nowhere fs) = true ≡ false
    ArePlainFields acc (field k (ref v) fs) =
        IsName acc k × (IsPlain v × ArePlainFields (append_field acc k (ref (reread v))) fs)
