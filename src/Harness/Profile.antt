-- ===== src/Harness/Profile.antt =====
-- The operating profiles of packages/harness/src/operating-profile.mjs, apart from the leases.
pub mod Laws
use wendkeep.Prelude.{
  Bool, true, false, not, ◌&&◌, ◌||◌, Option, none, some, List, [], ◌∷◌, if◌then◌else◌,
}
use wendkeep.Prelude.Text.{Text, text, text_eq, includes, trim, to_upper}
use wendkeep.Prelude.Json.{Json, null, bool, num, str, arr, obj, Fields, end, field}
use wendkeep.Prelude.Result.{Result, ok, err, ◌>>=◌, ◌>>◌, guard}
use wendkeep.Sync.Event.Create.{get_field}

pub data ProfileError : Type 0 where
  profile_invalid task_profile_invalid reason_invalid context_invalid : ProfileError

abbrev pub operating_profiles : List Text
operating_profiles = text "OFF" ∷ text "FLOW" ∷ text "GUIDE" ∷ text "GOVERN" ∷ text "ASSURE" ∷ []

abbrev pub default_operating_profile : Text
default_operating_profile = text "GOVERN"

pub data ProfileContract : Type 0 where
  native flow simple_change change : ProfileContract

pub record ProfilePolicy : Type 0 where
  pub profile : Text
  pub route : List Text
  pub keep_core : Bool
  pub harness : Bool
  pub contract : ProfileContract
  pub requires_change : Bool
  pub requires_review : Bool
  pub requires_confirmation : Bool

-- `OPERATING_PROFILE_POLICIES`; the last entry, ASSURE, stands in the last branch. Every lookup is at a
-- name that was normalized.
unfoldable pub policy_of : Text → ProfilePolicy
policy_of profile =
    if text_eq profile (text "OFF")
    then record {
      profile = text "OFF";
      route = text "LLM" ∷ [];
      keep_core = true;
      harness = false;
      contract = native;
      requires_change = false;
      requires_review = false;
      requires_confirmation = false;
    }
    else if text_eq profile (text "FLOW")
    then record {
      profile = text "FLOW";
      route = text "E" ∷ text "V" ∷ [];
      keep_core = true;
      harness = true;
      contract = flow;
      requires_change = false;
      requires_review = false;
      requires_confirmation = false;
    }
    else if text_eq profile (text "GUIDE")
    then record {
      profile = text "GUIDE";
      route = text "P" ∷ text "E" ∷ text "V" ∷ [];
      keep_core = true;
      harness = true;
      contract = simple_change;
      requires_change = true;
      requires_review = false;
      requires_confirmation = false;
    }
    else if text_eq profile (text "GOVERN")
    then record {
      profile = text "GOVERN";
      route = text "P" ∷ text "R" ∷ text "E" ∷ text "V" ∷ [];
      keep_core = true;
      harness = true;
      contract = change;
      requires_change = true;
      requires_review = true;
      requires_confirmation = false;
    }
    else record {
      profile = text "ASSURE";
      route = text "P" ∷ text "R" ∷ text "E" ∷ text "V" ∷ text "C" ∷ [];
      keep_core = true;
      harness = true;
      contract = change;
      requires_change = true;
      requires_review = true;
      requires_confirmation = true;
    }

unfoldable pub canonical_profile : Json → Text
canonical_profile (str s) = to_upper (trim s)
canonical_profile _ = []

-- `normalizeOperatingProfile` with strict set.
unfoldable pub strict_profile : Json → Result ProfileError Text
unfolding canonical_profile
strict_profile value =
    let normalized = canonical_profile value in
    if includes operating_profiles normalized then ok normalized else err profile_invalid

-- `normalizeOperatingProfile` otherwise.
unfoldable pub normalize_operating_profile : Json → Text
unfolding canonical_profile
normalize_operating_profile value =
    let normalized = canonical_profile value in
    if includes operating_profiles normalized then normalized else default_operating_profile

unfoldable pub operating_profile_policy : Json → ProfilePolicy
unfolding policy_of normalize_operating_profile
operating_profile_policy value = policy_of (normalize_operating_profile value)

-- The properties of a plain object; any other value has none that is read here.
unfoldable pub object_fields : Json → Fields
object_fields (obj fs) = fs
object_fields _ = end

unfoldable pub has_field : Text → Fields → Bool
has_field k end = false
has_field k (field j v fs) = text_eq j k || has_field k fs

pub data ProfileSource : Type 0 where
  by_default by_binding by_default_invalid : ProfileSource

pub record ResolvedProfile : Type 0 where
  pub profile : Text
  pub source : ProfileSource
  pub valid : Bool
  pub configured : Bool
  pub raw : Json

-- `resolveOperatingProfile`, for the properties of config.harness.
unfoldable pub resolve_harness : Fields → ResolvedProfile
unfolding has_field canonical_profile get_field
resolve_harness harness =
    let raw = get_field (text "profile") harness in
    let normalized = canonical_profile raw in
    if not (has_field (text "profile") harness)
    then record {
      profile = default_operating_profile;
      source = by_default;
      valid = true;
      configured = false;
      raw = null;
    }
    else if includes operating_profiles normalized
    then record {
      profile = normalized;
      source = by_binding;
      valid = true;
      configured = true;
      raw = raw;
    }
    else record {
      profile = default_operating_profile;
      source = by_default_invalid;
      valid = false;
      configured = true;
      raw = raw;
    }

unfoldable pub harness_of : Json → Fields
unfolding object_fields get_field
harness_of config = object_fields (get_field (text "harness") (object_fields config))

unfoldable pub resolve_operating_profile : Json → ResolvedProfile
unfolding resolve_harness harness_of
resolve_operating_profile config = resolve_harness (harness_of config)

-- { ...fields, [k]: value }
unfoldable pub set_field : Text → Json → Fields → Fields
set_field k value end = field k value end
set_field k value (field j v fs) =
    if text_eq j k then field j value fs else field j v (set_field k value fs)

unfoldable pub set_operating_profile : Json → Json → Result ProfileError Json
unfolding strict_profile harness_of object_fields set_field
set_operating_profile config value = do
  profile ← strict_profile value
  ok (
      obj (
        set_field (text "harness")
          (obj (set_field (text "profile") (str profile) (harness_of config)))
          (object_fields config)))
