-- ===== src/Harness/Profile/Laws.antt =====
-- A profile that was set is the one that is resolved (packages/harness/src/operating-profile.mjs).
use wendkeep.Prelude.{
  ◌≡◌, ◌≢◌, ◌⊎◌, refl, true, arith, inl, inr, Bool-cases, if◌then◌else◌, sym, ◌∙◌, subst, ap,
}
use wendkeep.Prelude.Text.{
  Text, text, text_eq, text_eq_iff, text_eq_ne, includes, trim, is_space, to_upper,
}
use wendkeep.Prelude.Json.{Json, str, obj, Fields, end, field}
use wendkeep.Prelude.Result.{Result, ok, err, ◌>>=◌, >>=-eq-ok, ok-injective, err-ne-ok}
use wendkeep.Sync.Event.Create.{get_field}
use wendkeep.Harness.Profile.{
  operating_profiles, canonical_profile, strict_profile, has_field, object_fields, set_field,
  by_binding, ProfileError, profile_invalid, resolve_harness, harness_of, resolve_operating_profile,
  set_operating_profile,
}

get_field-set_field :
    (k j : Text) (v : Json) (fs : Fields)
    → get_field j (set_field k v fs) ≡ (if text_eq k j then v else get_field j fs)
unfolding get_field set_field
get_field-set_field k j v end = refl
get_field-set_field k j v (field i w fs) =
    ground (arith, text_eq_iff k j, text_eq_iff i k, text_eq_iff i j, get_field-set_field k j v fs)

has_field-set_field : (k : Text) (v : Json) (fs : Fields) → has_field k (set_field k v fs) ≡ true
unfolding has_field set_field
has_field-set_field k v end = ground (arith, text_eq_iff k k)
has_field-set_field k v (field i w fs) = ground (arith, has_field-set_field k v fs)

-- Setting a property again is setting it once.
set_field-set_field :
    (k : Text) (v w : Json) (fs : Fields) → set_field k w (set_field k v fs) ≡ set_field k w fs
unfolding set_field
set_field-set_field k v w end = ground (arith, text_eq_iff k k)
set_field-set_field k v w (field i u fs) = ground (arith, set_field-set_field k v w fs)

one_of_the_profiles :
    (t : Text)
    → includes operating_profiles t ≡ true
    → (text "OFF" ≡ t)
      ⊎ (text "FLOW" ≡ t)
      ⊎ (text "GUIDE" ≡ t)
      ⊎ (text "GOVERN" ≡ t)
      ⊎ (text "ASSURE" ≡ t)
one_of_the_profiles t h = ground (
  arith,
  h,
  text_eq_iff (text "OFF") t,
  text_eq_iff (text "FLOW") t,
  text_eq_iff (text "GUIDE") t,
  text_eq_iff (text "GOVERN") t,
  text_eq_iff (text "ASSURE") t,
)

-- The five profiles are written as they are compared.
canonical_profile_same :
    (t : Text) → includes operating_profiles t ≡ true → canonical_profile (str t) ≡ t
unfolding canonical_profile trim is_space to_upper
canonical_profile_same t h =
    let same = λ (u : Text). canonical_profile (str u) ≡ u in
    elim (one_of_the_profiles t h) [
      | inl e ↦ subst same e refl
      | inr (inl e) ↦ subst same e refl
      | inr (inr (inl e)) ↦ subst same e refl
      | inr (inr (inr (inl e))) ↦ subst same e refl
      | inr (inr (inr (inr e))) ↦ subst same e refl
    ]

strict_profile-ok :
    (value : Json) (t : Text)
    → strict_profile value ≡ ok t
    → (t ≡ canonical_profile value) × (includes operating_profiles t ≡ true)
unfolding strict_profile
strict_profile-ok value t h =
    elim (Bool-cases (includes operating_profiles (canonical_profile value))) [
      | inl e ↦
          let same = ok-injective (rw e at h) in
          (sym same, subst (λ u. includes operating_profiles u ≡ true) same e)
      | inr e ↦ absurd (err-ne-ok (rw e at h))
    ]

strict_profile-str :
    (t : Text) → includes operating_profiles t ≡ true → strict_profile (str t) ≡ ok t
unfolding strict_profile
strict_profile-str t h =
    ap (λ u. if includes operating_profiles u then ok u else err profile_invalid)
      (canonical_profile_same t h)
    ∙ rw h refl

-- The configuration with a profile.
abbrev with_profile : Json → Text → Json
with_profile config t = obj (
    set_field (text "harness") (obj (set_field (text "profile") (str t) (harness_of config)))
      (object_fields config))

harness_of-with_profile :
    (config : Json) (t : Text)
    → harness_of (with_profile config t) ≡ set_field (text "profile") (str t) (harness_of config)
unfolding harness_of object_fields text_eq
harness_of-with_profile config t =
    ap object_fields
      (get_field-set_field (text "harness") (text "harness") _ (object_fields config))

resolve_harness-valid :
    (fs : Fields) (t : Text)
    → has_field (text "profile") fs ≡ true
    → get_field (text "profile") fs ≡ str t
    → includes operating_profiles t ≡ true
    → resolve_harness fs
      ≡ record { profile = t; source = by_binding; valid = true; configured = true; raw = str t }
unfolding resolve_harness
resolve_harness-valid fs t has raw h = rw (has, raw, canonical_profile_same t h) (rw h refl)

resolve_with_profile :
    (config : Json) (t : Text)
    → includes operating_profiles t ≡ true
    → resolve_operating_profile (with_profile config t)
      ≡ record { profile = t; source = by_binding; valid = true; configured = true; raw = str t }
unfolding resolve_operating_profile text_eq
resolve_with_profile config t h =
    let fs = set_field (text "profile") (str t) (harness_of config) in
    ap resolve_harness (harness_of-with_profile config t)
    ∙ resolve_harness-valid fs t (has_field-set_field (text "profile") (str t) (harness_of config))
        (get_field-set_field (text "profile") (text "profile") (str t) (harness_of config)) h

set_profile_again :
    (config : Json) (t : Text)
    → includes operating_profiles t ≡ true
    → set_operating_profile (with_profile config t) (str t) ≡ ok (with_profile config t)
unfolding set_operating_profile object_fields
set_profile_again config t h =
    ap (λ (r : Result ProfileError Text). r >>= λ u. ok (with_profile (with_profile config t) u))
      (strict_profile-str t h)
    ∙ ap
        (λ hs. ok (
          obj (
            set_field (text "harness") (obj (set_field (text "profile") (str t) hs)) (
              set_field (text "harness")
                (obj (set_field (text "profile") (str t) (harness_of config)))
                (object_fields config)))))
        (harness_of-with_profile config t)
    ∙ ap (λ fs. ok (obj fs)) (set_field-set_field (text "harness") _ _ (object_fields config))
    ∙ ap (λ hs. ok (obj (set_field (text "harness") (obj hs) (object_fields config))))
        (set_field-set_field (text "profile") (str t) (str t) (harness_of config))

-- Setting a profile. If setOperatingProfile returns, the value was a profile in some case and
-- spacing; resolving the new configuration gives that profile in capitals, from the binding and
-- valid; every other property of the configuration and of its `harness` is as before; and setting
-- the same profile again changes nothing.
pub resolve-set_operating_profile :
    (config config' value : Json) (k : Text)
    → set_operating_profile config value ≡ ok config'
    → (includes operating_profiles (canonical_profile value) ≡ true)
      × (resolve_operating_profile config' ≡ record {
        profile = canonical_profile value;
        source = by_binding;
        valid = true;
        configured = true;
        raw = str (canonical_profile value);
      })
      × (k ≢ text "harness"
          → get_field k (object_fields config') ≡ get_field k (object_fields config))
      × (k ≢ text "profile" → get_field k (harness_of config') ≡ get_field k (harness_of config))
      × (set_operating_profile config' (str (canonical_profile value)) ≡ ok config')
unfolding set_operating_profile object_fields
resolve-set_operating_profile config config' value k h =
    let (t, et, built) = >>=-eq-ok (strict_profile value) _ h in
    let (same, known) = strict_profile-ok value t et in
    let made : with_profile config t ≡ config' = ok-injective built in
    subst
      (λ (u : Text).
        (includes operating_profiles u ≡ true)
        × (resolve_operating_profile config' ≡ record {
          profile = u;
          source = by_binding;
          valid = true;
          configured = true;
          raw = str u;
        })
        × (k ≢ text "harness"
            → get_field k (object_fields config') ≡ get_field k (object_fields config))
        × (k ≢ text "profile" → get_field k (harness_of config') ≡ get_field k (harness_of config))
        × (set_operating_profile config' (str u) ≡ ok config'))
      same
      (
        known,
        ap resolve_operating_profile (sym made) ∙ resolve_with_profile config t known,
        λ other.
            ap (λ c. get_field k (object_fields c)) (sym made)
            ∙ get_field-set_field (text "harness") k _ (object_fields config)
            ∙ rw (text_eq_ne (text "harness") k (λ e. other (sym e))) refl,
        λ other.
            ap (λ c. get_field k (harness_of c)) (sym made)
            ∙ ap (get_field k) (harness_of-with_profile config t)
            ∙ get_field-set_field (text "profile") k (str t) (harness_of config)
            ∙ rw (text_eq_ne (text "profile") k (λ e. other (sym e))) refl,
        subst (λ c. set_operating_profile c (str t) ≡ ok c) made (set_profile_again config t known),
      )
