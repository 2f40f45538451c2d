-- ===== src/Harness/Lease/Creation.antt =====
-- A lease that was created is created again from its own fields
-- (packages/harness/src/operating-profile.mjs).
use wendkeep.Prelude.{
  ℕ, ◌≤◌, ◌≡◌, ◌⊎◌, refl, Bool, true, ◌&&◌, leb, ltb, Option, none, some, [], ◌∷◌, arith, inl, inr,
  Bool-cases, if◌then◌else◌, sym, ◌∙◌, subst, ap, length,
}
use wendkeep.Prelude.Text.{Text, text, text_eq_iff, includes, trim, is_space, to_upper}
use wendkeep.Prelude.Text.Trim.{trim-trim}
use wendkeep.Prelude.Result.{ok, err, guard, >>=-eq-ok, guard-ok, ok-injective, err-ne-ok}
use wendkeep.Platform.{Platform}
use wendkeep.Contracts.Strings.{filled}
use wendkeep.Sync.Event.Create.{max_safe}
use wendkeep.Harness.Profile.{task_profile_invalid, reason_invalid, context_invalid}
use wendkeep.Harness.Lease.{
  adaptive_operating_profiles, ProfileLeaseInput, ProfileLease, task_profile, task_reason,
  task_sequence, has_context, create_profile_lease, recreation,
}

one_of_the_adaptive :
    (t : Text)
    → includes adaptive_operating_profiles t ≡ true
    → (text "FLOW" ≡ t) ⊎ (text "GUIDE" ≡ t) ⊎ (text "GOVERN" ≡ t) ⊎ (text "ASSURE" ≡ t)
one_of_the_adaptive t h = ground (
  arith,
  h,
  text_eq_iff (text "FLOW") t,
  text_eq_iff (text "GUIDE") t,
  text_eq_iff (text "GOVERN") t,
  text_eq_iff (text "ASSURE") t,
)

capitals_same : (t : Text) → includes adaptive_operating_profiles t ≡ true → to_upper (trim t) ≡ t
unfolding trim is_space to_upper
capitals_same t h =
    let same = λ (u : Text). to_upper (trim u) ≡ u in
    elim (one_of_the_adaptive t h) [
      | inl e ↦ subst same e refl
      | inr (inl e) ↦ subst same e refl
      | inr (inr (inl e)) ↦ subst same e refl
      | inr (inr (inr e)) ↦ subst same e refl
    ]

-- What the functions return they return again.
pub task_profile_again :
    (value t : Text)
    → task_profile value ≡ ok t
    → (includes adaptive_operating_profiles t ≡ true) × (task_profile t ≡ ok t)
unfolding task_profile
task_profile_again value t h =
    let p = to_upper (trim value) in
    elim (Bool-cases (includes adaptive_operating_profiles p)) [
      | inl e ↦
          let same : p ≡ t = ok-injective (rw e at h) in
          let known = subst (λ u. includes adaptive_operating_profiles u ≡ true) same e in
          (
            known,
            ap
                  (λ u.
                    if includes adaptive_operating_profiles u
                    then ok u
                    else err task_profile_invalid)
                  (capitals_same t known)
                ∙ rw known refl,
          )
      | inr e ↦ absurd (err-ne-ok (rw e at h))
    ]

pub task_reason_again :
    (value t : Text)
    → task_reason value ≡ ok t
    → (t ≡ trim value) × (1 ≤ length t) × (length t ≤ 500) × (task_reason t ≡ ok t)
unfolding task_reason
task_reason_again value t h =
    let r = trim value in
    elim (Bool-cases (filled r && leb (length r) 500)) [
      | inl e ↦
          let same : r ≡ t = ok-injective (rw e at h) in
          let fits = subst (λ u. (filled u && leb (length u) 500) ≡ true) same e in
          let trimmed : trim t ≡ t = ap trim (sym same) ∙ trim-trim value ∙ same in
          (
            sym same,
            nonempty t (ground (arith, fits)),
            ground (arith, fits),
            ap (λ u. if filled u && leb (length u) 500 then ok u else err reason_invalid) trimmed
                ∙ rw fits refl,
          )
      | inr e ↦ absurd (err-ne-ok (rw e at h))
    ]
  where
    nonempty : (t : Text) → filled t ≡ true → 1 ≤ length t
    nonempty [] h = cc
    nonempty (c ∷ t) h = omega arith

task_sequence_again : (o : Option ℕ) → task_sequence (task_sequence o) ≡ task_sequence o
unfolding task_sequence
task_sequence_again none = refl
task_sequence_again (some n) = elim (Bool-cases (leb n max_safe && ltb 0 n)) [
  | inl e ↦ rw e (rw e refl)
  | inr e ↦ rw e refl
]

-- The lease that the parts make.
abbrev lease_of : ProfileLeaseInput → Text → Text → ProfileLease
lease_of i selected reason = record {
  lease_id = trim i.lease_id;
  state = text "active";
  profile = selected;
  requested_by = text "llm-harness";
  reason = reason;
  session_id = trim i.session_id;
  request_turn_id = trim i.turn_id;
  request_turn_sequence = task_sequence i.turn_sequence;
  issued_at = trim i.issued_at;
  expires_on = text "request-stop";
}

abbrev context_of : Platform → ProfileLeaseInput → Bool
context_of p i =
    has_context p (trim i.session_id) (trim i.turn_id) (task_sequence i.turn_sequence)
      (trim i.lease_id) (trim i.issued_at)

pub create-parts :
    (p : Platform) (i : ProfileLeaseInput) (lease : ProfileLease)
    → create_profile_lease p i ≡ ok lease
    → (selected : Text) × (reason : Text) × (task_profile i.profile ≡ ok selected)
      × (task_reason i.reason ≡ ok reason)
      × (context_of p i ≡ true)
      × (lease_of i selected reason ≡ lease)
unfolding create_profile_lease
create-parts p i lease h =
    let (selected, eselected, h1) = >>=-eq-ok (task_profile i.profile) _ h in
    let (reason, ereason, h2) = >>=-eq-ok (task_reason i.reason) _ h1 in
    let (_, echecked, built) = >>=-eq-ok (guard (context_of p i) context_invalid) _ h2 in
    (
      selected,
      reason,
      eselected,
      ereason,
      guard-ok (context_of p i) context_invalid echecked,
      ok-injective built,
    )

create_of_parts :
    (p : Platform) (i : ProfileLeaseInput) (selected reason : Text)
    → task_profile i.profile ≡ ok selected
    → task_reason i.reason ≡ ok reason
    → context_of p i ≡ true
    → create_profile_lease p i ≡ ok (lease_of i selected reason)
unfolding create_profile_lease
create_of_parts p i selected reason eselected ereason context =
    rw (eselected, create_profile_lease) (rw ereason (rw context refl))

-- A lease that was created is created again from its own fields.
pub create_again :
    (p : Platform) (i : ProfileLeaseInput) (lease : ProfileLease)
    → create_profile_lease p i ≡ ok lease
    → create_profile_lease p (recreation lease) ≡ ok lease
unfolding recreation
create_again p i lease h =
    let (selected, reason, eselected, ereason, context, made) = create-parts p i lease h in
    let (_, selects) = task_profile_again i.profile selected eselected in
    let (_, _, _, reasons) = task_reason_again i.reason reason ereason in
    subst (λ l. create_profile_lease p (recreation l) ≡ ok l) made
      (create_of_parts p (recreation (lease_of i selected reason)) selected reason selects reasons (
          rw
            (
              trim-trim i.session_id,
              trim-trim i.turn_id,
              trim-trim i.lease_id,
              trim-trim i.issued_at,
              task_sequence_again i.turn_sequence,
            )
            context)
        ∙ rw
            (
              trim-trim i.session_id,
              trim-trim i.turn_id,
              trim-trim i.lease_id,
              trim-trim i.issued_at,
              task_sequence_again i.turn_sequence,
            )
            refl)
