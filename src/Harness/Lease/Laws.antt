-- ===== src/Harness/Lease/Laws.antt =====
-- A lease holds at the prompt that it was given for and at no other
-- (packages/harness/src/operating-profile.mjs).
use wendkeep.Prelude.{
  ℕ, ◌≤◌, ◌≡◌, ◌↔◌, refl, Bool, true, false, not, ◌||◌, Option, none, some, arith, if◌then◌else◌,
  sym, ◌∙◌, subst, ap, length,
}
use wendkeep.Prelude.Text.{text, text_eq, text_eq_iff, includes, trim}
use wendkeep.Prelude.Result.{Result, ok, err}
use wendkeep.Platform.{Platform}
use wendkeep.Contracts.Strings.{filled}
use wendkeep.Harness.Profile.{ProfileError}
use wendkeep.Harness.Lease.{
  adaptive_operating_profiles, ProfileLeaseInput, ProfileLease, task_sequence, create_profile_lease,
  recreation, TurnContext, is_lease, is_invalid, in_state, same_sequence, evaluate_active,
  evaluate_normalized, evaluate_profile_lease, stored,
}
use wendkeep.Harness.Lease.Creation.{
  task_profile_again, task_reason_again, create-parts, create_again,
}

-- The prompt has an identity and a number.
abbrev pub IsPrompt : TurnContext → ℕ → Type 0
IsPrompt c n =
    (filled (trim c.session_id) ≡ true)
    × (filled (trim c.turn_id) ≡ true)
    × (task_sequence c.turn_sequence ≡ some n)

same_sequence_iff : (o : Option ℕ) (n : ℕ) → (same_sequence o n ≡ true) ↔ (o ≡ some n)
unfolding same_sequence
same_sequence_iff none n = (λ e. cc, λ e. cc)
same_sequence_iff (some m) n = ground arith

-- An active lease at a prompt of its session: it holds there exactly at its own turn, and is expired
-- at any other.
evaluate_active-prompt :
    (l : ProfileLease) (c : TurnContext) (n : ℕ)
    → IsPrompt c n
    → l.session_id ≡ trim c.session_id
    → ((l.request_turn_id ≡ trim c.turn_id) × (l.request_turn_sequence ≡ some n)
        → evaluate_active l c ≡ is_lease l)
      × (¬ ((l.request_turn_id ≡ trim c.turn_id) × (l.request_turn_sequence ≡ some n))
          → evaluate_active l c ≡ in_state l (text "expired"))
unfolding evaluate_active
evaluate_active-prompt l c n (session, turn, sequence) same =
    let other =
      not (text_eq l.request_turn_id (trim c.turn_id))
      || not (same_sequence l.request_turn_sequence n) in
    let runs : evaluate_active l c ≡ (if other then in_state l (text "expired") else is_lease l) =
      rw (sequence, evaluate_active) (rw (session, turn) (rw ((text_eq_iff _ _).1 same) refl)) in
    let expired_if = λ (b : Bool). if b then in_state l (text "expired") else is_lease l in
    (
      λ (own_turn, own_sequence).
          let here : other ≡ false =
            same_here (text_eq l.request_turn_id (trim c.turn_id))
              (same_sequence l.request_turn_sequence n) ((text_eq_iff _ _).1 own_turn)
              ((same_sequence_iff l.request_turn_sequence n).1 own_sequence) in
          runs ∙ ap expired_if here,
      λ foreign.
          let moved : other ≡ true =
            differs (text_eq l.request_turn_id (trim c.turn_id))
              (same_sequence l.request_turn_sequence n)
              (λ a b.
                foreign
                  ((text_eq_iff _ _).0 a, (same_sequence_iff l.request_turn_sequence n).0 b)) in
          runs ∙ ap expired_if moved,
    )
  where
    same_here : (a b : Bool) → a ≡ true → b ≡ true → (not a || not b) ≡ false
    same_here a b ea eb = rw (ea, eb) refl

    differs : (a b : Bool) → (a ≡ true → b ≡ true → ⊥) → (not a || not b) ≡ true
    differs true true unless = absurd (unless refl refl)
    differs true false unless = refl
    differs false b unless = refl

evaluate_created :
    (p : Platform) (i : ProfileLeaseInput) (lease : ProfileLease) (c : TurnContext)
    → create_profile_lease p i ≡ ok lease
    → evaluate_profile_lease p (stored lease) c ≡ evaluate_active lease c
unfolding evaluate_profile_lease evaluate_normalized text_eq
evaluate_created p i lease c h =
    let (selected, reason, _, _, _, made) = create-parts p i lease h in
    ap
      (λ (r : Result ProfileError ProfileLease). elim r [
        | err e ↦ is_invalid lease.lease_id
        | ok normalized ↦ evaluate_normalized lease normalized c
      ])
      (create_again p i lease h)
    ∙ subst (λ (l : ProfileLease). evaluate_normalized l l c ≡ evaluate_active l c) made refl

evaluate_consumed :
    (p : Platform) (i : ProfileLeaseInput) (lease : ProfileLease) (c : TurnContext)
    → create_profile_lease p i ≡ ok lease
    → evaluate_profile_lease p (stored (record lease { state = text "consumed" })) c
      ≡ in_state lease (text "consumed")
unfolding evaluate_profile_lease evaluate_normalized text_eq recreation
evaluate_consumed p i lease c h =
    let (selected, reason, _, _, _, made) = create-parts p i lease h in
    ap
      (λ (r : Result ProfileError ProfileLease). elim r [
        | err e ↦ is_invalid lease.lease_id
        | ok normalized ↦
            evaluate_normalized (record lease { state = text "consumed" }) normalized c
      ])
      (create_again p i lease h)
    ∙ subst
        (λ (l : ProfileLease).
          evaluate_normalized (record l { state = text "consumed" }) l c
          ≡ in_state l (text "consumed"))
        made refl

-- How far a lease reaches. A lease that createTaskOperatingProfileLease returns has a reason of 1 to
-- 500 units and one of the four adaptive profiles. At a prompt of its session it is evaluated as
-- itself if the prompt has the turn id and the sequence number that the lease was created with, and
-- as expired at any other prompt; once it is stored as consumed it is consumed at every prompt.
pub evaluate-create_profile_lease :
    (p : Platform) (i : ProfileLeaseInput) (lease : ProfileLease) (c : TurnContext) (n : ℕ)
    → create_profile_lease p i ≡ ok lease
    → IsPrompt c n
    → trim c.session_id ≡ trim i.session_id
    → ((1 ≤ length lease.reason)
        × (length lease.reason ≤ 500)
        × (includes adaptive_operating_profiles lease.profile ≡ true))
      × ((trim c.turn_id ≡ trim i.turn_id) × (task_sequence i.turn_sequence ≡ some n)
          → evaluate_profile_lease p (stored lease) c ≡ is_lease lease)
      × (¬ ((trim c.turn_id ≡ trim i.turn_id) × (task_sequence i.turn_sequence ≡ some n))
          → evaluate_profile_lease p (stored lease) c ≡ in_state lease (text "expired"))
      × (evaluate_profile_lease p (stored (record lease { state = text "consumed" })) c
          ≡ in_state lease (text "consumed"))
evaluate-create_profile_lease p i lease c n h prompt session =
    let (selected, reason, eselected, ereason, _, made) = create-parts p i lease h in
    let (known, _) = task_profile_again i.profile selected eselected in
    let (_, low, high, _) = task_reason_again i.reason reason ereason in
    let same_session : lease.session_id ≡ trim c.session_id =
      ap (λ (l : ProfileLease). l.session_id) (sym made) ∙ sym session in
    let turn : lease.request_turn_id ≡ trim i.turn_id =
      ap (λ (l : ProfileLease). l.request_turn_id) (sym made) in
    let number : lease.request_turn_sequence ≡ task_sequence i.turn_sequence =
      ap (λ (l : ProfileLease). l.request_turn_sequence) (sym made) in
    let (own, foreign) = evaluate_active-prompt lease c n prompt same_session in
    let active = evaluate_created p i lease c h in
    (
      (
        subst (λ (l : ProfileLease). 1 ≤ length l.reason) made low,
        subst (λ (l : ProfileLease). length l.reason ≤ 500) made high,
        subst (λ (l : ProfileLease). includes adaptive_operating_profiles l.profile ≡ true) made
            known,
      ),
      λ (same_turn, same_number). active ∙ own (turn ∙ sym same_turn, number ∙ same_number),
      λ unlike. active ∙ foreign (λ q. unlike (sym (sym turn ∙ q.0), sym number ∙ q.1)),
      evaluate_consumed p i lease c h,
    )
