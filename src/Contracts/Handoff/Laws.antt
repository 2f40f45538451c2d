-- ===== src/Contracts/Handoff/Laws.antt =====
-- A hand-off that was derived is read back as it is, and is verified exactly while the hashes are
-- those that it was derived for (packages/contracts/src/task-contracts.mjs).
use wendkeep.Prelude.{
  ◌≡◌, ◌≢◌, ◌↔◌, ◌⊎◌, inl, inr, Bool, not, List, ◌++◌, Bool-cases, refl, true, false, ◌&&◌, [], ◌∷◌,
  arith, sym, ◌∙◌, subst, ap,
}
use wendkeep.Prelude.Text.{Text, text, text_eq, text_eq_iff, is_hex64, to_upper}
use wendkeep.Prelude.Result.{ok, ◌>>=◌, ◌>>◌, guard, >>=-eq-ok, guard-ok, ok-injective, err-ne-ok}
use wendkeep.Platform.{Platform, IsDocumented}
use wendkeep.Contracts.Strings.{filled, canonical_json}
use wendkeep.Contracts.Strings.Laws.{unique_strings-unique_strings}
use wendkeep.Contracts.Task.Data.{handoff_invalid}
use wendkeep.Contracts.Handoff.{
  Authority, verified, reported, HandoffBody, Handoff, structured, current, CurrentHashes,
  handoff_verified, HandoffFinding, handoff_stale_head, handoff_stale_tasks, handoff_stale_spec,
  HandoffState, handoff_stale, clean_lists, handoff_json, derive_handoff_contract,
  is_complete_handoff, normalize_handoff_contract, handoff_findings, finding_if, state_of_findings,
  evaluate_handoff_contract, assert_structured_handoff, is_verified,
}

clean_lists-clean_lists : (h : HandoffBody) → clean_lists (clean_lists h) ≡ clean_lists h
unfolding clean_lists
clean_lists-clean_lists h =
    rw
      (
        unique_strings-unique_strings h.artifacts,
        unique_strings-unique_strings h.evidence,
        unique_strings-unique_strings h.decisions,
        unique_strings-unique_strings h.next_actions,
        unique_strings-unique_strings h.blockers,
        unique_strings-unique_strings h.tdd_attestation_ids,
      )
      refl

filled_of_hex64 : (t : Text) → is_hex64 t ≡ true → filled t ≡ true
unfolding is_hex64
filled_of_hex64 [] h = cc
filled_of_hex64 (c ∷ t) h = refl

-- What a hand-off that was derived is made of.
derive_handoff_contract-parts :
    (p : Platform) (input : HandoffBody) (h : Handoff)
    → derive_handoff_contract p input ≡ ok h
    → (h ≡ record {
      handoff_id = p.sha256_hex (canonical_json (handoff_json (clean_lists input)));
      body = clean_lists input;
    })
      × (filled input.active_context_id ≡ true)
      × (filled input.head_sha ≡ true)
      × (filled input.tasks_sha256 ≡ true)
      × (filled input.spec_sha256 ≡ true)
unfolding derive_handoff_contract clean_lists
derive_handoff_contract-parts p input h e =
    let complete =
      filled input.from
      && filled input.to
      && filled input.active_context_id
      && filled input.head_sha
      && filled input.tasks_sha256
      && filled input.spec_sha256 in
    let (_, checked, built) = >>=-eq-ok (guard complete handoff_invalid) _ e in
    let all_there = guard-ok complete handoff_invalid checked in
    (
      sym (ok-injective built),
      ground (arith, all_there),
      ground (arith, all_there),
      ground (arith, all_there),
      ground (arith, all_there),
    )

normalize_handoff_contract-same :
    (h : Handoff)
    → is_complete_handoff h ≡ true
    → clean_lists h.body ≡ h.body
    → normalize_handoff_contract (structured h) ≡ ok (current h)
unfolding normalize_handoff_contract
normalize_handoff_contract-same h complete clean =
    ap
      (λ body. do
        let normalized : Handoff = record { handoff_id = h.handoff_id; body = body }
        guard (is_complete_handoff normalized) handoff_invalid
        ok (current normalized))
      clean
    ∙ ap (λ test. guard test handoff_invalid >>= λ _. ok (current h)) complete

-- Reading a hand-off back. A hand-off that deriveHandoffContract returned is one that
-- normalizeHandoffContract accepts and returns unchanged, its id and authority included, if SHA-256
-- behaves as documented.
pub normalize-derive_handoff :
    (p : Platform) (input : HandoffBody) (h : Handoff)
    → IsDocumented p
    → derive_handoff_contract p input ≡ ok h
    → normalize_handoff_contract (structured h) ≡ ok (current h)
unfolding is_complete_handoff clean_lists
normalize-derive_handoff p input h doc e =
    let (made, context, head, tasks, spec) = derive_handoff_contract-parts p input h e in
    let id =
      filled_of_hex64 _ (doc.digest_hex (canonical_json (handoff_json (clean_lists input)))) in
    subst (λ x. normalize_handoff_contract (structured x) ≡ ok (current x)) (sym made)
      (normalize_handoff_contract-same
        (record {
          handoff_id = p.sha256_hex (canonical_json (handoff_json (clean_lists input)));
          body = clean_lists input;
        })
        (rw (id, context, head, tasks, spec) refl) (clean_lists-clean_lists input))

state_of_findings-verified :
    (h : HandoffBody) (now : CurrentHashes)
    → (state_of_findings (handoff_findings h now) ≡ handoff_verified) ↔ (
        (h.head_sha ≡ now.head_sha)
        × (h.tasks_sha256 ≡ now.tasks_sha256)
        × (h.spec_sha256 ≡ now.spec_sha256))
unfolding state_of_findings handoff_findings finding_if
state_of_findings-verified h now = ground (
  arith,
  text_eq_iff h.head_sha now.head_sha,
  text_eq_iff h.tasks_sha256 now.tasks_sha256,
  text_eq_iff h.spec_sha256 now.spec_sha256,
)

assure_iff :
    (profile : Text) (h : Handoff)
    → to_upper profile ≡ text "ASSURE"
    → (assert_structured_handoff profile (current h) ≡ ok (current h))
      ↔ (h.body.authority ≡ verified)
unfolding assert_structured_handoff is_verified
assure_iff profile h upper = authority_iff h.body.authority refl
  where
    authority_iff :
        (a : Authority)
        → h.body.authority ≡ a
        → (assert_structured_handoff profile (current h) ≡ ok (current h)) ↔ (a ≡ verified)
    authority_iff verified same = (λ q. refl, λ q. rw ((text_eq_iff _ _).1 upper, same) refl)
    authority_iff reported same =
        (λ q. absurd (err-ne-ok (rw ((text_eq_iff _ _).1 upper, same) at q)), λ q. cc)

-- The finding is one of the list.
abbrev pub Names : HandoffFinding → List HandoffFinding → Type 0
Names code [] = ⊥
Names code (f ∷ fs) = (f ≡ code) ⊎ Names code fs

-- The findings name exactly what is another.
findings_named :
    (a b c : Bool)
    → (Names handoff_stale_head (
          finding_if a handoff_stale_head
          ++ finding_if b handoff_stale_tasks
          ++ finding_if c handoff_stale_spec)
        ↔ (a ≡ true))
      × (Names handoff_stale_tasks (
            finding_if a handoff_stale_head
            ++ finding_if b handoff_stale_tasks
            ++ finding_if c handoff_stale_spec)
          ↔ (b ≡ true))
      × (Names handoff_stale_spec (
            finding_if a handoff_stale_head
            ++ finding_if b handoff_stale_tasks
            ++ finding_if c handoff_stale_spec)
          ↔ (c ≡ true))
unfolding finding_if
findings_named true true true = ground arith
findings_named true true false = ground arith
findings_named true false true = ground arith
findings_named true false false = ground arith
findings_named false true true = ground arith
findings_named false true false = ground arith
findings_named false false true = ground arith
findings_named false false false = ground arith

-- Stale by findings that name exactly those of the three that are another.
abbrev pub IsStale : HandoffState → HandoffBody → CurrentHashes → Type 0
IsStale state h now =
    (findings : List HandoffFinding) × (state ≡ handoff_stale findings)
    × (Names handoff_stale_head findings ↔ (h.head_sha ≢ now.head_sha))
    × (Names handoff_stale_tasks findings ↔ (h.tasks_sha256 ≢ now.tasks_sha256))
    × (Names handoff_stale_spec findings ↔ (h.spec_sha256 ≢ now.spec_sha256))

state_of_findings-stale :
    (fs : List HandoffFinding)
    → state_of_findings fs ≢ handoff_verified
    → state_of_findings fs ≡ handoff_stale fs
unfolding state_of_findings
state_of_findings-stale [] other = absurd (other refl)
state_of_findings-stale (f ∷ fs) other = refl

differs_iff : (s t : Text) → (not (text_eq s t) ≡ true) ↔ (s ≢ t)
differs_iff s t = elim (Bool-cases (text_eq s t)) [
  | inl e ↦ (λ q. cc, λ q. absurd (q ((text_eq_iff s t).0 e)))
  | inr e ↦ (λ _ same. cc ((text_eq_iff s t).1 same, e), λ _. rw e refl)
]

iff_trans : {P Q R : Type 0} → P ↔ Q → Q ↔ R → P ↔ R
iff_trans (to, from) (to', from') = (λ x. to' (to x), λ z. from (from' z))

findings-IsStale :
    (h : HandoffBody) (now : CurrentHashes)
    → ¬ (
        (h.head_sha ≡ now.head_sha)
        × (h.tasks_sha256 ≡ now.tasks_sha256)
        × (h.spec_sha256 ≡ now.spec_sha256))
    → IsStale (state_of_findings (handoff_findings h now)) h now
unfolding handoff_findings
findings-IsStale h now other =
    let (head, tasks, spec) =
      findings_named (not (text_eq h.head_sha now.head_sha))
        (not (text_eq h.tasks_sha256 now.tasks_sha256))
        (not (text_eq h.spec_sha256 now.spec_sha256)) in
    (
      handoff_findings h now,
      state_of_findings-stale (handoff_findings h now)
          (λ e. other ((state_of_findings-verified h now).0 e)),
      iff_trans head (differs_iff h.head_sha now.head_sha),
      iff_trans tasks (differs_iff h.tasks_sha256 now.tasks_sha256),
      iff_trans spec (differs_iff h.spec_sha256 now.spec_sha256),
    )

-- When a hand-off holds. A hand-off that deriveHandoffContract returned is evaluated as verified
-- exactly while the head, the tasks and the specification are those that it was derived for; as soon
-- as one of them is another it is stale, with findings that name exactly those that are another. The
-- profile ASSURE takes it, in whatever case the name is written, exactly if it was derived as
-- verified.
pub evaluate-derive_handoff :
    (p : Platform) (input : HandoffBody) (h : Handoff) (now : CurrentHashes) (profile : Text)
    → derive_handoff_contract p input ≡ ok h
    → to_upper profile ≡ text "ASSURE"
    → ((evaluate_handoff_contract (current h) now ≡ handoff_verified) ↔ (
        (input.head_sha ≡ now.head_sha)
        × (input.tasks_sha256 ≡ now.tasks_sha256)
        × (input.spec_sha256 ≡ now.spec_sha256)))
      × (¬ (
            (input.head_sha ≡ now.head_sha)
            × (input.tasks_sha256 ≡ now.tasks_sha256)
            × (input.spec_sha256 ≡ now.spec_sha256))
          → IsStale (evaluate_handoff_contract (current h) now) input now)
      × ((assert_structured_handoff profile (current h) ≡ ok (current h))
          ↔ (input.authority ≡ verified))
unfolding evaluate_handoff_contract clean_lists
evaluate-derive_handoff p input h now profile e upper =
    let (made, _, _, _, _) = derive_handoff_contract-parts p input h e in
    subst
      (λ (x : Handoff).
        ((state_of_findings (handoff_findings x.body now) ≡ handoff_verified) ↔ (
          (input.head_sha ≡ now.head_sha)
          × (input.tasks_sha256 ≡ now.tasks_sha256)
          × (input.spec_sha256 ≡ now.spec_sha256)))
        × (¬ (
              (input.head_sha ≡ now.head_sha)
              × (input.tasks_sha256 ≡ now.tasks_sha256)
              × (input.spec_sha256 ≡ now.spec_sha256))
            → IsStale (state_of_findings (handoff_findings x.body now)) input now)
        × ((assert_structured_handoff profile (current x) ≡ ok (current x))
            ↔ (input.authority ≡ verified)))
      (sym made)
      (
        state_of_findings-verified (clean_lists input) now,
        findings-IsStale (clean_lists input) now,
        assure_iff profile
            (record {
              handoff_id = p.sha256_hex (canonical_json (handoff_json (clean_lists input)));
              body = clean_lists input;
            })
            upper,
      )
