-- ===== src/Migrations/Run/Check.antt =====
-- What an interruption leaves passes the checks of the next run
-- (packages/migrations/src/runner.mjs).
use wendkeep.Prelude.{
  ℕ, zero, suc, ◌+◌, ◌≡◌, refl, ap, Bool, true, List, [], ◌∷◌, inl, inr, map, arith, length,
}
use wendkeep.Prelude.Text.{Text, text_eq, text_eq_refl}
use wendkeep.Prelude.Result.{ok}
use wendkeep.Platform.{Platform, IsDocumented}
use wendkeep.Sync.Canonical.{sync_sha256}
use wendkeep.Sync.Event.Create.{is_sha256}
use wendkeep.Migrations.Data.{
  Resource, natural, is_integer, is_object, is_text_json, hash_state, resource_json,
}
use wendkeep.Migrations.Registry.{create_step, steps_from, step_id, migrated}
use wendkeep.Migrations.Journal.{
  StepStatus, waiting, completed, JournalStep, waiting_step, are_valid_steps, is_valid_step,
  is_hash_or_unset, follows, has_fields, is_set, same_hash, next_prior,
}
use wendkeep.Migrations.Run.Perform.{check_resource, assert_resource}
use wendkeep.Migrations.Run.Progress.{
  next_state, done_step, Mark, untouched, begun, bound, mark_step, Front, Progress,
}

pub hash_state-is_sha256 :
    (p : Platform) (s : Resource) → IsDocumented p → is_sha256 (hash_state p s) ≡ true
unfolding hash_state sync_sha256 is_sha256 resource_json text_eq
hash_state-is_sha256 p s good = good.digest_hex _

waiting_steps-valid :
    (status : StepStatus) (prior : Text) (r : Text) (v n : ℕ)
    → are_valid_steps status prior (steps_from r v n) (map waiting_step (steps_from r v n)) ≡ true
unfolding are_valid_steps steps_from is_valid_step follows has_fields is_hash_or_unset is_set
    same_hash next_prior waiting_step create_step
waiting_steps-valid status prior r v zero = refl
waiting_steps-valid status prior r v (suc n) =
    ground (arith, text_eq_refl (step_id r v), waiting_steps-valid waiting prior r (v + 1) n)

length-waiting_steps :
    (r : Text) (v n : ℕ) → length (map waiting_step (steps_from r v n)) ≡ length (steps_from r v n)
unfolding steps_from
length-waiting_steps r v zero = refl
length-waiting_steps r v (suc n) = omega (arith, length-waiting_steps r (v + 1) n)

pub length-Progress :
    (p : Platform) (r : Text) (v n : ℕ) (s : Resource) (js : List JournalStep) (current : Resource)
    → Progress p r v n s js current
    → length js ≡ length (steps_from r v n)
unfolding Progress steps_from
length-Progress p r v zero s [] current now = refl
length-Progress p r v zero s (j ∷ js) current now = absurd now
length-Progress p r v (suc n) s [] current now = absurd now
length-Progress p r v (suc n) s (j ∷ js) current (inl (found, e, now)) =
    omega (arith, length-Progress p r (v + 1) n (next_state r v s) js current now)
length-Progress p r v (suc n) s (j ∷ js) current (inr (m, e, front, waits)) =
    omega (arith, ap length waits, length-waiting_steps r (v + 1) n)

module _ (p : Platform) (good : IsDocumented p) (r : Text) where
  done_step-valid :
      (v : ℕ) (s : Resource) (found : Bool)
      → is_valid_step completed (hash_state p s) (create_step r v) (done_step p r v s found) ≡ true
  unfolding is_valid_step follows has_fields is_hash_or_unset is_set same_hash create_step
  done_step-valid v s found = ground (
    arith,
    text_eq_refl (step_id r v),
    text_eq_refl (hash_state p s),
    text_eq_refl (hash_state p (next_state r v s)),
    hash_state-is_sha256 p s good,
    hash_state-is_sha256 p (next_state r v s) good,
  )

  mark_step-valid :
      (v : ℕ) (s : Resource) (m : Mark)
      → is_valid_step completed (hash_state p s) (create_step r v) (mark_step p r v s m) ≡ true
  unfolding is_valid_step follows has_fields is_hash_or_unset is_set same_hash create_step
  mark_step-valid v s m = ground (
    arith,
    text_eq_refl (step_id r v),
    text_eq_refl (hash_state p s),
    hash_state-is_sha256 p s good,
    hash_state-is_sha256 p (next_state r v s) good,
  )

  -- The journal of a run that was interrupted passes the check of its steps.
  pub Progress-valid :
      (v n : ℕ) (s : Resource) (js : List JournalStep) (current : Resource)
      → Progress p r v n s js current
      → are_valid_steps completed (hash_state p s) (steps_from r v n) js ≡ true
  unfolding Progress steps_from are_valid_steps next_prior
  Progress-valid v zero s [] current now = refl
  Progress-valid v zero s (j ∷ js) current now = absurd now
  Progress-valid v (suc n) s [] current now = absurd now
  Progress-valid v (suc n) s (j ∷ js) current (inl (found, e, now)) =
      rw e (
        rw (done_step-valid v s found) (Progress-valid (v + 1) n (next_state r v s) js current now))
  Progress-valid v (suc n) s (j ∷ js) current (inr (m, e, front, waits)) =
      rw (e, waits) (rw (mark_step-valid v s m) (waiting_steps-valid _ _ r (v + 1) n))

-- A resource of the right kind stays one.
unfoldable pub IsKind : Text → Resource → Type 0
IsKind r s = (is_text_json s.resource r ≡ true) × (is_object s.authority ≡ true)

pub Progress-check_resource :
    (p : Platform) (r : Text) (v n : ℕ) (s : Resource) (js : List JournalStep) (current : Resource)
    → IsKind r s
    → s.format_version ≡ natural v
    → Progress p r v n s js current
    → check_resource current r ≡ ok tt
unfolding Progress Front check_resource assert_resource IsKind is_integer next_state migrated
    create_step
Progress-check_resource p r v zero s [] current kind version now =
    rw (now, version, kind.0, kind.1) refl
Progress-check_resource p r v zero s (j ∷ js) current kind version now = absurd now
Progress-check_resource p r v (suc n) s [] current kind version now = absurd now
Progress-check_resource p r v (suc n) s (j ∷ js) current kind version (inl (found, e, now)) =
    Progress-check_resource p r (v + 1) n (next_state r v s) js current kind refl now
Progress-check_resource p r v (suc n) s (j ∷ js) current kind version
      (inr (untouched, e, front, waits)) =
    rw (front, version, kind.0, kind.1) refl
Progress-check_resource p r v (suc n) s (j ∷ js) current kind version
      (inr (begun, e, front, waits)) =
    rw (front, version, kind.0, kind.1) refl
Progress-check_resource p r v (suc n) s (j ∷ js) current kind version
      (inr (bound, e, inl front, waits)) =
    rw (front, version, kind.0, kind.1) refl
Progress-check_resource p r v (suc n) s (j ∷ js) current kind version
      (inr (bound, e, inr front, waits)) =
    rw (front, kind.0, kind.1) refl
