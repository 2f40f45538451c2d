-- ===== src/Migrations/Run/Step.antt =====
-- A step of a run, from any point that an interruption leaves
-- (packages/migrations/src/runner.mjs).
use wendkeep.Prelude.{
  ℕ, zero, suc, ◌+◌, ◌≡◌, refl, ap, ◌∙◌, subst, Bool, true, false, some, List, ◌∷◌, ◌++◌, ◌⊎◌, inl,
  inr, map, arith,
}
use wendkeep.Prelude.Text.{Text, text_eq_refl}
use wendkeep.Prelude.Result.{ok}
use wendkeep.Platform.{Platform}
use wendkeep.Migrations.Data.{Resource, natural, is_version, hash_state}
use wendkeep.Migrations.Registry.{Plan, create_step, steps_from, step_id, migrated}
use wendkeep.Migrations.Journal.{JournalStep, Journal, same_hash, waiting_step}
use wendkeep.Migrations.Machine.{Disk, Machine, continue, try, ◌>>◌, fault, write_journal}
use wendkeep.Migrations.Machine.Laws.{Meets, Meets-weaken, Meets-continue, Meets-return}
use wendkeep.Migrations.Run.Perform.{
  Context, with_steps, find_step, recover_step, finish_step, bind_step, perform_step, choose_step,
  run_step,
}
use wendkeep.Migrations.Run.Progress.{
  next_state, done_step, Mark, untouched, begun, bound, mark_step, Front, Progress, Shows,
}
use wendkeep.Migrations.Run.Shown.{
  IsLeft, hook-Shows, write_journal-Shows, write_resource-Shows, apply_step-create_step,
}

pair_eq {ℓ κ} :
    {A : Type ℓ} {B : Type κ} {a c : A} {b d : B} → a ≡ c → b ≡ d → ◌≡◌ {A = A × B} (a, b) (c, d)
pair_eq e f = cc

pub waiting-Progress :
    (p : Platform) (r : Text) (v n : ℕ) (s : Resource)
    → Progress p r v n s (map waiting_step (steps_from r v n)) s
unfolding Progress steps_from waiting_step create_step
waiting-Progress p r v zero s = refl
waiting-Progress p r v (suc n) s = inr (untouched, refl, refl, refl)

module _ (p : Platform) (r : Text) (journal : Journal) (plan : Plan) (first : Resource)
    (whole : List JournalStep → Resource → Type 0) (past : List JournalStep) (v n : ℕ)
    (s : Resource)
    (lift : (js : List JournalStep) (current : Resource)
      → Progress p r v (suc n) s js current
      → whole (past ++ js) current) where
  abbrev later_steps : List JournalStep
  later_steps = map waiting_step (steps_from r (v + 1) n)

  marked :
      (m : Mark) (current : Resource)
      → Front r v s m current
      → whole (past ++ mark_step p r v s m ∷ later_steps) current
  unfolding Progress
  marked m current h = lift (mark_step p r v s m ∷ later_steps) current (inr (m, refl, h, refl))

  completed_steps :
      (found : Bool) → whole (past ++ done_step p r v s found ∷ later_steps) (next_state r v s)
  unfolding Progress
  completed_steps found =
      lift (done_step p r v s found ∷ later_steps) (next_state r v s)
        (inl (found, refl, waiting-Progress p r (v + 1) n (next_state r v s)))

  abbrev context : Context
  context = record { platform = p; journal = journal; plan = plan }

  -- The step is completed, with the flag as given.
  unfoldable pub IsDone : Bool → JournalStep × Resource → Disk → Type 0
  IsDone found x d =
      (x ≡ (done_step p r v s found, next_state r v s))
      × Shows journal first (past ++ done_step p r v s found ∷ later_steps) (next_state r v s) d

  finish_step-Meets :
      (w : Machine)
      → Shows journal first (past ++ mark_step p r v s bound ∷ later_steps) s w.disk
      → Meets
          (IsLeft journal first whole)
          (IsDone false)
          w.budget
          (finish_step context past (mark_step p r v s bound) later_steps (next_state r v s) w)
  unfolding finish_step with_steps IsDone Front
  finish_step-Meets w shows =
      let left = IsLeft journal first whole in
      let js = past ++ mark_step p r v s bound ∷ later_steps in
      let done = past ++ done_step p r v s false ∷ later_steps in
      let next = next_state r v s in
      Meets-continue left (λ _ d. Shows journal first js next d) (IsDone false) _ _ _
        (write_resource-Shows journal first whole js s next w (marked bound s (inl refl)) shows)
        (λ _ w1 shows1.
          Meets-continue left (λ _ d. Shows journal first js next d) (IsDone false) _ _ _
            (hook-Shows journal first whole js next w1 (marked bound next (inr refl)) shows1)
            (λ _ w2 shows2.
              Meets-continue left (λ _ d. Shows journal first done next d) (IsDone false) _ _ _
                (write_journal-Shows journal first whole js done next w2
                  (marked bound next (inr refl)) shows2)
                (λ _ w3 shows3.
                  Meets-continue left (λ _ d. Shows journal first done next d) (IsDone false) _ _ _
                    (hook-Shows journal first whole done next w3 (completed_steps false) shows3)
                    (λ _ w4 shows4. Meets-return left (IsDone false) _ w4 (refl, shows4)))))

  bind_step-eq :
      (g : JournalStep) (w : Machine)
      → s.format_version ≡ natural v
      → bind_step context past g later_steps (create_step r v) s w
        ≡ continue
            (λ _.
              finish_step context past
                (record g { expected_after_sha256 = some (hash_state p (next_state r v s)) })
                later_steps
                (next_state r v s))
            (write_journal
              (with_steps journal past
                (record g { expected_after_sha256 = some (hash_state p (next_state r v s)) })
                later_steps)
              w)
  unfolding bind_step
  bind_step-eq g w version = rw (apply_step-create_step r v s version) refl

  -- A step that is begun, where `g` stands for the two marks that it may have.
  bind_step-Meets :
      (g : JournalStep) (w : Machine)
      → whole (past ++ g ∷ later_steps) s
      → record g { expected_after_sha256 = some (hash_state p (next_state r v s)) }
        ≡ mark_step p r v s bound
      → s.format_version ≡ natural v
      → Shows journal first (past ++ g ∷ later_steps) s w.disk
      → Meets
          (IsLeft journal first whole)
          (IsDone false)
          w.budget
          (bind_step context past g later_steps (create_step r v) s w)
  unfolding with_steps
  bind_step-Meets g w begun_whole binds version shows =
      let left = IsLeft journal first whole in
      let js = past ++ mark_step p r v s bound ∷ later_steps in
      rw (bind_step-eq g w version, binds)
        (Meets-continue left (λ _ d. Shows journal first js s d) (IsDone false) _ _ _
          (write_journal-Shows journal first whole (past ++ g ∷ later_steps) js s w begun_whole
            shows)
          (λ _ w1 shows1. finish_step-Meets w1 shows1))

  perform_step-Meets :
      (m : Mark) (w : Machine)
      → Front r v s m s
      → s.format_version ≡ natural v
      → Shows journal first (past ++ mark_step p r v s m ∷ later_steps) s w.disk
      → Meets
          (IsLeft journal first whole)
          (IsDone false)
          w.budget
          (perform_step context past (mark_step p r v s m) later_steps (create_step r v) s w)
  unfolding perform_step with_steps Front
  perform_step-Meets bound w front version shows =
      Meets-continue (IsLeft journal first whole)
        (λ _ d. Shows journal first (past ++ mark_step p r v s bound ∷ later_steps) s d)
        (IsDone false) _ _ _
        (write_journal-Shows journal first whole _ _ s w (marked bound s front) shows)
        (λ _ w1 shows1.
          bind_step-Meets (mark_step p r v s bound) w1 (marked bound s front) refl version shows1)
  perform_step-Meets begun w front version shows =
      Meets-continue (IsLeft journal first whole)
        (λ _ d. Shows journal first (past ++ mark_step p r v s begun ∷ later_steps) s d)
        (IsDone false) _ _ _
        (write_journal-Shows journal first whole _ _ s w (marked begun s front) shows)
        (λ _ w1 shows1.
          bind_step-Meets (mark_step p r v s begun) w1 (marked begun s refl) refl version shows1)
  perform_step-Meets untouched w front version shows =
      Meets-continue (IsLeft journal first whole)
        (λ _ d. Shows journal first (past ++ mark_step p r v s begun ∷ later_steps) s d)
        (IsDone false) _ _ _
        (write_journal-Shows journal first whole _ _ s w (marked untouched s front) shows)
        (λ _ w1 shows1.
          bind_step-Meets (mark_step p r v s begun) w1 (marked begun s refl) refl version shows1)

  -- The process had stopped behind the write of the resource.
  recover_step-Meets :
      (w : Machine)
      → Shows journal first
          (past ++ mark_step p r v s bound ∷ later_steps)
          (next_state r v s)
          w.disk
      → Meets
          (IsLeft journal first whole)
          (IsDone true)
          w.budget
          (recover_step context past (mark_step p r v s bound) later_steps (next_state r v s) w)
  unfolding recover_step with_steps Front IsDone same_hash
  recover_step-Meets w shows =
      let left = IsLeft journal first whole in
      let next = next_state r v s in
      let js = past ++ done_step p r v s true ∷ later_steps in
      rw (text_eq_refl (hash_state p next), recover_step, same_hash)
        (Meets-continue left (λ _ d. Shows journal first js next d) (IsDone true) _ _ _
          (write_journal-Shows journal first whole _ _ next w (marked bound next (inr refl)) shows)
          (λ _ w1 shows1.
            Meets-continue left (λ _ d. Shows journal first js next d) (IsDone true) _ _ _
              (hook-Shows journal first whole js next w1 (completed_steps true) shows1)
              (λ _ w2 shows2. Meets-return left (IsDone true) _ w2 (refl, shows2))))

  choose_step-perform :
      (j : JournalStep)
      → s.format_version ≡ natural v
      → choose_step context past j later_steps (create_step r v) s
        ≡ perform_step context past j later_steps (create_step r v) s
  unfolding choose_step create_step is_version
  choose_step-perform j version = ground (arith, version)

  choose_step-recover :
      (j : JournalStep)
      → choose_step context past j later_steps (create_step r v) (next_state r v s)
        ≡ recover_step context past j later_steps (next_state r v s)
  unfolding choose_step create_step is_version next_state migrated
  choose_step-recover j = ground arith

  Front-cases :
      (m : Mark) (current : Resource)
      → Front r v s m current
      → (Front r v s m s × (current ≡ s)) ⊎ ((m ≡ bound) × (current ≡ next_state r v s))
  unfolding Front
  Front-cases untouched current e = inl (refl, e)
  Front-cases begun current e = inl (refl, e)
  Front-cases bound current (inl e) = inl (inl refl, e)
  Front-cases bound current (inr e) = inr (refl, e)

  choose_step-Meets :
      (m : Mark) (current : Resource) (w : Machine)
      → Front r v s m current
      → s.format_version ≡ natural v
      → Shows journal first (past ++ mark_step p r v s m ∷ later_steps) current w.disk
      → Meets
          (IsLeft journal first whole)
          (λ x d. (found : Bool) × IsDone found x d)
          w.budget
          (choose_step context past (mark_step p r v s m) later_steps (create_step r v) current w)
  choose_step-Meets m current w front version shows = elim (Front-cases m current front) [
    | inl (at_s, e) ↦
        rw (e, choose_step-perform (mark_step p r v s m) version)
          (Meets-weaken _ (IsDone false) _ _ _ (λ x d done. (false, done))
            (perform_step-Meets m w at_s version (
              subst (λ c. Shows journal first (past ++ mark_step p r v s m ∷ later_steps) c w.disk)
                e shows)))
    | inr (is_bound, e) ↦
        rw (e, is_bound, choose_step-recover (mark_step p r v s bound))
          (Meets-weaken _ (IsDone true) _ _ _ (λ x d done. (true, done))
            (recover_step-Meets w (
              subst
                (λ c. Shows journal first (past ++ mark_step p r v s c.0 ∷ later_steps) c.1 w.disk)
                (pair_eq is_bound e) shows)))
  ]

  mark_step-id : (m : Mark) → (mark_step p r v s m).id ≡ step_id r v
  mark_step-id untouched = refl
  mark_step-id begun = refl
  mark_step-id bound = refl

  run_step-eq :
      (j : JournalStep) (current : Resource) (w : Machine)
      → find_step plan j.id ≡ ok (create_step r v)
      → run_step context past j later_steps current w
        ≡ continue (λ _. choose_step context past j later_steps (create_step r v) current) (fault w)
  unfolding run_step
  run_step-eq j current w found =
      ap
        (λ o.
          continue (λ step. fault >> choose_step context past j later_steps step current) (try o w))
        found

  -- The step at work is brought to its end.
  pub run_step-Meets :
      (m : Mark) (current : Resource) (w : Machine)
      → Front r v s m current
      → s.format_version ≡ natural v
      → find_step plan (step_id r v) ≡ ok (create_step r v)
      → Shows journal first (past ++ mark_step p r v s m ∷ later_steps) current w.disk
      → Meets
          (IsLeft journal first whole)
          (λ x d. (found : Bool) × IsDone found x d)
          w.budget
          (run_step context past (mark_step p r v s m) later_steps current w)
  run_step-Meets m current w front version found shows =
      let left = IsLeft journal first whole in
      let js = past ++ mark_step p r v s m ∷ later_steps in
      rw
        (run_step-eq (mark_step p r v s m) current w (ap (find_step plan) (mark_step-id m) ∙ found))
        (Meets-continue left (λ _ d. Shows journal first js current d)
          (λ x d. (found : Bool) × IsDone found x d) _ _ _
          (hook-Shows journal first whole js current w (marked m current front) shows)
          (λ _ w1 shows1. choose_step-Meets m current w1 front version shows1))
