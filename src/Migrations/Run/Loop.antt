-- ===== src/Migrations/Run/Loop.antt =====
-- The loop over the steps of a journal, from any point that an interruption leaves
-- (packages/migrations/src/runner.mjs).
use mathlib.Core.List.{append_assoc, append-nil, map-append}
use wendkeep.Prelude.{
  ℕ, zero, suc, ◌+◌, ◌≤◌, ◌<◌, ◌≡◌, refl, ap, ◌∙◌, sym, subst, Bool, List, [], ◌∷◌, ◌++◌, inl, inr,
  map, arith,
}
use wendkeep.Prelude.Text.{Text}
use wendkeep.Prelude.Result.{ok}
use wendkeep.Platform.{Platform}
use wendkeep.Migrations.Data.{Resource, natural}
use wendkeep.Migrations.Registry.{Plan, create_step, steps_from, step_id, migrated}
use wendkeep.Migrations.Journal.{JournalStep, Journal, waiting_step}
use wendkeep.Migrations.Receipt.{receipt_step}
use wendkeep.Migrations.Machine.{Disk, Machine, continue}
use wendkeep.Migrations.Machine.Laws.{Meets, Meets-weaken, Meets-continue, Meets-return}
use wendkeep.Migrations.Run.{is_completed, run_steps}
use wendkeep.Migrations.Run.Perform.{Context, find_step, run_step}
use wendkeep.Migrations.Run.Progress.{
  next_state, project, done_step, Mark, untouched, begun, bound, mark_step, Progress, receipt_steps,
  Shows,
}
use wendkeep.Migrations.Run.Shown.{IsLeft}
use wendkeep.Migrations.Run.Step.{run_step-Meets, waiting-Progress, IsDone}

cons_eq {ℓ} : {A : Type ℓ} {a b : A} {l k : List A} → a ≡ b → l ≡ k → a ∷ l ≡ b ∷ k
cons_eq e f = cc

-- The plan finds the steps of the versions from `v` on.
unfoldable pub Finds : Plan → Text → ℕ → ℕ → Type 0
Finds plan r v n = (k : ℕ) → v ≤ k → k < v + n → find_step plan (step_id r k) ≡ ok (create_step r k)

module _ (p : Platform) (r : Text) (journal : Journal) (plan : Plan) (first : Resource)
    (whole : List JournalStep → Resource → Type 0) where
  -- All steps are completed, and the resource is what they make of `s`.
  unfoldable pub IsThrough :
      List JournalStep → ℕ → ℕ → Resource → List JournalStep × Resource → Disk → Type 0
  IsThrough past v n s x d =
      (x.1 ≡ project r v n s)
      × (map receipt_step x.0 ≡ map receipt_step past ++ receipt_steps p r v n s)
      × whole x.0 x.1
      × Shows journal first x.0 x.1 d

  -- One more completed step in front.
  IsThrough-push :
      (past : List JournalStep) (v n : ℕ) (s : Resource) (found : Bool)
      (x : List JournalStep × Resource) (d : Disk)
      → IsThrough (past ++ done_step p r v s found ∷ []) (v + 1) n (next_state r v s) x d
      → IsThrough past v (suc n) s x d
  unfolding IsThrough project receipt_steps receipt_step
  IsThrough-push past v n s found x d (final, rows, held, shows) = (
    final,
    rows
        ∙ (ap (λ l. l ++ receipt_steps p r (v + 1) n (next_state r v s))
              (map-append receipt_step past _)
            ∙ append_assoc (map receipt_step past) _ _),
    held,
    shows,
  )

  lift_push :
      (past : List JournalStep) (v n : ℕ) (s : Resource) (found : Bool)
      → ((js : List JournalStep) (current : Resource)
          → Progress p r v (suc n) s js current
          → whole (past ++ js) current)
      → (js : List JournalStep) (current : Resource)
      → Progress p r (v + 1) n (next_state r v s) js current
      → whole ((past ++ done_step p r v s found ∷ []) ++ js) current
  unfolding Progress
  lift_push past v n s found lift js current now =
      subst (λ l. whole l current) (sym (append_assoc past _ js))
        (lift (done_step p r v s found ∷ js) current (inl (found, refl, now)))

  abbrev context : Context
  context = record { platform = p; journal = journal; plan = plan }

  run_steps-mark :
      (v : ℕ) (s : Resource) (m : Mark) (past js : List JournalStep) (current : Resource)
      (w : Machine)
      → run_steps context past (mark_step p r v s m ∷ js) current w
        ≡ continue
            (λ x. run_steps context (past ++ x.0 ∷ []) js x.1)
            (run_step context past (mark_step p r v s m) js current w)
  unfolding run_steps is_completed
  run_steps-mark v s untouched past js current w = refl
  run_steps-mark v s begun past js current w = refl
  run_steps-mark v s bound past js current w = refl

  pub run_steps-Meets :
      (n v : ℕ) (s : Resource) (past js : List JournalStep) (current : Resource) (w : Machine)
      → Finds plan r v n
      → ((js' : List JournalStep) (current' : Resource)
          → Progress p r v n s js' current'
          → whole (past ++ js') current')
      → s.format_version ≡ natural v
      → Progress p r v n s js current
      → Shows journal first (past ++ js) current w.disk
      → Meets
          (IsLeft journal first whole)
          (IsThrough past v n s)
          w.budget
          (run_steps (record { platform = p; journal = journal; plan = plan }) past js current w)
  unfolding Finds Progress run_steps IsThrough project receipt_steps is_completed next_state
      migrated create_step IsDone
  run_steps-Meets zero v s past [] current w finds lift version now shows =
      Meets-return (IsLeft journal first whole) (IsThrough past v zero s) (past, current) w
        (
          now,
          sym (append-nil _),
          subst (λ l. whole l current) (append-nil past) (lift [] current now),
          subst (λ l. Shows journal first l current w.disk) (append-nil past) shows,
        )
  run_steps-Meets zero v s past (j ∷ js) current w finds lift version now shows = absurd now
  run_steps-Meets (suc n) v s past [] current w finds lift version now shows = absurd now
  run_steps-Meets (suc n) v s past (j ∷ js) current w finds lift version (inl (found, e, now))
        shows =
      subst
        (λ i.
          Shows journal first (past ++ i ∷ js) current w.disk
          → Meets (IsLeft journal first whole) (IsThrough past v (suc n) s) w.budget (
              run_steps (record { platform = p; journal = journal; plan = plan }) past (i ∷ js)
                current w))
        (sym e)
        (λ shows'. Meets-weaken _ _ _ _ _ (IsThrough-push past v n s found) (
          run_steps-Meets n (v + 1) (next_state r v s) (past ++ done_step p r v s found ∷ []) js
            current w (λ k lo hi. finds k (omega arith) (omega arith))
            (lift_push past v n s found lift) refl now
            (subst (λ l. Shows journal first l current w.disk) (sym (append_assoc past _ js))
              shows')))
        shows
  run_steps-Meets (suc n) v s past (j ∷ js) current w finds lift version (inr (m, e, front, waits))
        shows =
      let later = map waiting_step (steps_from r (v + 1) n) in
      let next = next_state r v s in
      subst
        (λ l.
          Shows journal first (past ++ l) current w.disk
          → Meets (IsLeft journal first whole) (IsThrough past v (suc n) s) w.budget
              (run_steps context past l current w))
        (sym (cons_eq e waits))
        (λ shows'. rw (run_steps-mark v s m past later current w) (
          Meets-continue _
            (λ x d. (found : Bool) × IsDone p r journal plan first whole past v n s lift found x d)
            _ _ _ _
            (run_step-Meets p r journal plan first whole past v n s lift m current w front version
              (finds v (omega arith) (omega arith)) shows')
            (λ x w1 (found, (is_done, shows1)).
              subst
                (λ y.
                  Meets (IsLeft journal first whole) (IsThrough past v (suc n) s) w1.budget
                    (run_steps context (past ++ y.0 ∷ []) later y.1 w1))
                (sym is_done)
                (Meets-weaken _ _ _ _ _ (IsThrough-push past v n s found) (
                  run_steps-Meets n (v + 1) next (past ++ done_step p r v s found ∷ []) later next
                    w1 (λ k lo hi. finds k (omega arith) (omega arith))
                    (lift_push past v n s found lift) refl (waiting-Progress p r (v + 1) n next)
                    (subst (λ l. Shows journal first l next w1.disk)
                      (sym (append_assoc past _ later)) shows1))))))
        shows
