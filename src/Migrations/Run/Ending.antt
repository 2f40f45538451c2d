-- ===== src/Migrations/Run/Ending.antt =====
-- The loop of a run with its journal, and its end
-- (packages/migrations/src/runner.mjs).
use wendkeep.Prelude.{
  ℕ, zero, suc, ◌+◌, ◌-◌, ◌≤◌, ◌≡◌, refl, ap, ◌∙◌, sym, subst, true, some, List, [], inr, map,
  arith,
}
use wendkeep.Prelude.Text.{Text}
use wendkeep.Prelude.Table.{lookup}
use wendkeep.Platform.{Platform, IsDocumented}
use wendkeep.Migrations.Data.{Resource, natural, is_version}
use wendkeep.Migrations.Registry.{control_plane_targets, control_plane, create_step, migrated}
use wendkeep.Migrations.Journal.{JournalStep, Journal, finished, create_journal}
use wendkeep.Migrations.Receipt.{Receipt, build_receipt, receipt_step}
use wendkeep.Migrations.Machine.{
  missing, stored, Disk, Machine, Run, continue, try, ◌>>◌, ◌>>=◌, fault, write_receipt,
  remove_journal,
}
use wendkeep.Migrations.Machine.Laws.{
  Meets, Meets-safer, Meets-continue, Meets-hook, Meets-write, Meets-return,
}
use wendkeep.Migrations.Run.{Migrated, at_target, close_run, finish_run, run_steps, continue_run}
use wendkeep.Migrations.Run.Progress.{project, next_state, Progress, receipt_steps, Shows}
use wendkeep.Migrations.Run.Shown.{IsLeft}
use wendkeep.Migrations.Run.Loop.{Finds, IsThrough, run_steps-Meets}
use wendkeep.Migrations.Run.Check.{IsKind}
use wendkeep.Migrations.Run.Plans.{control_plane-Finds}
use wendkeep.Migrations.Run.Opening.{
  plan, first_journal, IsRecoverable, final_state, final_receipt, IsFinal, IsOpen, planned,
}

pub project-version :
    (r : Text) (v n : ℕ) (s : Resource)
    → s.format_version ≡ natural v
    → (project r v n s).format_version ≡ natural (v + n)
unfolding project next_state migrated create_step
project-version r v zero s h = h ∙ ap natural (omega arith)
project-version r v (suc n) s h =
    project-version r (v + 1) n (next_state r v s) refl ∙ ap natural (omega arith)

module _ (p : Platform) (r : Text) (v t : ℕ) (s kept : Resource) (good : IsDocumented p)
    (known : lookup r control_plane_targets ≡ some t) (le : v ≤ t) (kind : IsKind r s)
    (version : s.format_version ≡ natural v) where
  abbrev Safe : Disk → Type 0
  Safe = IsRecoverable p r v t s kept

  abbrev Done : Migrated → Disk → Type 0
  Done = IsFinal p r v t s kept

  abbrev final : Resource
  final = final_state p r v t s kept

  abbrev receipt : Receipt
  receipt = final_receipt p r v t s kept

  -- The receipt is on the disk, and the journal is still there.
  IsReceipted : List JournalStep → Disk → Type 0
  IsReceipted js d =
      Shows (first_journal p r v t s kept) kept js final d × (d.receipt ≡ stored receipt)

  -- The end of a run whose steps are completed.
  close_run-Meets :
      (js : List JournalStep) (w : Machine)
      → Progress p r v (t - v) s js final
      → Shows (first_journal p r v t s kept) kept js final w.disk
      → Meets Safe Done w.budget (close_run receipt final w)
  unfolding close_run write_receipt remove_journal IsRecoverable IsLeft IsReceipted
  close_run-Meets js w now shows =
      let shown : Disk → Type 0 = Shows (first_journal p r v t s kept) kept js final in
      let result : Migrated = record { receipt = receipt; state = final } in
      Meets-continue Safe (λ _ d. shown d) Done _ _ _
        (Meets-hook Safe shown w (inr (js, final, now, shows)) shows)
        (λ _ w1 shows1.
          Meets-continue Safe (λ _ d. IsReceipted js d) Done _ _ _
            (Meets-write Safe (IsReceipted js) (λ d. record d { receipt = stored receipt }) w1
              (inr (js, final, now, shows1))
              (
                record {
                  shows_journal = shows1.shows_journal;
                  shows_resource = shows1.shows_resource;
                  shows_backup = shows1.shows_backup;
                },
                refl,
              ))
            (λ _ w2 shows2.
              Meets-continue Safe (λ _ d. Done result d) Done _ _ _
                (Meets-write Safe (Done result) (λ d. record d { journal = missing }) w2
                  (inr (js, final, now, shows2.0))
                  (record {
                    state_is = refl;
                    receipt_is = refl;
                    resource_is = shows2.0.shows_resource;
                    journal_is = refl;
                    stored_is = shows2.1;
                    backup_is = shows2.0.shows_backup;
                  }))
                (λ _ w3 done. Meets-return Safe Done result w3 done)))

  final-at_target : at_target final.format_version (natural t) ≡ true
  unfolding at_target is_version final_state
  final-at_target =
      let reached : final.format_version ≡ natural t =
        project-version r v (t - v) s version ∙ ap natural (omega (arith, le)) in
      ground (arith, reached)

  build_receipt-final :
      (js : List JournalStep)
      → map receipt_step js ≡ receipt_steps p r v (t - v) s
      → build_receipt p
          (record (first_journal p r v t s kept) { status = finished; steps = js })
          final
        ≡ receipt
  unfolding build_receipt final_receipt first_journal plan create_journal
  build_receipt-final js rows = ap (λ x. record receipt { steps = x }) rows

  abbrev journal_of : List JournalStep → Journal
  journal_of js = record (first_journal p r v t s kept) { steps = js }

  finish_run-eq :
      (js js' : List JournalStep)
      → map receipt_step js' ≡ receipt_steps p r v (t - v) s
      → finish_run p (natural t) (journal_of js) js' final ≡ close_run receipt final
  unfolding finish_run
  finish_run-eq js js' rows =
      rw (final-at_target, finish_run) (ap (λ x. close_run x final) (build_receipt-final js' rows))

  -- The other steps of the journal do not matter to what it shows.
  Shows-journal_of :
      (js js' : List JournalStep) (current : Resource) (d : Disk)
      → Shows (journal_of js) kept js' current d
      → Shows (first_journal p r v t s kept) kept js' current d
  Shows-journal_of js js' current d shows = record {
    shows_journal = shows.shows_journal;
    shows_resource = shows.shows_resource;
    shows_backup = shows.shows_backup;
  }

  Shows-of_journal :
      (js js' : List JournalStep) (current : Resource) (d : Disk)
      → Shows (first_journal p r v t s kept) kept js' current d
      → Shows (journal_of js) kept js' current d
  Shows-of_journal js js' current d shows = record {
    shows_journal = shows.shows_journal;
    shows_resource = shows.shows_resource;
    shows_backup = shows.shows_backup;
  }

  finish_run-Meets :
      (js : List JournalStep) (x : List JournalStep × Resource) (w : Machine)
      → IsThrough p r
          (journal_of js)
          (plan p r v t s kept)
          kept
          (Progress p r v (t - v) s)
          []
          v
          (t - v)
          s
          x
          w.disk
      → Meets Safe Done w.budget (finish_run p (natural t) (journal_of js) x.0 x.1 w)
  unfolding IsThrough final_state
  finish_run-Meets js (js', last) w (is_final, rows, now, shows) =
      subst
        (λ l.
          Progress p r v (t - v) s js' l
          → Shows (first_journal p r v t s kept) kept js' l w.disk
          → Meets Safe Done w.budget (finish_run p (natural t) (journal_of js) js' l w))
        (sym is_final)
        (λ now' shows'. rw (finish_run-eq js js' rows) (close_run-Meets js' w now' shows')) now
        (Shows-journal_of js js' last w.disk shows)

  Finds-plan : Finds (plan p r v t s kept) r v (t - v)
  unfolding plan
  Finds-plan = control_plane-Finds r v t known le

  IsLeft-journal_of :
      (js : List JournalStep) (d : Disk)
      → IsLeft (journal_of js) kept (Progress p r v (t - v) s) d
      → Safe d
  unfolding IsLeft IsRecoverable
  IsLeft-journal_of js d (js', current, now, shows) =
      inr (js', current, now, Shows-journal_of js js' current d shows)

  abbrev loop : List JournalStep → Resource → Run (List JournalStep × Resource)
  loop js current =
      run_steps (record { platform = p; journal = journal_of js; plan = plan p r v t s kept }) [] js
        current

  continue_run-eq :
      (js : List JournalStep) (current : Resource) (w : Machine)
      → continue_run p control_plane r (natural t) (journal_of js) current w
        ≡ continue
            (λ _. loop js current >>= λ x. finish_run p (natural t) (journal_of js) x.0 x.1)
            (fault w)
  unfolding continue_run first_journal create_journal plan
  continue_run-eq js current w =
      ap
        (λ o.
          continue
            (λ q.
              fault
              >> (run_steps (record { platform = p; journal = journal_of js; plan = q }) [] js
                    current
                  >>= λ x. finish_run p (natural t) (journal_of js) x.0 x.1))
            (try o w))
        (planned p r v t s kept good known le kind version)

  -- The loop of a run, and its end.
  loop-Meets :
      (js : List JournalStep) (current : Resource) (w : Machine)
      → Progress p r v (t - v) s js current
      → Shows (first_journal p r v t s kept) kept js current w.disk
      → Meets Safe Done w.budget
          (continue_run p control_plane r (natural t) (journal_of js) current w)
  unfolding IsRecoverable IsLeft
  loop-Meets js current w now shows =
      let shown : Disk → Type 0 = Shows (first_journal p r v t s kept) kept js current in
      rw (continue_run-eq js current w) (
        Meets-continue Safe (λ _ d. shown d) Done _ _ _
          (Meets-hook Safe shown w (inr (js, current, now, shows)) shows)
          (λ _ w1 shows1.
            Meets-continue Safe
              (IsThrough p r (journal_of js) (plan p r v t s kept) kept (Progress p r v (t - v) s)
                [] v (t - v) s)
              Done _ _ _
              (Meets-safer _ Safe _ _ _ (IsLeft-journal_of js) (
                run_steps-Meets p r (journal_of js) (plan p r v t s kept) kept
                  (Progress p r v (t - v) s) (t - v) v s [] js current w1 Finds-plan (λ _ _ h. h)
                  version now (Shows-of_journal js js current w1.disk shows1)))
              (λ x w2 through. finish_run-Meets js x w2 through)))

  pub continue_run-Meets :
      (j : Journal) (current : Resource) (w : Machine)
      → IsOpen p r v t s kept j current w.disk
      → Meets Safe Done w.budget (continue_run p control_plane r (natural t) j current w)
  unfolding IsOpen
  continue_run-Meets j current w (js, is_j, now, shows) =
      subst (λ i. Meets Safe Done w.budget (continue_run p control_plane r (natural t) i current w))
        (sym is_j) (loop-Meets js current w now shows)
