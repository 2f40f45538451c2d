-- ===== src/Migrations/Run/Recovery.antt =====
-- A migration comes to the same end whatever interrupts it
-- (packages/migrations/src/runner.mjs).
use wendkeep.Prelude.{
  ℕ, ◌-◌, ◌≤◌, ◌≡◌, ◌≢◌, refl, ap, ◌∙◌, sym, subst, map, Option, none, some, List, [], ◌∷◌, ◌⊎◌,
  inl, inr,
}
use wendkeep.Prelude.Text.{Text}
use wendkeep.Prelude.Table.{lookup}
use wendkeep.Prelude.Result.{ok, err, err-ne-ok}
use wendkeep.Platform.{Platform, IsDocumented}
use wendkeep.Migrations.Data.{Resource, natural, resource_corrupt}
use wendkeep.Migrations.Registry.{control_plane_targets, control_plane}
use wendkeep.Migrations.Machine.{
  stored, Disk, Machine, interrupted, Run, continue, try, ◌>>◌, ◌>>=◌, read_json,
}
use wendkeep.Migrations.Machine.Laws.{Meets, Meets-weaken, Meets-continue, Meets-try, Meets-cases}
use wendkeep.Migrations.Run.{Migrated, open_journal, continue_run, run_migration}
use wendkeep.Migrations.Run.Perform.{check_resource}
use wendkeep.Migrations.Run.Progress.{Shows}
use wendkeep.Migrations.Run.Shown.{IsLeft}
use wendkeep.Migrations.Run.Check.{IsKind, Progress-check_resource}
use wendkeep.Migrations.Run.Step.{waiting-Progress}
use wendkeep.Migrations.Registry.{steps_from}
use wendkeep.Migrations.Journal.{waiting_step}
use wendkeep.Migrations.Run.Opening.{
  first_journal, IsFresh, IsRecoverable, IsFinal, IsOpen, resume_journal-Progress,
  begin_journal-Meets, open_journal-begin, open_journal-resume,
}
use wendkeep.Migrations.Run.Ending.{continue_run-Meets}

-- A process with a budget, and one that is not interrupted.
abbrev pub alive : ℕ → Disk → Machine
alive n d = record { disk = d; budget = some n }

abbrev pub unbroken : Disk → Machine
unbroken d = record { disk = d; budget = none }

-- The disk after runs with the given budgets, one after the other.
unfoldable pub attempts : Run Migrated → List ℕ → Disk → Disk
attempts run [] d = d
attempts run (n ∷ ns) d = attempts run ns (run (alive n d)).0.disk

-- Each of the runs is interrupted.
unfoldable pub AreInterrupted : Run Migrated → List ℕ → Disk → Type 0
AreInterrupted run [] d = Unit {0}
AreInterrupted run (n ∷ ns) d =
    ((run (alive n d)).1 ≡ err interrupted) × AreInterrupted run ns (run (alive n d)).0.disk

module _ (p : Platform) (r : Text) (v t : ℕ) (s kept : Resource) (good : IsDocumented p)
    (known : lookup r control_plane_targets ≡ some t) (le : v ≤ t) (kind : IsKind r s)
    (version : s.format_version ≡ natural v) where
  abbrev run : Run Migrated
  run = run_migration p control_plane r (natural t)

  run_migration-eq :
      (current : Resource) (w : Machine)
      → w.disk.resource ≡ stored current
      → check_resource current r ≡ ok tt
      → run w
        ≡ continue
            (λ j. continue_run p control_plane r (natural t) j current)
            (open_journal p control_plane r (natural t) current w.disk w)
  unfolding run_migration read_json
  run_migration-eq current w is_there checked =
      ap
        (λ f.
          continue
            (λ c.
              try (check_resource c r)
              >> (open_journal p control_plane r (natural t) c w.disk >>= λ j.
                  continue_run p control_plane r (natural t) j c))
            (try (read_json resource_corrupt f) w))
        is_there
      ∙ ap
          (λ o.
            continue
              (λ _. open_journal p control_plane r (natural t) current w.disk >>= λ j.
                continue_run p control_plane r (natural t) j current)
              (try o w))
          checked

  open_journal-Meets :
      (current : Resource) (w : Machine)
      → Meets
          (IsRecoverable p r v t s kept)
          (λ j d. IsOpen p r v t s kept j current d)
          w.budget
          (open_journal p control_plane r (natural t) current w.disk w)
      → w.disk.resource ≡ stored current
      → check_resource current r ≡ ok tt
      → Meets (IsRecoverable p r v t s kept) (IsFinal p r v t s kept) w.budget (run w)
  open_journal-Meets current w opens is_there checked =
      rw (run_migration-eq current w is_there checked) (
        Meets-continue _ (λ j d. IsOpen p r v t s kept j current d) _ _ _ _ opens
          (λ j w1 opens1.
            continue_run-Meets p r v t s kept good known le kind version j current w1 opens1))

  run_migration-Meets :
      (w : Machine)
      → IsRecoverable p r v t s kept w.disk
      → Meets (IsRecoverable p r v t s kept) (IsFinal p r v t s kept) w.budget (run w)
  unfolding IsRecoverable IsLeft IsOpen
  run_migration-Meets w (inl fresh) =
      open_journal-Meets s w
        (rw (open_journal-begin p r v t s kept good known le kind version w.disk fresh.no_journal)
          (begin_journal-Meets p r v t s kept good known le kind version w fresh))
        fresh.has_source
        (Progress-check_resource p r v (t - v) s (map waiting_step (steps_from r v (t - v))) s kind
          version (waiting-Progress p r v (t - v) s))
  run_migration-Meets w (inr (js, current, now, shows)) =
      open_journal-Meets current w
        (rw
          (open_journal-resume p r v t s kept good known le kind version w.disk current _
            shows.shows_journal)
          (Meets-weaken _ _ _ _ _
            (λ j d (is_j, same). (
              js,
              is_j,
              now,
              subst (Shows (first_journal p r v t s kept) kept js current) (sym same) shows,
            ))
            (Meets-try (IsRecoverable p r v t s kept) _ _ w
              (resume_journal-Progress p r v t s kept good known le kind version js current now))))
        shows.shows_resource (Progress-check_resource p r v (t - v) s js current kind version now)

  -- For a resource of the control plane and its target, whatever its budget, a run from a disk that
  -- a migration starts from or may leave comes to its end or is interrupted, and then leaves such a
  -- disk again; it throws no error. It comes to its end if it has no budget.
  pub run_migration_steps :
      (d : Disk) (budget : Option ℕ)
      → IsRecoverable p r v t s kept d
      → ((x : Migrated) × (w : Machine) × (run (record { disk = d; budget = budget }) ≡ (w, ok x))
          × IsFinal p r v t s kept x w.disk)
        ⊎ ((w : Machine) × (run (record { disk = d; budget = budget }) ≡ (w, err interrupted))
            × (budget ≢ none)
            × IsRecoverable p r v t s kept w.disk)
  run_migration_steps d budget left =
      Meets-cases _ _ budget _ (run_migration-Meets (record { disk = d; budget = budget }) left)

  attempts-IsRecoverable :
      (ns : List ℕ) (d : Disk)
      → IsRecoverable p r v t s kept d
      → AreInterrupted run ns d
      → IsRecoverable p r v t s kept (attempts run ns d)
  unfolding attempts AreInterrupted
  attempts-IsRecoverable [] d left stops = left
  attempts-IsRecoverable (n ∷ ns) d left (stops, later) =
      elim (run_migration_steps d (some n) left) [
        | inl (x, w, e, _) ↦ absurd (err-ne-ok (sym stops ∙ ap (λ o. o.1) e))
        | inr (w, e, _, left') ↦
            attempts-IsRecoverable ns _
              (subst (λ o. IsRecoverable p r v t s kept o.0.disk) (sym e) left') later
      ]

  -- A migration of a resource of the control plane to its target, from a disk without a journal,
  -- that is interrupted any number of times, at any of its writes, and is then run once without
  -- interruption, returns the receipt and the resource of a run that was never interrupted: the
  -- resource has gone through all steps, the receipt is on the disk, the journal is gone, and the
  -- backup is the one that was there, or else the resource as it was at first.
  pub run_migration_survives :
      (d : Disk) (ns : List ℕ)
      → IsFresh p r v t s kept d
      → AreInterrupted run ns d
      → (x : Migrated) × (w : Machine) × (run (unbroken (attempts run ns d)) ≡ (w, ok x))
        × IsFinal p r v t s kept x w.disk
  unfolding IsRecoverable
  run_migration_survives d ns fresh stops =
      elim (run_migration_steps (attempts run ns d) none
        (attempts-IsRecoverable ns d (inl fresh) stops)) [
          | inl ends ↦ ends
          | inr (w, e, ne, _) ↦ absurd (ne refl)
        ]
