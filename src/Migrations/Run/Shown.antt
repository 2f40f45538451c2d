-- ===== src/Migrations/Run/Shown.antt =====
-- The loop of `runMigration` from any point that an interruption leaves
-- (packages/migrations/src/runner.mjs).
use wendkeep.Prelude.{ℕ, ◌≡◌, refl, List, arith}
use wendkeep.Prelude.Text.{Text}
use wendkeep.Prelude.Result.{ok}
use wendkeep.Migrations.Data.{Resource, natural, is_version}
use wendkeep.Migrations.Registry.{create_step, apply_step}
use wendkeep.Migrations.Journal.{JournalStep, Journal}
use wendkeep.Migrations.Machine.{Disk, Machine, fault, stored, write_journal, write_resource}
use wendkeep.Migrations.Machine.Laws.{Meets, Meets-hook, Meets-write}
use wendkeep.Migrations.Run.Progress.{next_state, Shows}

-- `whole` tells which steps and resource an interruption may leave.
module _ (journal : Journal) (first : Resource) (whole : List JournalStep → Resource → Type 0) where
  -- What an interruption leaves.
  unfoldable pub IsLeft : Disk → Type 0
  IsLeft d =
      (js : List JournalStep) × (current : Resource) × whole js current
      × Shows journal first js current d

  pub hook-Shows :
      (js : List JournalStep) (current : Resource) (w : Machine)
      → whole js current
      → Shows journal first js current w.disk
      → Meets IsLeft (λ _ d. Shows journal first js current d) w.budget (fault w)
  unfolding IsLeft
  hook-Shows js current w h shows =
      Meets-hook IsLeft (Shows journal first js current) w (js, current, h, shows) shows

  pub write_journal-Shows :
      (js js' : List JournalStep) (current : Resource) (w : Machine)
      → whole js current
      → Shows journal first js current w.disk
      → Meets IsLeft
          (λ _ d. Shows journal first js' current d)
          w.budget
          (write_journal (record journal { steps = js' }) w)
  unfolding write_journal IsLeft
  write_journal-Shows js js' current w h shows =
      Meets-write IsLeft (Shows journal first js' current)
        (λ d. record d { journal = stored (record journal { steps = js' }) }) w
        (js, current, h, shows)
        (record {
          shows_journal = refl;
          shows_resource = shows.shows_resource;
          shows_backup = shows.shows_backup;
        })

  pub write_resource-Shows :
      (js : List JournalStep) (current next : Resource) (w : Machine)
      → whole js current
      → Shows journal first js current w.disk
      → Meets IsLeft (λ _ d. Shows journal first js next d) w.budget (write_resource next w)
  unfolding write_resource IsLeft
  write_resource-Shows js current next w h shows =
      Meets-write IsLeft (Shows journal first js next) (λ d. record d { resource = stored next }) w
        (js, current, h, shows)
        (record {
          shows_journal = shows.shows_journal;
          shows_resource = refl;
          shows_backup = shows.shows_backup;
        })

pub apply_step-create_step :
    (r : Text) (v : ℕ) (s : Resource)
    → s.format_version ≡ natural v
    → apply_step (create_step r v) s ≡ ok (next_state r v s)
unfolding apply_step create_step is_version next_state
apply_step-create_step r v s h = ground (arith, h)
