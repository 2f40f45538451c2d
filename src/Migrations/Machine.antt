-- ===== src/Migrations/Machine.antt =====
-- The files of a migration (packages/migrations/src/file-store.mjs), and a process that writes them
-- and may be interrupted.
pub mod Laws
use wendkeep.Prelude.{ℕ, zero, suc, Bool, true, false, Option, none, some, List}
use wendkeep.Prelude.Result.{Result, ok, err}
use wendkeep.Migrations.Data.{
  MigrationError, journal_corrupt, resource_corrupt, receipt_corrupt, backup_corrupt, Resource,
}
use wendkeep.Migrations.Journal.{Journal}
use wendkeep.Migrations.Receipt.{Receipt}

-- A file that is not there, that JSON.parse does not accept, or that holds a value.
pub data File {ℓ} (A : Type ℓ) : Type ℓ where
  missing corrupt : File A
  stored : A → File A

pub record Disk : Type 0 where
  pub resource : File Resource
  pub journal : File Journal
  pub receipt : File Receipt
  pub backup : File Resource

-- `budget` is how many more writes, or calls of the hook `fault`, the process lives to make;
-- `none`: it is not interrupted.
pub record Machine : Type 0 where
  pub disk : Disk
  pub budget : Option ℕ

pub data Stop : Type 0 where
  interrupted : Stop
  thrown : MigrationError → Stop

abbrev pub Run {ℓ} : Type ℓ → Type ℓ
Run A = Machine → Machine × Result Stop A

abbrev pub continue {ℓ κ} :
    {A : Type ℓ} {B : Type κ} → (A → Run B) → Machine × Result Stop A → Machine × Result Stop B
continue k (w, ok a) = k a w
continue k (w, err x) = (w, err x)

infixl 5 ◌>>=◌ ◌>>◌
abbrev pub ◌>>=◌ {ℓ κ} : {A : Type ℓ} {B : Type κ} → Run A → (A → Run B) → Run B
(m >>= k) w = continue k (m w)

abbrev pub ◌>>◌ {ℓ} : {B : Type ℓ} → Run (Unit {0}) → Run B → Run B
(m >> k) w = continue (λ _. k) (m w)

abbrev pub return {ℓ} : {A : Type ℓ} → A → Run A
return a w = (w, ok a)

abbrev pub throw {ℓ} : {A : Type ℓ} → MigrationError → Run A
throw e w = (w, err (thrown e))

-- A call that writes nothing.
abbrev pub try {ℓ} : {A : Type ℓ} → Result MigrationError A → Run A
try (ok a) w = (w, ok a)
try (err e) w = (w, err (thrown e))

-- `fault`, where the process may stop.
unfoldable pub fault : Run (Unit {0})
fault w = elim w.budget [
  | none ↦ (w, ok tt)
  | some n ↦ elim n [ zero ↦ (w, err interrupted) | suc k ↦ (record w { budget = some k }, ok tt) ]
]

-- A write, by a file that is renamed: it happens whole or not at all.
unfoldable pub commit : (Disk → Disk) → Run (Unit {0})
unfolding fault
commit change = fault >> (λ w. (record w { disk = change w.disk }, ok tt))

abbrev pub get_disk : Run Disk
get_disk w = (w, ok w.disk)

-- `readJson`
unfoldable pub read_json {ℓ} : {A : Type ℓ} → MigrationError → File A → Result MigrationError A
read_json e (stored a) = ok a
read_json e _ = err e

unfoldable pub exists {ℓ} : {A : Type ℓ} → File A → Bool
exists missing = false
exists _ = true

unfoldable pub write_journal : Journal → Run (Unit {0})
unfolding commit
write_journal j = commit (λ d. record d { journal = stored j })

-- `write` of the adapter
unfoldable pub write_resource : Resource → Run (Unit {0})
unfolding commit
write_resource s = commit (λ d. record d { resource = stored s })

unfoldable pub write_receipt : Receipt → Run (Unit {0})
unfolding commit
write_receipt r = commit (λ d. record d { receipt = stored r })

unfoldable pub keep_backup : Disk → Disk
unfolding exists
keep_backup d = elim (exists d.backup) [ true ↦ d | false ↦ record d { backup = d.resource } ]

-- `backup`: the first copy of the resource is kept.
unfoldable pub backup_resource : Run (Unit {0})
unfolding commit keep_backup
backup_resource = commit keep_backup

-- `removeJournal`, and `archiveCorruptJournal`, whose archive nothing reads
unfoldable pub remove_journal : Run (Unit {0})
unfolding commit
remove_journal = commit (λ d. record d { journal = missing })
