-- ===== src/Platform.antt =====
-- What the code calls outside the repository: SHA-256, and dates.
use wendkeep.Prelude.{ℕ, ◌≡◌, true, Option, some}
use wendkeep.Prelude.Text.{Text, is_hex64}

-- A time value is counted in milliseconds from the earliest one that a Date can hold.
pub record Platform : Type 0 where
  -- createHash('sha256').update(text, 'utf8').digest('hex')
  pub sha256_hex : Text → Text
  -- new Date(text).getTime(), where `none` is NaN
  pub parse_date : Text → Option ℕ
  -- new Date(time).toISOString()
  pub to_iso : ℕ → Text

-- Documented behaviour: a digest is 64 lowercase hexadecimal digits, and a date that was parsed is
-- parsed again from its ISO form.
pub record IsDocumented (p : Platform) : Type 0 where
  pub digest_hex : (t : Text) → is_hex64 (p.sha256_hex t) ≡ true
  pub iso_parses : (s : Text) (t : ℕ) → p.parse_date s ≡ some t → p.parse_date (p.to_iso t) ≡ some t
