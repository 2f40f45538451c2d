-- ===== src/Contracts/Artifacts.antt =====
-- `normalizeExternalArtifactEvidence`, `safeRelativePath`, `globRegExp` and `evaluateArtifactSpecs` of
-- packages/contracts/src/task-contracts.mjs.
pub mod Laws
pub mod Satisfies
use wendkeep.Prelude.{
  ℕ, zero, suc, Bool, true, false, not, ◌&&◌, ◌||◌, leb, ltb, ◌==◌, Option, none, some, List, [],
  ◌∷◌, ◌++◌, if◌then◌else◌, any, all, keep, length, take,
}
use wendkeep.Prelude.Text.{Text, text, text_eq, includes, contains, trim, is_hex64}
use wendkeep.Prelude.Result.{Result, ok, err, ◌>>=◌, ◌>>◌, guard}
use wendkeep.Contracts.Strings.{filled}
use wendkeep.Contracts.Task.Data.{ContractError, external_artifact_invalid}

pub record ExternalArtifact : Type 0 where
  pub source : Text
  pub external_id : Text
  pub kind : Text
  pub sha256 : Text

-- The evidence is always `reported`, never verified.
unfoldable pub normalize_external_artifact_evidence :
    ExternalArtifact → Result ContractError ExternalArtifact
normalize_external_artifact_evidence a = do
  let source = trim a.source
  let external_id = trim a.external_id
  let kind = trim a.kind
  let sha256 = trim a.sha256
  guard
      (filled source
        && filled external_id
        && includes (text "artifact" ∷ text "review" ∷ text "commit" ∷ []) kind
        && is_hex64 sha256)
      external_artifact_invalid
  ok (record { source = source; external_id = external_id; kind = kind; sha256 = sha256 })

pub data ArtifactError : Type 0 where
  path_escape spec_invalid scan_timeout scan_limit : ArtifactError

-- A number of a specification: missing or no safe integer, a safe integer from 0, a negative one.
pub data Limit : Type 0 where
  unset : Limit
  natural : ℕ → Limit
  negative : Limit

pub record ArtifactSpec : Type 0 where
  pub name : Text
  pub type : Text
  pub path : Text
  pub glob : Text
  pub from_filesystem : Bool
  pub min : Limit
  pub max : Limit

pub data ArtifactSource : Type 0 where
  registered registry filesystem_disabled filesystem : ArtifactSource

pub record ArtifactOutcome : Type 0 where
  pub name : Text
  pub type : Text
  pub satisfied : Bool
  pub count : ℕ
  pub source : ArtifactSource

-- The project on the disk. `stays_inside` says that the target, and what it links to, is below the
-- root; `is_file` that it exists and is no symbolic link; `scan` walks the directories; `matches`
-- is RegExp.prototype.test on a pattern's source.
pub record Files : Type 0 where
  pub is_absolute : Text → Bool
  pub stays_inside : Text → Bool
  pub is_file : Text → Bool
  pub scan : Result ArtifactError (List Text)
  pub matches : Text → Text → Bool

-- s.replaceAll('\\', '/')
unfoldable pub forward_slashes : Text → Text
forward_slashes [] = []
forward_slashes (c ∷ s) = (if c == 92 then 47 else c) ∷ forward_slashes s

-- raw.split('/').includes('..'); `part` is the segment so far, reversed.
unfoldable pub has_parent_from : Text → Text → Bool
has_parent_from part [] = text_eq part (text "..")
has_parent_from part (c ∷ s) =
    if c == 47
    then text_eq part (text "..") || has_parent_from [] s
    else has_parent_from (c ∷ part) s

unfoldable pub safe_relative_path : Files → Text → Result ArtifactError Text
unfolding forward_slashes has_parent_from
safe_relative_path fs value =
    let raw = forward_slashes value in
    if filled raw && not (fs.is_absolute raw) && not (has_parent_from [] raw) && fs.stays_inside raw
    then ok raw
    else err path_escape

-- One unit of a pattern outside the wildcards, escaped.
unfoldable pub escape_glob_unit : ℕ → Text
escape_glob_unit c = if contains c (text "|\\{}()[]^$+?.") then 92 ∷ c ∷ [] else c ∷ []

-- The pattern for a unit and what follows it, and how many of the next units it uses up.
unfoldable pub glob_piece : ℕ → Text → Text × ℕ
unfolding escape_glob_unit
glob_piece c s =
    if (c == 42) && text_eq (take 2 s) (text "*/")
    then (text "(?:.*/)?", 2)
    else if (c == 42) && text_eq (take 1 s) (text "*")
    then (text ".*", 1)
    else if c == 42
    then (text "[^/]*", 0)
    else if c == 63
    then (text "[^/]", 0)
    else (escape_glob_unit c, 0)

unfoldable pub glob_from : ℕ → Text → Text
unfolding glob_piece
glob_from skip [] = []
glob_from (suc skip) (c ∷ s) = glob_from skip s
glob_from zero (c ∷ s) = let (piece, skip) = glob_piece c s in piece ++ glob_from skip s

-- The source of globRegExp(pattern).
unfoldable pub glob_source : Text → Text
unfolding glob_from forward_slashes
glob_source pattern = 94 ∷ (glob_from 0 (forward_slashes pattern) ++ 36 ∷ [])

unfoldable pub at_least : Limit → ℕ → Bool
at_least unset count = leb 1 count
at_least (natural n) count = leb n count
at_least negative count = true

unfoldable pub at_most : Limit → ℕ → Bool
at_most unset count = true
at_most (natural n) count = leb count n
at_most negative count = false

-- The number of files of the project that a pattern matches.
unfoldable pub count_matches : Files → Text → List Text → ℕ
unfolding glob_source
count_matches fs glob files = length (keep (fs.matches (glob_source glob)) files)

unfoldable pub is_spec_type : Text → Bool
is_spec_type type = includes (text "name" ∷ text "path" ∷ text "glob" ∷ text "file-count" ∷ []) type

-- What is looked up on the disk, for a specification of the type `path`, `glob` or `file-count`.
unfoldable pub evaluate_on_disk :
    Files → Text → Text → ArtifactSpec → Result ArtifactError ArtifactOutcome
unfolding safe_relative_path count_matches at_least at_most
evaluate_on_disk fs name type spec =
    if text_eq type (text "path")
    then (do
      raw ← safe_relative_path fs spec.path
      let satisfied = fs.is_file raw
      ok (record {
        name = name;
        type = type;
        satisfied = satisfied;
        count = if satisfied then 1 else 0;
        source = filesystem;
      }))
    else (do
      _ ← safe_relative_path fs spec.glob
      files ← fs.scan
      let count = count_matches fs spec.glob files
      ok (record {
        name = name;
        type = type;
        satisfied =
            if text_eq type (text "glob")
            then ltb 0 count
            else at_least spec.min count && at_most spec.max count;
        count = count;
        source = filesystem;
      }))

unfoldable pub evaluate_spec :
    Files → List Text → ArtifactSpec → Result ArtifactError ArtifactOutcome
unfolding evaluate_on_disk is_spec_type
evaluate_spec fs registered_names spec = do
  let name = trim spec.name
  let type = trim spec.type
  guard (filled name && is_spec_type type) spec_invalid
  if includes registered_names name
      then ok
          (record { name = name; type = type; satisfied = true; count = 1; source = registered })
      else if text_eq type (text "name")
      then ok (record { name = name; type = type; satisfied = false; count = 0; source = registry })
      else if not spec.from_filesystem
      then ok (record {
        name = name;
        type = type;
        satisfied = false;
        count = 0;
        source = filesystem_disabled;
      })
      else evaluate_on_disk fs name type spec

unfoldable pub evaluate_specs :
    Files → List Text → List ArtifactSpec → Result ArtifactError (List ArtifactOutcome)
unfolding evaluate_spec
evaluate_specs fs registered_names [] = ok []
evaluate_specs fs registered_names (spec ∷ specs) = do
  result ← evaluate_spec fs registered_names spec
  results ← evaluate_specs fs registered_names specs
  ok (result ∷ results)

-- `ok` and `results`, where `registered_names` are the names of the registered artifacts.
unfoldable pub evaluate_artifact_specs :
    Files → List Text → List ArtifactSpec → Result ArtifactError (Bool × List ArtifactOutcome)
unfolding evaluate_specs
evaluate_artifact_specs fs registered_names specs = do
  results ← evaluate_specs fs registered_names specs
  ok (all (λ (r : ArtifactOutcome). r.satisfied) results, results)
