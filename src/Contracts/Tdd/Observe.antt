-- ===== src/Contracts/Tdd/Observe.antt =====
-- What an attestation records of a run, a snapshot and an identity
-- (packages/contracts/src/tdd-attestation.mjs).
use wendkeep.Prelude.{
  ℕ, ◌+◌, ◌-◌, Bool, true, false, ◌&&◌, ◌||◌, leb, ◌==◌, Option, none, some, List, [], ◌∷◌, ◌++◌,
  if◌then◌else◌, any, all, keep, length, take, drop,
}
use wendkeep.Prelude.Text.{Text, text, text_eq, trim, starts_with}
use wendkeep.Prelude.Table.{Table}
use wendkeep.Prelude.Json.{Json, str, obj, end, field}
use wendkeep.Prelude.Result.{Result, ok, ◌>>◌, guard}
use wendkeep.Platform.{Platform}
use wendkeep.Contracts.Strings.{filled}
use wendkeep.Contracts.Tdd.Paths.{TddError, identity_required}

-- How a command ended: its exit status, if it has one, and what it wrote.
pub record RunResult : Type 0 where
  pub status : Option ℕ
  pub stdout : Text
  pub stderr : Text
  pub error_message : Text

-- [stdout, stderr, message].filter(Boolean).join('\n')
unfoldable pub join_lines : List Text → Text
join_lines [] = []
join_lines (t ∷ []) = t
join_lines (t ∷ u ∷ ts) = t ++ 10 ∷ join_lines (u ∷ ts)

unfoldable pub raw_output : RunResult → Text
unfolding join_lines
raw_output r = join_lines (keep filled (r.stdout ∷ r.stderr ∷ r.error_message ∷ []))

unfoldable pub digest : Platform → Text → Text
digest p t = text "sha256:" ++ p.sha256_hex t

-- The last 2,000 units, the first of which is an ellipsis if some are cut off.
unfoldable pub bounded_tail : (Text → Text) → Text → Text
bounded_tail sanitize value =
    let sanitized = sanitize value in
    if leb (length sanitized) 2000
    then sanitized
    else 0x2026 ∷ drop (length sanitized - 1999) sanitized

pub record Execution : Type 0 where
  pub command : Text
  pub command_digest : Text
  pub exit_code : Option ℕ
  pub output_digest : Text
  pub output_tail : Text
  pub observed_at : Text

-- `sanitize` is sanitizeDiagnostic.
unfoldable pub command_observation : Platform → (Text → Text) → Text → RunResult → Text → Execution
unfolding raw_output digest bounded_tail
command_observation p sanitize command result observed_at = record {
  command = take 1000 (sanitize command);
  command_digest = digest p command;
  exit_code = result.status;
  output_digest = digest p (raw_output result);
  output_tail = bounded_tail sanitize (raw_output result);
  observed_at = observed_at;
}

-- A snapshot of the repository; the manifest has the hash of each changed file, in no order.
pub record RepoSnapshot : Type 0 where
  pub branch : Text
  pub head_sha : Text
  pub index_tree_sha : Text
  pub worktree_digest : Text
  pub change_manifest : Table Text

pub record Causal : Type 0 where
  pub project_id : Text
  pub repository_id : Text
  pub worktree_id : Text
  pub work_session_id : Text
  pub change_slug : Text
  pub task_id : Text
  pub requirement_id : Text

unfoldable pub causal_texts : Causal → List Text
causal_texts c =
    c.project_id ∷ c.repository_id ∷ c.worktree_id ∷ c.work_session_id ∷ c.change_slug ∷ c.task_id
    ∷ c.requirement_id ∷ []

unfoldable pub attestation_identity : Causal → Result TddError Causal
unfolding causal_texts
attestation_identity c = do
  let trimmed : Causal = record {
    project_id = trim c.project_id;
    repository_id = trim c.repository_id;
    worktree_id = trim c.worktree_id;
    work_session_id = trim c.work_session_id;
    change_slug = trim c.change_slug;
    task_id = trim c.task_id;
    requirement_id = trim c.requirement_id;
  }
  guard (all filled (causal_texts trimmed)) identity_required
  ok trimmed

unfoldable pub causal_json : Causal → Json
causal_json c = obj (
    field (text "project_id") (str c.project_id) (
      field (text "repository_id") (str c.repository_id) (
        field (text "worktree_id") (str c.worktree_id) (
          field (text "work_session_id") (str c.work_session_id) (
            field (text "change_slug") (str c.change_slug) (
              field (text "task_id") (str c.task_id)
                (field (text "requirement_id") (str c.requirement_id) end)))))))

unfoldable pub texts_eq : List Text → List Text → Bool
texts_eq [] [] = true
texts_eq (s ∷ ss) (t ∷ ts) = text_eq s t && texts_eq ss ts
texts_eq _ _ = false

-- `sameIdentity`, which does not trim.
unfoldable pub same_identity : Causal → Causal → Bool
unfolding causal_texts texts_eq
same_identity a b = texts_eq (causal_texts a) (causal_texts b)

-- The `i` flag folds ASCII letters with ASCII letters only.
unfoldable pub fold_case : Text → Text
fold_case [] = []
fold_case (c ∷ s) = (if leb 65 c && leb c 90 then c + 32 else c) ∷ fold_case s

unfoldable pub holds : Text → Text → Bool
unfolding starts_with
holds part [] = text_eq part []
holds part (c ∷ s) = starts_with (c ∷ s) part || holds part s

-- `INFRASTRUCTURE_FAILURES`, with the alternatives written out.
abbrev pub infrastructure_failures : List Text
infrastructure_failures =
    text "cannot find module"
    ∷ text "module not found"
    ∷ text "cannot find package"
    ∷ text "syntaxerror"
    ∷ text "enoent"
    ∷ text "command not found"
    ∷ text "is not recognized as an internal or external command"
    ∷ text "failed to load config"
    ∷ text "configuration error"
    ∷ text "configuration invalid"
    ∷ text "configuration missing"
    ∷ text "unknown option"
    ∷ text "unknown argument"
    ∷ []

unfoldable pub is_infrastructure_failure : Text → Bool
unfolding fold_case holds
is_infrastructure_failure diagnostic =
    any (λ part. holds part (fold_case diagnostic)) infrastructure_failures

-- (result.status ?? 1) === 0
unfoldable pub succeeded : RunResult → Bool
succeeded r = elim r.status [ none ↦ false | some code ↦ code == 0 ]
