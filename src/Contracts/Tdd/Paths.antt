-- ===== src/Contracts/Tdd/Paths.antt =====
-- `normalizedPath`, `testPathsOf`, `changedManifestPaths` and `isDeclaredTestPath` of
-- packages/contracts/src/tdd-attestation.mjs.
use wendkeep.Prelude.{
  Bool, false, not, ◌&&◌, ◌||◌, leb, ◌==◌, none, some, List, [], ◌∷◌, ◌++◌, if◌then◌else◌, any,
  keep, drop, map, sort,
}
use wendkeep.Prelude.Text.{Text, text, text_eq, text_leb, trim, dedupe, starts_with}
use wendkeep.Prelude.Table.{Table, lookup}
use wendkeep.Prelude.Result.{Result, ok, err, ◌>>=◌}
use wendkeep.Contracts.Strings.{filled, unique_strings}
use wendkeep.Contracts.Artifacts.{forward_slashes, has_parent_from}

pub data TddError : Type 0 where
  test_path_invalid identity_required waiver_authority_required : TddError

-- /^[A-Za-z]:\//.test(path)
unfoldable pub has_drive : Text → Bool
has_drive (c ∷ d ∷ e ∷ s) =
    ((leb 65 c && leb c 90) || (leb 97 c && leb c 122)) && (d == 58) && (e == 47)
has_drive _ = false

unfoldable pub without_dot : Text → Text
unfolding starts_with
without_dot s = if starts_with s (text "./") then drop 2 s else s

unfoldable pub normalized_path : Text → Result TddError Text
unfolding forward_slashes has_parent_from without_dot starts_with has_drive
normalized_path value =
    let path = trim (without_dot (forward_slashes value)) in
    if not (filled path) || starts_with path (text "/") || has_drive path || has_parent_from [] path
    then err test_path_invalid
    else ok path

unfoldable pub normalized_paths : List Text → Result TddError (List Text)
unfolding normalized_path
normalized_paths [] = ok []
normalized_paths (value ∷ values) = do
  path ← normalized_path value
  paths ← normalized_paths values
  ok (path ∷ paths)

unfoldable pub test_paths_of : List Text → Result TddError (List Text)
unfolding normalized_paths unique_strings
test_paths_of values = do paths ← normalized_paths (unique_strings values); ok (sort text_leb paths)

-- String(manifest[path] || '')
unfoldable pub manifest_at : Table Text → Text → Text
unfolding lookup
manifest_at manifest path = elim (lookup path manifest) [ none ↦ [] | some hash ↦ hash ]

unfoldable pub keys_of : Table Text → List Text
keys_of table = map (λ (entry : Text × Text). entry.0) table

unfoldable pub changed_manifest_paths : Table Text → Table Text → List Text
unfolding manifest_at keys_of
changed_manifest_paths left right = sort text_leb (
    keep (λ path. not (text_eq (manifest_at left path) (manifest_at right path)))
      (dedupe (keys_of left ++ keys_of right)))

-- isDeclaredTestPath(path, declared), which normalizes the path once more
unfoldable pub is_declared : List Text → Text → Result TddError Bool
unfolding starts_with normalized_path
is_declared declared path = do
  normalized ← normalized_path path
  ok (
      any
        (λ test_path. text_eq normalized test_path || starts_with normalized (test_path ++ 47 ∷ []))
        declared)

-- paths.filter((path) => !isDeclaredTestPath(path, declared))
unfoldable pub undeclared_paths : List Text → List Text → Result TddError (List Text)
unfolding is_declared
undeclared_paths declared [] = ok []
undeclared_paths declared (path ∷ paths) = do
  known ← is_declared declared path
  rest ← undeclared_paths declared paths
  ok (if known then rest else path ∷ rest)
