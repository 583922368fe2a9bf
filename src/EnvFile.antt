-- ===== src/EnvFile.antt =====
-- upsertEnv of cmd/godxfeed/admin.go, on the text of the file, and requireFlags of
-- cmd/godxfeed/validate.go.
pub mod Lines
pub mod Given
use Prim.Native.String.{◌++◌}
use godxfeed.Common.{
  String, Bool, true, false, Option, none, some, List, [], ◌∷◌, is_empty, if◌then◌else◌, ◌==◌,
  string_eq,
}
use godxfeed.Common.Outcome.{Error, fail, str}
use godxfeed.Common.Text.{split, join_with, has_prefix, trim_space}

-- The loop over the lines, and the line that is appended where it has found none.
unfoldable pub upsert_lines : String → String → List String → List String
upsert_lines prefix new [] = new ∷ []
upsert_lines prefix new (line ∷ lines) =
    let rest = upsert_lines prefix new lines in
    if has_prefix line prefix then new ∷ lines else line ∷ rest

-- What upsertEnv writes for what it has read; a file that is not there reads as "".
unfoldable pub upsert_env : String → String → String → String
unfolding upsert_lines split join_with
upsert_env key value content =
    join_with "\n" (upsert_lines (key ++ "=") ((key ++ "=") ++ value) (split 10 content))

-- The loop of requireFlags: the flags whose value is blank. `value` is ctx.String.
unfoldable pub missing : (String → String) → List String → List String
unfolding trim_space
missing value [] = []
missing value (n ∷ names) =
    let rest = missing value names in
    if trim_space (value n) == "" then ("--" ++ n) ∷ rest else rest

unfoldable pub require_flags : (String → String) → List String → Option Error
unfolding missing join_with
require_flags value names =
    let found = missing value names in
    if is_empty found
    then none
    else some (
        fail "missing required flag(s): %s (see `--help` for the bound env vars)"
          (str (join_with ", " found) ∷ []))
