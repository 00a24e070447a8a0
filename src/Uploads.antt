-- ===== src/Uploads.antt =====
-- Paths of uploaded files (src/path-resolve.ts): how a path that a caller names is resolved, and
-- which neighbour is suggested where there is none. The file system and node's path functions are
-- arguments.
pub mod Distance
pub mod Optimal
pub mod Closest
pub mod Resolved
mod Tests
use Prim.Native.Char.{code}
use safari_pilot.Prelude.{
  List, Option, String, ℕ, some, if◌then◌else◌, ◌∷◌, Bool, length, false, ltb, [], suc, true, not,
  ◌==◌, min, nat_eq, none, ◌||◌, zero, string_eq, ◌+◌, ◌&&◌,
}
use safari_pilot.Text.{codes, join}

-- `ResolvedPath`
pub record ResolvedPath : Type 0 where
  pub absolute : String
  pub warnings : List String

-- `resolveUploadPath` returns a path or throws one of two errors, each with the input.
pub data Upload : Type 0 where
  resolved : ResolvedPath → Upload
  not_absolute : String → Upload
  not_readable : String → Upload

abbrev starts_with_tilde : List ℕ → Bool
starts_with_tilde [] = false
starts_with_tilde (c ∷ s) = c == b'~'

abbrev has_nul : List ℕ → Bool
has_nul [] = false
has_nul (c ∷ s) = (c == 0) || has_nul s

-- Node's part: `os.homedir()`, `path.join`, `path.isAbsolute`, and `fs.realpathSync`, which is
-- `none` where it throws.
pub record Node : Type 0 where
  pub homedir : String
  pub join_path : String → String → String
  pub is_absolute : String → Bool
  pub realpath : String → Option String

-- What follows `~/`, if the input starts so.
unfoldable pub after_home : String → Option String
after_home (String.◌∷◌ c (String.◌∷◌ d s)) =
    if (code c == b'~') && (code d == b'/') then some s else none
after_home _ = none

-- The input with `~` expanded, or `none` where the input is refused.
unfoldable pub expand : Node → String → Option String
expand node input = if input == "~" then some node.homedir else elim (after_home input) [
  | some rest ↦ some (node.join_path node.homedir rest)
  | none ↦
      if starts_with_tilde (codes input)
      then none
      else (if not (node.is_absolute input) then none else some input)
]

-- The path behind symbolic links, with a warning where it is another one.
unfoldable pub follow : Node → String → ResolvedPath
follow node expanded = elim (node.realpath expanded) [
  | none ↦ record { absolute = expanded; warnings = [] }
  | some real ↦ if real == expanded then record { absolute = expanded; warnings = [] } else record {
    absolute = real;
    warnings = join "symlink resolved: " (join expanded (join " -> " real)) ∷ [];
  }
]

unfoldable pub resolve_upload_path : Node → String → Upload
resolve_upload_path node input =
    if has_nul (codes input) then not_readable input else elim (expand node input) [
      | none ↦ not_absolute input
      | some expanded ↦ resolved (follow node expanded)
    ]

-- One cell of `levenshtein`'s table: `prev` is the cell above and to the left.
unfoldable pub cell : (x y prev above left : ℕ) → ℕ
cell x y prev above left = if x == y then prev else min (min prev above) left + 1

-- The inner loop. Of `dp` it keeps what stands from the column `j` on: `left` is `dp[j - 1]`,
-- already written, and `prev` what stood there before.
unfoldable pub fill_row : (x : ℕ) (bs : List ℕ) (left prev : ℕ) (dp : List ℕ) → List ℕ
fill_row x [] left prev dp = dp
fill_row x (y ∷ bs) left prev [] = []
fill_row x (y ∷ bs) left prev (tmp ∷ dp) =
    cell x y prev tmp left ∷ fill_row x bs (cell x y prev tmp left) tmp dp

-- The outer loop, from the round `i`: `prev` is `dp[0]`, which becomes `i`.
unfoldable pub fill_rows : (xs bs : List ℕ) (i : ℕ) (dp : List ℕ) → List ℕ
fill_rows [] bs i dp = dp
fill_rows (x ∷ xs) bs i [] = []
fill_rows (x ∷ xs) bs i (prev ∷ dp) = fill_rows xs bs (suc i) (i ∷ fill_row x bs i prev dp)

-- `dp[j] = j`, for the columns from `j` on.
unfoldable pub first_row : (j : ℕ) (bs : List ℕ) → List ℕ
first_row j [] = j ∷ []
first_row j (y ∷ bs) = j ∷ first_row (suc j) bs

-- `dp[j]`
unfoldable pub column : ℕ → List ℕ → ℕ
column j [] = 0
column zero (d ∷ dp) = d
column (suc j) (d ∷ dp) = column j dp

unfoldable pub levenshtein_table : List ℕ → List ℕ → ℕ
levenshtein_table xs ys =
    if length xs == 0
    then length ys
    else (if length ys == 0
        then length xs
        else column (length ys) (fill_rows xs ys 1 (first_row 0 ys)))

unfoldable pub levenshtein : String → String → ℕ
levenshtein a b = if a == b then 0 else levenshtein_table (codes a) (codes b)

-- The best entry so far and its distance; `none` is the distance `Infinity`.
abbrev pub Best : Type 0
Best = Option (String × ℕ)

abbrev pub is_nearer : ℕ → Best → Bool
is_nearer dist none = true
is_nearer dist (some (e, d)) = ltb dist d

-- The loop over the entries of the directory.
unfoldable pub find_best : (String → ℕ) → List String → Best → Best
find_best dist [] best = best
find_best dist (e ∷ es) best =
    find_best dist es (if is_nearer (dist e) best then some (e, dist e) else best)

-- The entry that is suggested: none that is further than three edits away.
unfoldable pub suggest : Best → Option String
suggest none = none
suggest (some (e, d)) = if ltb 3 d then none else some e

-- What the search asks of the system: `dirname`, `basename`, `existsSync`, `readdirSync`,
-- `toLowerCase` and `join`.
pub record Folder : Type 0 where
  pub dirname : String → String
  pub basename : String → String
  pub exists : String → Bool
  pub read_dir : String → List String
  pub lower : String → String
  pub join_name : String → String → String

unfoldable pub sibling_distance : Folder → String → String → ℕ
sibling_distance fs missing entry = levenshtein (fs.lower (fs.basename missing)) (fs.lower entry)

unfoldable pub find_closest_sibling : Folder → String → Option String
find_closest_sibling fs missing =
    if not (fs.exists (fs.dirname missing))
    then none
    else elim (suggest
        (find_best (sibling_distance fs missing) (fs.read_dir (fs.dirname missing)) none)) [
          | none ↦ none
          | some e ↦ some (fs.join_name (fs.dirname missing) e)
        ]
