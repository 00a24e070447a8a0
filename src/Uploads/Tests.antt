-- ===== src/Uploads/Tests.antt =====
-- Uploads at concrete inputs.
use mathlib.Core.Option.{some-injective}
use safari_pilot.Prelude.{
  String, Bool, true, ◌∷◌, ◌≡◌, ℕ, if◌then◌else◌, some, ◌≤◌, [], ◌==◌, none, false, refl, string_eq,
  nat_eq, arith, Bool-cases, inl, subst, inr,
}
use safari_pilot.Uploads.{
  Folder, Node, expand, find_closest_sibling, levenshtein, levenshtein_table, after_home, find_best,
  fill_rows, suggest, code, fill_row, sibling_distance, cell, first_row, column,
  resolve_upload_path,
}
use safari_pilot.Uploads.Optimal.{Script, levenshtein-Script}
use safari_pilot.Text.{codes, join}
use safari_pilot.Uploads.Resolved.{KeepsAbsolute, Outcome, resolve_upload_path-Outcome}

abbrev is_root : String → Bool
is_root (String.◌∷◌ c t) = code c == b'/'
is_root _ = false

abbrev join_slash : String → String → String
join_slash (String.◌∷◌ c s) t = String.◌∷◌ c (join s (join "/" t))
join_slash _ t = t

-- A system whose home is `/Users/a`; `/tmp/x` is a link.
abbrev mac : Node
mac = record {
  homedir = "/Users/a";
  join_path = join_slash;
  is_absolute = is_root;
  realpath = λ s. if s == "/tmp/x" then some "/private/tmp/x" else none;
}

expand_runs :
    (expand mac "~/b" ≡ some "/Users/a/b") × (expand mac "~b" ≡ none) × (expand mac "b" ≡ none)
unfolding expand after_home
expand_runs = (refl, refl, refl)

is_root-join : (s t : String) → is_root s ≡ true → is_root (join_slash s t) ≡ true
is_root-join (String.◌∷◌ c s) t h = h
is_root-join String.[] t h = cc

mac-KeepsAbsolute : KeepsAbsolute mac
mac-KeepsAbsolute = record {
  home = refl;
  joined = is_root-join;
  real = λ s r e. elim (Bool-cases (s == "/tmp/x")) [
    | inl h ↦ subst (λ t. is_root t ≡ true) (some-injective _ _ (found s r h e)) refl
    | inr h ↦ absurd (ground arith)
  ];
}
  where
    found :
        (s r : String)
        → (s == "/tmp/x") ≡ true
        → mac.realpath s ≡ some r
        → some "/private/tmp/x" ≡ some r
    found s r h e = ground arith

resolve_upload_path-Outcome_example : Outcome mac "/tmp/x" (resolve_upload_path mac "/tmp/x")
resolve_upload_path-Outcome_example = resolve_upload_path-Outcome mac "/tmp/x" mac-KeepsAbsolute

levenshtein_runs : (levenshtein "kitten" "sitting" ≡ 3) × (levenshtein "" "abc" ≡ 3)
unfolding levenshtein levenshtein_table fill_rows fill_row cell first_row column
levenshtein_runs = (refl, refl)

levenshtein-Script_example :
    Script (codes "kitten") (codes "sitting") (levenshtein "kitten" "sitting")
    × ((n : ℕ) → Script (codes "kitten") (codes "sitting") n → levenshtein "kitten" "sitting" ≤ n)
levenshtein-Script_example = levenshtein-Script "kitten" "sitting"

abbrev downloads : Folder
downloads = record {
  dirname = λ s. "/d";
  basename = λ s. "cv.pdf";
  exists = λ s. true;
  read_dir = λ s. "notes.txt" ∷ "cv2.pdf" ∷ "cw.pdf" ∷ [];
  lower = λ s. s;
  join_name = λ s t. join s (join "/" t);
}

find_closest_sibling_runs : find_closest_sibling downloads "/d/cv.pdf" ≡ some "/d/cv2.pdf"
unfolding find_closest_sibling find_best suggest sibling_distance levenshtein levenshtein_table
    fill_rows fill_row cell first_row column
find_closest_sibling_runs = refl
