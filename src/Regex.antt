-- ===== src/Regex.antt =====
-- The regular expressions that the source writes, as far as it uses them: characters and classes,
-- `?`, `*` and `+` on one of these, `^`, `$` and the flag `i`. A text is its list of code points.
-- With the flag `i` and without `u`, an ASCII letter matches the same letter of the other case and
-- nothing else.
pub mod Matching
mod Tests
use safari_pilot.Text.{codes}
use safari_pilot.Prelude.{
  Bool, List, String, ℕ, map, ◌∷◌, true, if◌then◌else◌, ◌==◌, false, not, leb, nat_eq, [], ◌&&◌,
  ◌+◌,
}

pub data Atom : Type 0 where
  one : (ℕ → Bool) → Atom
  opt : (ℕ → Bool) → Atom
  star : (ℕ → Bool) → Atom

pub record Regex : Type 0 where
  pub at_start : Bool
  pub atoms : List Atom
  pub at_end : Bool

-- `p*`, and then what `rest` accepts. The shorter run is tried first; only the answer counts.
unfoldable pub match_star : (ℕ → Bool) → (List ℕ → Bool) → List ℕ → Bool
match_star p rest [] = rest []
match_star p rest (c ∷ cs) =
    let more = match_star p rest cs in if rest (c ∷ cs) then true else if p c then more else false

abbrev match_end : Bool → List ℕ → Bool
match_end at_end [] = true
match_end at_end (c ∷ cs) = not at_end

abbrev match_one : (ℕ → Bool) → (List ℕ → Bool) → List ℕ → Bool
match_one p rest [] = false
match_one p rest (c ∷ cs) = if p c then rest cs else false

-- The atoms match at the start of the text, up to its end if `at_end`.
unfoldable pub match_atoms : Bool → List Atom → List ℕ → Bool
unfolding match_star
match_atoms at_end [] cs = match_end at_end cs
match_atoms at_end (one p ∷ atoms) cs = match_one p (match_atoms at_end atoms) cs
match_atoms at_end (opt p ∷ atoms) cs =
    if match_atoms at_end atoms cs then true else match_one p (match_atoms at_end atoms) cs
match_atoms at_end (star p ∷ atoms) cs = match_star p (match_atoms at_end atoms) cs

-- A match at some place of the text.
unfoldable pub search_from : (List ℕ → Bool) → List ℕ → Bool
search_from p [] = p []
search_from p (c ∷ cs) = let later = search_from p cs in if p (c ∷ cs) then true else later

-- `regex.test(text)`
unfoldable pub test : Regex → List ℕ → Bool
unfolding match_atoms search_from
test r cs =
    if r.at_start
    then match_atoms r.at_end r.atoms cs
    else search_from (match_atoms r.at_end r.atoms) cs

abbrev pub to_lower : ℕ → ℕ
to_lower c = if leb b'A' c && leb c b'Z' then c + 32 else c

-- The character `c` with the flag `i`.
abbrev pub same_letter : ℕ → ℕ → Bool
same_letter c x = to_lower x == to_lower c

abbrev pub literal : String → List Atom
literal s = map (λ c. one (same_letter c)) (codes s)

-- `/text/i`
abbrev pub containing : String → Regex
containing s = record { at_start = false; atoms = literal s; at_end = false }

-- `/^atoms$/i` and `/^atoms/i`
abbrev pub whole : List Atom → Regex
whole atoms = record { at_start = true; atoms = atoms; at_end = true }

abbrev pub prefix : List Atom → Regex
prefix atoms = record { at_start = true; atoms = atoms; at_end = false }
