-- ===== src/Extension/TabMatch.antt =====
-- extension/lib/tab-url-matcher.js, of which extension/background.js holds a copy: which open tab a
-- URL means. The parser of URLs, the printing of parameters and the lower case of a text are those
-- of the browser.
pub mod Ranked
pub mod Tiers
pub mod Chosen
mod Tests
use Prim.Native.Char.{code}
use Prim.Native.String.{[] as empty, ◌∷◌ as ◌∷ₛ◌}
use safari_pilot.Text.{join, char_count, strip_slash}
use safari_pilot.Prelude.{
  Bool, List, Option, String, none, ℕ, ◌∷◌, if◌then◌else◌, ◌==◌, any, true, suc, some, [], zero,
  not, ltb, ◌||◌, ◌+◌, string_eq, false, filter, nat_eq, ◌&&◌,
}

pub record Url : Type 0 where
  pub protocol : String
  pub hostname : String
  pub port : String
  pub pathname : String
  pub search_params : List (String × String)

pub record Browser : Type 0 where
  pub parse_url : String → Option Url
  pub print_params : List (String × String) → String
  pub to_lower_case : String → String

pub record Candidate : Type 0 where
  pub id : ℕ
  pub url : String
  pub window_id : Option ℕ

abbrev tracking_params : List String
tracking_params =
    "gclid" ∷ "fbclid" ∷ "msclkid" ∷ "mc_eid" ∷ "mc_cid" ∷ "ref" ∷ "referrer" ∷ "source"
    ∷ "campaign" ∷ "_ga" ∷ "_gl" ∷ "igshid" ∷ "yclid" ∷ "twclid" ∷ "dclid" ∷ []

-- `s.startsWith(prefix)`
unfoldable pub starts_with : String → String → Bool
starts_with empty s = true
starts_with (c ∷ₛ p) empty = false
starts_with (c ∷ₛ p) (d ∷ₛ s) = code c == code d && starts_with p s

-- `s.slice(n)`
unfoldable pub drop_chars : ℕ → String → String
drop_chars zero s = s
drop_chars (suc n) empty = empty
drop_chars (suc n) (c ∷ₛ s) = drop_chars n s

-- A slash at the end is dropped, unless it is all there is.
unfoldable pub strip_trailing_slash : String → String
strip_trailing_slash empty = empty
strip_trailing_slash (c ∷ₛ empty) = c ∷ₛ empty
strip_trailing_slash (c ∷ₛ d ∷ₛ s) = c ∷ₛ strip_slash (d ∷ₛ s)

abbrev is_tracking : Browser → String × String → Bool
is_tracking browser (key, value) =
    let lower = browser.to_lower_case key in
    any (λ name. name == lower) tracking_params || starts_with "utm_" lower

abbrev without_www : String → String
without_www host = if starts_with "www." host then drop_chars 4 host else host

abbrev host_of : Browser → Url → String
host_of browser u = without_www (browser.to_lower_case u.hostname)

abbrev port_of : Url → String
port_of u = if u.port == "" then "" else join ":" u.port

abbrev path_of : Url → String
path_of u = strip_trailing_slash (if u.pathname == "" then "/" else u.pathname)

abbrev origin_of : Browser → Url → String
origin_of browser u =
    join (browser.to_lower_case u.protocol) (join "//" (join (host_of browser u) (port_of u)))

unfoldable pub normalize_for_match : Browser → String → String
normalize_for_match browser url = if url == "" then "" else elim (browser.parse_url url) [
  | none ↦ strip_trailing_slash url
  | some u ↦
      (let query =
          browser.print_params (filter (λ p. not (is_tracking browser p)) u.search_params) in
        join (origin_of browser u) (join (path_of u) (if query == "" then "" else join "?" query)))
]

pub record OriginPath : Type 0 where
  pub origin : String
  pub path : String

unfoldable pub origin_and_path : Browser → String → Option OriginPath
origin_and_path browser url = elim (browser.parse_url url) [
  | none ↦ none
  | some u ↦ some (record { origin = origin_of browser u; path = path_of u })
]

-- Only at the border of a segment: `/learn/x` is a prefix of `/learn/x/y`, not of `/learn/xtra`.
unfoldable pub path_is_prefix : String → String → Bool
path_is_prefix requested candidate =
    if candidate == requested
    then true
    else if not (starts_with requested candidate)
    then false
    else starts_with "/" (drop_chars (char_count requested) candidate)

unfoldable pub same_page : String → Candidate → Bool
same_page requested c = strip_trailing_slash c.url == strip_trailing_slash requested

-- Tier 0: the first candidate with the same URL.
unfoldable pub find_exact : String → List Candidate → Option ℕ
find_exact requested [] = none
find_exact requested (c ∷ cs) =
    let rest = find_exact requested cs in if same_page requested c then some c.id else rest

abbrev pub same_normal : Browser → String → Candidate → Bool
same_normal browser requested c =
    normalize_for_match browser c.url == normalize_for_match browser requested

-- Tier 1: the last match and how many there are.
unfoldable pub count_normal : (Candidate → Bool) → List Candidate → Option ℕ × ℕ → Option ℕ × ℕ
count_normal matches [] found = found
count_normal matches (c ∷ cs) (id, count) =
    count_normal matches cs (if matches c then (some c.id, count + 1) else (id, count))

-- The path of a candidate that extends the requested page, by its length.
unfoldable pub extension_length : Browser → OriginPath → Candidate → Option ℕ
extension_length browser requested c = elim (origin_and_path browser c.url) [
  | none ↦ none
  | some found ↦
      if not (found.origin == requested.origin)
      then none
      else if path_is_prefix requested.path found.path
      then some (char_count found.path)
      else none
]

-- `bestLen` is `none` where the source has -1.
pub record Best : Type 0 where
  pub id : Option ℕ
  pub len : Option ℕ
  pub count : ℕ

abbrev pub no_best : Best
no_best = record { id = none; len = none; count = 0 }

-- One round of the loop of tier 2, for a candidate with the length `n`.
unfoldable pub consider : ℕ → ℕ → Best → Best
consider id n b = elim b.len [
  | none ↦ record { id = some id; len = some n; count = 1 }
  | some m ↦
      if ltb m n
      then record { id = some id; len = some n; count = 1 }
      else if n == m
      then record b { count = b.count + 1 }
      else b
]

unfoldable pub find_longest : Browser → OriginPath → List Candidate → Best → Best
find_longest browser requested [] b = b
find_longest browser requested (c ∷ cs) b =
    find_longest browser requested cs
      (elim (extension_length browser requested c) [ none ↦ b | some n ↦ consider c.id n b ])

abbrev pub only_best : Best → Option ℕ
only_best b = if b.count == 1 then b.id else none

unfoldable pub match_extension : Browser → String → List Candidate → Option ℕ
match_extension browser requested cs = elim (origin_and_path browser requested) [
  | none ↦ none
  | some origin ↦ only_best (find_longest browser origin cs no_best)
]

abbrev pub match_normal : Browser → String → List Candidate → Option ℕ
match_normal browser requested cs =
    let (id, count) = count_normal (same_normal browser requested) cs (none, 0) in
    if count == 1 then id else match_extension browser requested cs

unfoldable pub match_tab_url : Browser → String → List Candidate → Option ℕ
match_tab_url browser requested cs =
    if requested == "" then none else elim (find_exact requested cs) [
      | some id ↦ some id
      | none ↦ match_normal browser requested cs
    ]
