-- ===== src/Discovery.antt =====
-- The search among the tools (src/discovery/tool-index.ts). A score is counted in halves, so a tag
-- that is met adds 1 and each text that is met adds 2.
pub mod Ranked
mod Tests
use Prim.Native.Char.{code}
use safari_pilot.Prelude.{
  List, String, ℕ, if◌then◌else◌, ◌∷◌, filter, Bool, Option, ltb, leb, length, ◌==◌, [], ◌+◌,
  nat_eq, map, take, ◌&&◌, any, string_eq, or_default, ◌||◌,
}
use safari_pilot.Text.{join, codes, is_digit}
use safari_pilot.Extension.TabMatch.{starts_with, drop_chars}

pub record ToolEntry : Type 0 where
  pub name : String
  pub description : String
  pub tags : List String

-- `ToolHit`
pub record ToolHit : Type 0 where
  pub entry : ToolEntry
  pub score : ℕ

-- `text.toLowerCase()` and `text.includes(word)` are those of the language.
pub record Texts : Type 0 where
  pub lower : String → String
  pub includes : String → String → Bool

-- `s.split('_')[0]`
unfoldable pub first_part : String → String
first_part String.[] = ""
first_part (String.◌∷◌ c s) =
    let rest = first_part s in if code c == b'_' then "" else String.◌∷◌ c rest

unfoldable pub infer_tags : String → List String
infer_tags name =
    let part = first_part (if starts_with "safari_" name then drop_chars 7 name else name) in
    if part == "" then [] else part ∷ []

-- An entry of the index; `given` are the tags that it came with.
unfoldable pub index_entry : String → String → Option (List String) → ToolEntry
index_entry name description given = record {
  name = name;
  description = description;
  tags = or_default given (infer_tags name);
}

abbrev is_word_char : ℕ → Bool
is_word_char c = (leb b'a' c && leb c b'z') || is_digit c

-- The pieces between characters that are no letters or digits; pieces between two neighbours are
-- empty and go with the short ones.
unfoldable pub pieces : String → String → List String
pieces String.[] word = word ∷ []
pieces (String.◌∷◌ c s) word =
    let rest = pieces s (if is_word_char (code c) then join word (String.◌∷◌ c "") else "") in
    if is_word_char (code c) then rest else word ∷ rest

unfoldable pub tokenize : Texts → String → List String
tokenize ts s = filter (λ t. ltb 1 (length (codes t))) (pieces (ts.lower s) "")

abbrev join_words : List String → String
join_words [] = ""
join_words (w ∷ []) = w
join_words (w ∷ v ∷ ws) = join w (join " " (join_words (v ∷ ws)))

unfoldable pub token_score : Texts → ToolEntry → String → ℕ
token_score ts e t =
    let haystack =
      ts.lower (join e.name (join " " (join e.description (join " " (join_words e.tags))))) in
    (if ts.includes haystack t then 2 else 0)
    + (if ts.includes (ts.lower e.name) t then 2 else 0)
    + (if any (λ tag. tag == t) e.tags then 1 else 0)

unfoldable pub score_of : Texts → List String → ToolEntry → ℕ
score_of ts [] e = 0
score_of ts (t ∷ tokens) e = token_score ts e t + score_of ts tokens e

abbrev pub hits : Texts → List String → List ToolEntry → List ToolHit
hits ts tokens entries =
    filter (λ h. ltb 0 h.score)
      (map (λ e. record { entry = e; score = score_of ts tokens e }) entries)

-- `scored.sort((a, b) => b.score - a.score)`, which keeps the order of equal scores.
unfoldable pub insert_hit : ToolHit → List ToolHit → List ToolHit
insert_hit h [] = h ∷ []
insert_hit h (x ∷ xs) =
    let rest = insert_hit h xs in if leb x.score h.score then h ∷ x ∷ xs else x ∷ rest

unfoldable pub sort_hits : List ToolHit → List ToolHit
sort_hits [] = []
sort_hits (h ∷ hs) = insert_hit h (sort_hits hs)

unfoldable pub search_tools : Texts → List ToolEntry → String → Option ℕ → List ToolHit
search_tools ts entries query top_k =
    if length (tokenize ts query) == 0
    then []
    else take (or_default top_k 8) (sort_hits (hits ts (tokenize ts query) entries))
