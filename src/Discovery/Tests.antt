-- ===== src/Discovery/Tests.antt =====
-- A search among three tools; `lower` and `includes` are those of plain words.
use safari_pilot.Discovery.{
  Texts, index_entry, search_tools, tokenize, pieces, infer_tags, ToolEntry, sort_hits, ToolHit,
  first_part, insert_hit, hits, score_of, token_score,
}
use safari_pilot.Prelude.{
  List, ◌==◌, string_eq, ◌≡◌, none, ◌∷◌, [], some, ◌<◌, refl, map, length, arith,
}
use safari_pilot.Discovery.Ranked.{IsBest, search_tools-IsBest}
use safari_pilot.Extension.TabMatch.{starts_with, drop_chars}

abbrev words_only : Texts
words_only = record { lower = λ s. s; includes = λ s t. s == t }

abbrev tools : List ToolEntry
tools =
    index_entry "click" "" none
    ∷ index_entry "safari_tab_list" "tabs" none
    ∷ index_entry "tab" "" none
    ∷ []

tools_tags : map (λ e. e.tags) tools ≡ ("click" ∷ []) ∷ ("tab" ∷ []) ∷ ("tab" ∷ []) ∷ []
unfolding index_entry infer_tags first_part starts_with drop_chars
tools_tags = refl

tokens : tokenize words_only "tab, a click" ≡ "tab" ∷ "click" ∷ []
unfolding tokenize pieces
tokens = refl

search_tools_runs : map (λ h. h.score) (search_tools words_only tools "tab" none) ≡ 3 ∷ 1 ∷ []
unfolding search_tools sort_hits insert_hit score_of token_score tokenize pieces index_entry
    infer_tags first_part starts_with drop_chars
search_tools_runs = refl

search_tools-IsBest_example :
    (rest : List ToolHit) × IsBest 1
      (hits words_only (tokenize words_only "tab") tools)
      (search_tools words_only tools "tab" (some 1))
      rest
search_tools-IsBest_example = search_tools-IsBest words_only tools "tab" (some 1) one_token
  where
    one_token : 0 < length (tokenize words_only "tab")
    one_token = unfold tokenize pieces in omega arith
