-- ===== src/Extension/TabMatch/Tests.antt =====
-- Tabs at concrete URLs; the parser knows three pages of one host.
use safari_pilot.Prelude.{
  refl, String, List, if◌then◌else◌, ◌≡◌, some, ◌==◌, [], none, ◌∷◌, string_eq, filter,
}
use safari_pilot.Extension.TabMatch.Tiers.{match_tab_url-exact, first_or, one_or, longest_extension}
use safari_pilot.Extension.TabMatch.{
  Browser, match_tab_url, find_exact, Candidate, Url, same_page, strip_trailing_slash, count_normal,
  normalize_for_match, same_normal, match_extension, find_longest, extension_length,
  origin_and_path, consider, path_is_prefix, starts_with, drop_chars,
}
use safari_pilot.Text.{strip_slash}

abbrev page : String → String → Url
page path query = record {
  protocol = "https:";
  hostname = "www.a.org";
  port = "";
  pathname = path;
  search_params = if query == "" then [] else (query, "1") ∷ [];
}

abbrev browser : Browser
browser = record {
  parse_url = λ url.
      if url == "https://a.org/x"
      then some (page "/x" "")
      else if url == "https://www.a.org/x?utm_id=1"
      then some (page "/x" "utm_id")
      else if url == "https://www.a.org/x?ref=1"
      then some (page "/x" "ref")
      else if url == "https://a.org/x/y"
      then some (page "/x/y" "")
      else none;
  print_params = λ params. elim params [ [] ↦ "" | p ∷ ps ↦ "?" ];
  to_lower_case = λ s. s;
}

abbrev tabs : List Candidate
tabs =
    record { id = 1; url = "https://www.a.org/x?utm_id=1"; window_id = some 5 }
    ∷ record { id = 2; url = "https://www.a.org/x?ref=1"; window_id = some 5 }
    ∷ record { id = 3; url = "https://a.org/x/y"; window_id = some 6 }
    ∷ []

match_tab_url-exact_example :
    match_tab_url browser "https://a.org/x" tabs
    ≡ first_or
        (one_or
          (longest_extension browser "https://a.org/x" tabs)
          (filter (same_normal browser "https://a.org/x") tabs))
        (filter (same_page "https://a.org/x") tabs)
match_tab_url-exact_example = match_tab_url-exact browser "https://a.org/x" tabs refl

-- Two tabs are the page, and the URL means a third.
another_page : match_tab_url browser "https://a.org/x" tabs ≡ some 3
unfolding match_tab_url find_exact same_page strip_trailing_slash strip_slash count_normal
    normalize_for_match match_extension find_longest extension_length origin_and_path consider
    path_is_prefix starts_with drop_chars
another_page = refl
