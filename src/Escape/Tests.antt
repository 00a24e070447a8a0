-- ===== src/Escape/Tests.antt =====
-- Texts that are put into source, at concrete inputs.
use safari_pilot.Prelude.{refl, List, ℕ, ◌++◌, ◌∷◌, [], ◌≡◌, if◌then◌else◌, some, none}
use safari_pilot.Escape.Literal.{read_back, read, plain, has_null_digit}
use safari_pilot.Escape.{
  escape_for_template_literal, escape_for_js_single_quote, replace, replace_dollar_brace, quote,
}

-- A quote, a backslash and a line end, and what follows the literal.
abbrev nasty : List ℕ
nasty = 39 ∷ 92 ∷ 10 ∷ 8232 ∷ 0 ∷ 97 ∷ []

read_back_example :
    read plain (escape_for_js_single_quote nasty ++ quote ∷ 59 ∷ [])
    ≡ (if has_null_digit nasty then none else some (nasty, 59 ∷ []))
read_back_example = read_back nasty (59 ∷ [])

ends_at_the_quote :
    read plain (escape_for_js_single_quote nasty ++ quote ∷ 59 ∷ []) ≡ some (nasty, 59 ∷ [])
unfolding read escape_for_js_single_quote replace
ends_at_the_quote = refl

template : escape_for_template_literal (96 ∷ 36 ∷ 123 ∷ []) ≡ 92 ∷ 96 ∷ 92 ∷ 36 ∷ 123 ∷ []
unfolding escape_for_template_literal replace replace_dollar_brace
template = refl
