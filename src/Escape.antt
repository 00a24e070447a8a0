-- ===== src/Escape.antt =====
-- src/escape.ts: texts that are put into JavaScript source. A text is the list of its code units.
pub mod Literal
mod Tests
use safari_pilot.Prelude.{List, ℕ, ◌∷◌, if◌then◌else◌, [], ◌==◌, ◌&&◌, ◌++◌, nat_eq}

-- `s.replace(/c/g, by)` for one character.
unfoldable pub replace : ℕ → List ℕ → List ℕ → List ℕ
replace c by [] = []
replace c by (x ∷ xs) = (if x == c then by else x ∷ []) ++ replace c by xs

abbrev pub backslash : ℕ
backslash = 92

abbrev pub quote : ℕ
quote = 39

abbrev pub line_separator : ℕ
line_separator = 8232

abbrev pub paragraph_separator : ℕ
paragraph_separator = 8233

-- `\u2028` and `\u2029`, written out.
abbrev unicode_escape : ℕ → List ℕ
unicode_escape last = backslash ∷ b'u' ∷ b'2' ∷ b'0' ∷ b'2' ∷ last ∷ []

-- The seven replacements, the backslash first.
unfoldable pub escape_for_js_single_quote : List ℕ → List ℕ
escape_for_js_single_quote s = replace paragraph_separator (unicode_escape b'9') (
    replace line_separator (unicode_escape b'8') (
      replace 0 (backslash ∷ b'0' ∷ []) (
        replace 13 (backslash ∷ b'r' ∷ []) (
          replace 10 (backslash ∷ b'n' ∷ []) (
            replace quote (backslash ∷ quote ∷ [])
              (replace backslash (backslash ∷ backslash ∷ []) s))))))

abbrev backtick : ℕ
backtick = 96

-- `replace(/\$\{/g, '\\${')`: after a `$` that is written, a `{` belongs to it.
unfoldable pub replace_dollar_brace : List ℕ → List ℕ
replace_dollar_brace [] = []
replace_dollar_brace (x ∷ []) = x ∷ []
replace_dollar_brace (x ∷ y ∷ ys) =
    let rest = replace_dollar_brace (y ∷ ys) in
    if x == b'$' && y == b'{' then backslash ∷ x ∷ rest else x ∷ rest

unfoldable pub escape_for_template_literal : List ℕ → List ℕ
escape_for_template_literal s = replace_dollar_brace (
    replace backtick (backslash ∷ backtick ∷ []) (replace backslash (backslash ∷ backslash ∷ []) s))
