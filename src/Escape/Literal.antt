-- ===== src/Escape/Literal.antt =====
-- How JavaScript reads a string literal in single quotes.
use mathlib.Core.List.{append_assoc}
use safari_pilot.Prelude.{
  refl, ℕ, Option, List, Bool, none, if◌then◌else◌, some, ◌++◌, false, ◌-◌, ◌==◌, leb, ◌≡◌, ◌∷◌,
  ◌&&◌, sym, [], ◌||◌, nat_eq, ◌*◌, ◌+◌, suc, zero, arith, ap, ◌∙◌,
}
use safari_pilot.Escape.{
  escape_for_js_single_quote, replace, quote, backslash, line_separator, paragraph_separator,
}

-- Where the reader is: in plain text, after a backslash, after `\0`, or in the digits of `\u`,
-- with how many are missing and the value of those read.
pub data Mode : Type 0 where
  plain escaped after_null : Mode
  in_hex : ℕ → ℕ → Mode

abbrev is_digit : ℕ → Bool
is_digit c = leb b'0' c && leb c b'9'

abbrev push : ℕ → Option (List ℕ × List ℕ) → Option (List ℕ × List ℕ)
push c none = none
push c (some (s, rest)) = some (c ∷ s, rest)

abbrev read_plain : (Mode → Option (List ℕ × List ℕ)) → ℕ → List ℕ → Option (List ℕ × List ℕ)
read_plain next c cs =
    if c == quote
    then some ([], cs)
    else if c == backslash
    then next escaped
    else if c == 10 || c == 13
    then none
    else push c (next plain)

abbrev hex_value : ℕ → Option ℕ
hex_value c = if is_digit c then some (c - b'0') else none

-- The text that the literal denotes and what follows the closing quote; `none` where the literal
-- is an error, or one of the escapes that `escape_for_js_single_quote` never writes. `\0` before
-- a digit is an error in a module, and an octal escape elsewhere.
unfoldable pub read : Mode → List ℕ → Option (List ℕ × List ℕ)
read m [] = none
read plain (c ∷ cs) = read_plain (λ m. read m cs) c cs
read escaped (c ∷ cs) =
    if c == b'n'
    then push 10 (read plain cs)
    else if c == b'r'
    then push 13 (read plain cs)
    else if c == b'0'
    then push 0 (read after_null cs)
    else if c == b'u'
    then read (in_hex 3 0) cs
    else if c == quote || c == backslash
    then push c (read plain cs)
    else none
read after_null (c ∷ cs) = if is_digit c then none else read_plain (λ m. read m cs) c cs
read (in_hex zero n) (c ∷ cs) = elim (hex_value c) [
  | none ↦ none
  | some v ↦ push (n * 16 + v) (read plain cs)
]
read (in_hex (suc k) n) (c ∷ cs) = elim (hex_value c) [
  | none ↦ none
  | some v ↦ read (in_hex k (n * 16 + v)) cs
]

replace-append :
    (c : ℕ) (by xs ys : List ℕ) → replace c by (xs ++ ys) ≡ replace c by xs ++ replace c by ys
unfolding replace
replace-append c by [] ys = refl
replace-append c by (x ∷ xs) ys =
    rw (replace-append c by xs ys)
      (sym (append_assoc (if x == c then by else x ∷ []) (replace c by xs) (replace c by ys)))

escape-append :
    (xs ys : List ℕ)
    → escape_for_js_single_quote (xs ++ ys)
      ≡ escape_for_js_single_quote xs ++ escape_for_js_single_quote ys
unfolding escape_for_js_single_quote
escape-append xs ys = simp (replace-append)

abbrev starts_with_digit : List ℕ → Bool
starts_with_digit [] = false
starts_with_digit (c ∷ cs) = is_digit c

-- A null before a digit.
unfoldable pub has_null_digit : List ℕ → Bool
has_null_digit [] = false
has_null_digit (c ∷ cs) = let later = has_null_digit cs in c == 0 && starts_with_digit cs || later

escape_one :
    (c : ℕ)
    → escape_for_js_single_quote (c ∷ []) ≡ (
        if c == backslash || c == quote
        then backslash ∷ c ∷ []
        else if c == 10
        then backslash ∷ b'n' ∷ []
        else if c == 13
        then backslash ∷ b'r' ∷ []
        else if c == 0
        then backslash ∷ b'0' ∷ []
        else if c == line_separator
        then backslash ∷ b'u' ∷ b'2' ∷ b'0' ∷ b'2' ∷ b'8' ∷ []
        else if c == paragraph_separator
        then backslash ∷ b'u' ∷ b'2' ∷ b'0' ∷ b'2' ∷ b'9' ∷ []
        else c ∷ [])
unfolding escape_for_js_single_quote replace
escape_one c = ground arith

-- What the reader does with the escape of one character.
read_one :
    (c : ℕ) (t : List ℕ)
    → read plain (escape_for_js_single_quote (c ∷ []) ++ t)
      ≡ (if c == 0 then push 0 (read after_null t) else push c (read plain t))
unfolding read
read_one c t = rw (escape_one c) (ground arith)

read_after_null :
    (c : ℕ) (t : List ℕ)
    → read after_null (escape_for_js_single_quote (c ∷ []) ++ t) ≡ (
        if is_digit c
        then none
        else if c == 0
        then push 0 (read after_null t)
        else push c (read plain t))
unfolding read
read_after_null c t = rw (escape_one c) (ground arith)

escape-nil : escape_for_js_single_quote [] ≡ []
unfolding escape_for_js_single_quote replace
escape-nil = refl

read-escape :
    (s rest : List ℕ)
    → (read plain (escape_for_js_single_quote s ++ quote ∷ rest)
        ≡ (if has_null_digit s then none else some (s, rest)))
      × (read after_null (escape_for_js_single_quote s ++ quote ∷ rest)
          ≡ (if starts_with_digit s || has_null_digit s then none else some (s, rest)))
unfolding has_null_digit read
read-escape [] rest = rw escape-nil (ground arith, ground arith)
read-escape (c ∷ s) rest =
    let t = escape_for_js_single_quote s ++ quote ∷ rest in
    let split : escape_for_js_single_quote (c ∷ s) ++ quote ∷ rest
        ≡ escape_for_js_single_quote (c ∷ []) ++ t =
      ap (λ x. x ++ quote ∷ rest) (escape-append (c ∷ []) s)
      ∙ append_assoc (escape_for_js_single_quote (c ∷ [])) (escape_for_js_single_quote s)
          (quote ∷ rest) in
    let (from_plain, from_null) = read-escape s rest in
    rw split (
      ground (arith, read_one c t, from_plain, from_null),
      ground (arith, read_after_null c t, from_plain, from_null),
    )

-- A text that is escaped and put between single quotes denotes itself, and the literal ends at the
-- closing quote, whatever the text holds and whatever follows; only a null character with a digit
-- right after it makes the literal an error.
pub read_back :
    (s rest : List ℕ)
    → read plain (escape_for_js_single_quote s ++ quote ∷ rest)
      ≡ (if has_null_digit s then none else some (s, rest))
read_back s rest = (read-escape s rest).0
