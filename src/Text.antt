-- ===== src/Text.antt =====
-- Texts as the source's strings. A character is one code point; the source counts UTF-16 units,
-- which is the same for the characters of the basic plane.
pub mod Decimal
use Prim.Native.Char.{code}
use Prim.Native.String.{[], ◌∷◌, String, ◌++◌}
use Prim.Native.Nat.{◌%◌}
use safari_pilot.Prelude.{
  String, ℕ, if◌then◌else◌, suc, ◌==◌, nat_eq, zero, ◌+◌, ◌≡◌, ◌/◌, ltb, refl, List, Bool, leb,
  ◌&&◌,
}

-- `s.replace(/\/$/, '')`
unfoldable pub strip_slash : String → String
strip_slash [] = []
strip_slash (c ∷ []) = if code c == b'/' then [] else c ∷ []
strip_slash (c ∷ d ∷ s) = c ∷ strip_slash (d ∷ s)

abbrev pub char_count : String → ℕ
char_count [] = 0
char_count (c ∷ s) = suc (char_count s)

-- `s.slice(0, n)`
unfoldable pub take_chars : ℕ → String → String
take_chars zero s = []
take_chars (suc n) [] = []
take_chars (suc n) (c ∷ s) = c ∷ take_chars n s

-- `s + t` on texts.
abbrev pub join : String → String → String
join s t = s ++ t

-- `${n}`: the decimal digits of a number.
abbrev digit : ℕ → String
digit zero = "0"
digit (suc zero) = "1"
digit (suc (suc zero)) = "2"
digit (suc (suc (suc zero))) = "3"
digit (suc (suc (suc (suc zero)))) = "4"
digit (suc (suc (suc (suc (suc zero))))) = "5"
digit (suc (suc (suc (suc (suc (suc zero)))))) = "6"
digit (suc (suc (suc (suc (suc (suc (suc zero))))))) = "7"
digit (suc (suc (suc (suc (suc (suc (suc (suc zero)))))))) = "8"
digit _ = "9"

-- A number has at most as many digits as one more than itself, which is the fuel.
decimal_from : ℕ → ℕ → String
decimal_from zero n = ""
decimal_from (suc fuel) n =
    let rest = decimal_from fuel (n / 10) in
    if ltb n 10 then digit n else join rest (digit (n % 10))

unfoldable pub decimal : ℕ → String
unfolding decimal_from
decimal n = decimal_from (n + 1) n

decimal_1203 : decimal 1203 ≡ "1203"
unfolding decimal
decimal_1203 = refl

-- The code points of a text.
abbrev pub codes : String → List ℕ
codes [] = List.[]
codes (c ∷ s) = List.◌∷◌ (code c) (codes s)

-- `\d`
abbrev pub is_digit : ℕ → Bool
is_digit c = leb b'0' c && leb c b'9'
