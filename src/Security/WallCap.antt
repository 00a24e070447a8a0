-- ===== src/Security/WallCap.antt =====
-- src/security/wall-cap.ts: the limit on the wall-clock time of a session.
pub mod Budget
mod Tests
use mathlib.Core.Option
use safari_pilot.Errors.{Result, ok, err, wall_cap_exceeded}
use safari_pilot.Prelude.{
  List, Option, ℕ, ◌-◌, none, String, ◌∷◌, Bool, or_default, some, ◌*◌, ◌==◌, if◌then◌else◌, leb,
  ◌&&◌, [], ltb, ◌||◌, ◌+◌, nat_eq, eqb,
}
use safari_pilot.Text.{codes}

pub record WallCapEnforcer : Type 0 where
  pub max_ms : Option ℕ
  pub started_at : ℕ

unfoldable pub new : Option ℕ → ℕ → WallCapEnforcer
new max_ms now = record { max_ms = max_ms; started_at = now }

abbrev is_digit : ℕ → Bool
is_digit c = leb b'0' c && leb c b'9'

abbrev is_space : ℕ → Bool
is_space c = c == 32 || leb 9 c && leb c 13

-- The digits at the start of a text, added to those before it.
leading_digits : ℕ → List ℕ → ℕ
leading_digits n [] = n
leading_digits n (c ∷ cs) =
    let rest = leading_digits (n * 10 + (c - 48)) cs in if is_digit c then rest else n

-- `none` is `NaN`.
unsigned : List ℕ → Option ℕ
unfolding leading_digits
unsigned [] = none
unsigned (c ∷ cs) = if is_digit c then some (leading_digits 0 (c ∷ cs)) else none

-- `Number.parseInt(raw, 10)` for the test `parsed > 0`: a negative number is read as 0.
unfoldable pub parse_int : List ℕ → Option ℕ
unfolding unsigned
parse_int [] = none
parse_int (c ∷ cs) =
    let rest = parse_int cs in
    if is_space c
    then rest
    else if c == b'-'
    then Option.map (λ n. 0) (unsigned cs)
    else if c == b'+'
    then unsigned cs
    else unsigned (c ∷ cs)

-- A cap that is missing, not a number, or not positive is no cap.
unfoldable pub positive_cap : Option ℕ → Option ℕ
positive_cap none = none
positive_cap (some parsed) = if eqb parsed 0 then none else some parsed

unfoldable pub from_env : Option String → ℕ → WallCapEnforcer
from_env none now = new none now
from_env (some raw) now = new (positive_cap (parse_int (codes raw))) now

unfoldable pub elapsed_ms : Option ℕ → ℕ → WallCapEnforcer → ℕ
elapsed_ms override now w = or_default override (now - w.started_at)

unfoldable pub assert_within_cap : Option ℕ → ℕ → WallCapEnforcer → Result (Unit {0})
unfolding elapsed_ms
assert_within_cap override now w = elim w.max_ms [
  | none ↦ ok tt
  | some max_ms ↦
      if ltb max_ms (elapsed_ms override now w)
      then err (wall_cap_exceeded max_ms (elapsed_ms override now w))
      else ok tt
]

-- `none` is `Infinity`.
unfoldable pub remaining_ms : Option ℕ → ℕ → WallCapEnforcer → Option ℕ
unfolding elapsed_ms
remaining_ms override now w = Option.map (λ max_ms. max_ms - elapsed_ms override now w) w.max_ms
