-- ===== src/Regex/Tests.antt =====
-- The matcher at a concrete pattern: `ab*`, up to the end.
use safari_pilot.Prelude.{ℕ, true, Bool, ◌==◌, nat_eq, ◌∷◌, [], ◌≡◌, refl}
use safari_pilot.Regex.{match_atoms, match_star, one, star}

abbrev same : ℕ → ℕ → Bool
same a c = c == a

accepts : match_atoms true (one (same 97) ∷ star (same 98) ∷ []) (97 ∷ 98 ∷ 98 ∷ []) ≡ true
unfolding match_atoms match_star
accepts = refl
