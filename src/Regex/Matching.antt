-- ===== src/Regex/Matching.antt =====
-- The matcher decides the relation that the expression stands for.
use safari_pilot.Regex.{Atom, match_star, match_atoms, star, one, opt, match_end}
use safari_pilot.Prelude.{
  Bool, ℕ, List, ◌≡◌, [], true, false, ◌∷◌, Bool-cases, arith, refl, inl, inr, if◌then◌else◌, ◌↔◌,
}

-- A text matches atoms.
pub data Matches (at_end : Bool) : List Atom → List ℕ → Type 0 where
  finish : Matches at_end [] []
  leave : (cs : List ℕ) → at_end ≡ false → Matches at_end [] cs
  take_one :
      {p : ℕ → Bool} {c : ℕ} {atoms : List Atom} {cs : List ℕ}
      → p c ≡ true
      → Matches at_end atoms cs
      → Matches at_end (one p ∷ atoms) (c ∷ cs)
  skip_opt :
      {p : ℕ → Bool} {atoms : List Atom} {cs : List ℕ}
      → Matches at_end atoms cs
      → Matches at_end (opt p ∷ atoms) cs
  take_opt :
      {p : ℕ → Bool} {c : ℕ} {atoms : List Atom} {cs : List ℕ}
      → p c ≡ true
      → Matches at_end atoms cs
      → Matches at_end (opt p ∷ atoms) (c ∷ cs)
  stop_star :
      {p : ℕ → Bool} {atoms : List Atom} {cs : List ℕ}
      → Matches at_end atoms cs
      → Matches at_end (star p ∷ atoms) cs
  more_star :
      {p : ℕ → Bool} {c : ℕ} {atoms : List Atom} {cs : List ℕ}
      → p c ≡ true
      → Matches at_end (star p ∷ atoms) cs
      → Matches at_end (star p ∷ atoms) (c ∷ cs)

match_star_sound :
    (e : Bool) (p : ℕ → Bool) (atoms : List Atom)
    → ((cs : List ℕ) → match_atoms e atoms cs ≡ true → Matches e atoms cs)
    → (cs : List ℕ) → match_star p (match_atoms e atoms) cs ≡ true
    → Matches e (star p ∷ atoms) cs
unfolding match_star
match_star_sound e p atoms rest [] h = stop_star (rest [] h)
match_star_sound e p atoms rest (c ∷ cs) h = elim (Bool-cases (match_atoms e atoms (c ∷ cs))) [
  | inl now ↦ stop_star (rest (c ∷ cs) now)
  | inr later ↦
      more_star (ground (arith, later)) (match_star_sound e p atoms rest cs (ground (arith, later)))
]

pub match_atoms_sound :
    (e : Bool) (atoms : List Atom) (cs : List ℕ)
    → match_atoms e atoms cs ≡ true
    → Matches e atoms cs
unfolding match_atoms
match_atoms_sound e [] [] h = finish
match_atoms_sound e [] (c ∷ cs) h = leave (c ∷ cs) (ground arith)
match_atoms_sound e (one p ∷ atoms) [] h = absurd (cc)
match_atoms_sound e (one p ∷ atoms) (c ∷ cs) h =
    take_one (ground arith) (match_atoms_sound e atoms cs (ground arith))
match_atoms_sound e (opt p ∷ atoms) [] h = skip_opt (match_atoms_sound e atoms [] (ground arith))
match_atoms_sound e (opt p ∷ atoms) (c ∷ cs) h = elim (Bool-cases (match_atoms e atoms (c ∷ cs))) [
  | inl now ↦ skip_opt (match_atoms_sound e atoms (c ∷ cs) now)
  | inr later ↦
      take_opt (ground (arith, later)) (match_atoms_sound e atoms cs (ground (arith, later)))
]
match_atoms_sound e (star p ∷ atoms) cs h =
    match_star_sound e p atoms (match_atoms_sound e atoms) cs h

match_star-stop :
    (p : ℕ → Bool) (rest : List ℕ → Bool) (cs : List ℕ)
    → rest cs ≡ true
    → match_star p rest cs ≡ true
unfolding match_star
match_star-stop p rest [] h = h
match_star-stop p rest (c ∷ cs) h = rw h

match_star-more :
    (p : ℕ → Bool) (rest : List ℕ → Bool) (c : ℕ) (cs : List ℕ)
    → p c ≡ true
    → match_star p rest cs ≡ true
    → match_star p rest (c ∷ cs) ≡ true
unfolding match_star
match_star-more p rest c cs h m = ground (arith, h, m)

match_end-open : (e : Bool) (cs : List ℕ) → e ≡ false → match_end e cs ≡ true
match_end-open e [] h = refl
match_end-open e (c ∷ cs) h = rw h

match_opt-take :
    (p : ℕ → Bool) (rest : List ℕ → Bool) (c : ℕ) (cs : List ℕ)
    → p c ≡ true
    → rest cs ≡ true
    → (if rest (c ∷ cs) then true else if p c then rest cs else false) ≡ true
match_opt-take p rest c cs h m = ground arith

pub match_atoms_complete :
    (e : Bool) {atoms : List Atom} {cs : List ℕ}
    → Matches e atoms cs
    → match_atoms e atoms cs ≡ true
unfolding match_atoms match_star
match_atoms_complete e finish = refl
match_atoms_complete e (leave cs h) = match_end-open e cs h
match_atoms_complete e (take_one h m) = rw h (match_atoms_complete e m)
match_atoms_complete e (skip_opt m) = rw (match_atoms_complete e m)
match_atoms_complete e (take_opt {p} {c} {atoms} {cs} h m) =
    match_opt-take p (match_atoms e atoms) c cs h (match_atoms_complete e m)
match_atoms_complete e (stop_star {p} {atoms} {cs} m) =
    match_star-stop p (match_atoms e atoms) cs (match_atoms_complete e m)
match_atoms_complete e (more_star {p} {c} {atoms} {cs} h m) =
    match_star-more p (match_atoms e atoms) c cs h (match_atoms_complete e m)

-- The matcher answers yes exactly when the text matches the atoms, from its start and, if
-- `at_end`, up to its end.
match_atoms-decides :
    (e : Bool) (atoms : List Atom) (cs : List ℕ)
    → (match_atoms e atoms cs ≡ true) ↔ Matches e atoms cs
match_atoms-decides e atoms cs = (match_atoms_sound e atoms cs, match_atoms_complete e)
