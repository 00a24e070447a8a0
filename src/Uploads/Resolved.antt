-- ===== src/Uploads/Resolved.antt =====
-- What a resolved upload path is (`resolveUploadPath`, src/path-resolve.ts).
use safari_pilot.Prelude.{[], none, refl}
use mathlib.Core.Option.{some-injective}
use safari_pilot.Uploads.{
  Node, Upload, has_nul, not_readable, expand, not_absolute, ResolvedPath, resolve_upload_path,
  follow, resolved, after_home, starts_with_tilde,
}
use safari_pilot.Prelude.{
  String, ◌≡◌, true, some, false, none, [], ◌↔◌, ◌≢◌, Bool-cases, inl, ◌==◌, arith, Option-cases,
  inr, ◌⊎◌, string_eq, eq_iff, sym, ◌∙◌,
}
use safari_pilot.Text.{codes}

-- Node's documented behaviour: the home directory is absolute, a path joined to an absolute one is
-- absolute, and so is what `realpath` returns.
pub record KeepsAbsolute (node : Node) : Type 0 where
  pub home : node.is_absolute node.homedir ≡ true
  pub joined :
      (s t : String) → node.is_absolute s ≡ true → node.is_absolute (node.join_path s t) ≡ true
  pub real : (s r : String) → node.realpath s ≡ some r → node.is_absolute r ≡ true

-- No path from the root, nor from the caller's own home directory.
pub record IsRelative (node : Node) (input : String) : Type 0 where
  pub no_home : input ≢ "~"
  pub not_below_home : after_home input ≡ none
  pub no_root : (starts_with_tilde (codes input) ≡ true) ⊎ (node.is_absolute input ≡ false)

-- What the caller may rely on, for each of the three outcomes.
pub data Outcome (node : Node) (input : String) : Upload → Type 0 where
  refused_nul : has_nul (codes input) ≡ true → Outcome node input (not_readable input)
  refused_relative :
      has_nul (codes input) ≡ false
      → IsRelative node input
      → Outcome node input (not_absolute input)
  accepted :
      (r : ResolvedPath)
      → has_nul (codes input) ≡ false
      → node.is_absolute r.absolute ≡ true
      → ((r.warnings ≡ []) ↔ (expand node input ≡ some r.absolute))
      → Outcome node input (resolved r)

expand-IsRelative :
    (node : Node) (input : String) → expand node input ≡ none → IsRelative node input
unfolding expand
expand-IsRelative node input e = elim (Bool-cases (input == "~")) [
  | inl home ↦ absurd (ground arith)
  | inr other ↦ elim (Option-cases (after_home input)) [
    | inr below ↦ absurd (ground (arith, below.1))
    | inl not_below ↦ record {
      no_home = λ p. absurd (ground (arith, (eq_iff input "~").1 p));
      not_below_home = not_below;
      no_root = elim (Bool-cases (starts_with_tilde (codes input))) [
        | inl t ↦ inl t
        | inr f ↦ elim (Bool-cases (node.is_absolute input)) [
          | inl t ↦ absurd (ground arith)
          | inr f' ↦ inr f'
        ]
      ];
    }
  ]
]

expand-absolute :
    (node : Node) (input expanded : String)
    → KeepsAbsolute node
    → expand node input ≡ some expanded
    → node.is_absolute expanded ≡ true
unfolding expand
expand-absolute node input expanded keeps e = elim (Bool-cases (input == "~")) [
  | inl home ↦ ground (arith, keeps.home)
  | inr other ↦ elim (Option-cases (after_home input)) [
    | inr below ↦ ground (arith, below.1, keeps.joined node.homedir below.0 keeps.home)
    | inl not_below ↦ ground arith
  ]
]

follow-accepted :
    (node : Node) (input expanded : String)
    → KeepsAbsolute node
    → has_nul (codes input) ≡ false
    → expand node input ≡ some expanded
    → node.is_absolute expanded ≡ true
    → Outcome node input (resolved (follow node expanded))
unfolding follow
follow-accepted node input expanded keeps clean e root =
    elim (Option-cases (node.realpath expanded)) [
      | inl missing ↦ rw (missing, follow) (accepted _ clean root (λ p. e, λ p. refl))
      | inr found ↦
          rw (found.1, follow)
            (elim (Bool-cases (found.0 == expanded)) [
              | inl same ↦ rw same (accepted _ clean root (λ p. e, λ p. refl))
              | inr link ↦ rw link (
                  accepted _ clean (keeps.real expanded found.0 found.1) (
                    λ p. absurd (cc),
                    λ p.
                        absurd
                          (ground (arith, eq_iff found.0 expanded, some-injective _ _ (sym e ∙ p))),
                  ))
            ])
    ]

-- If node's functions keep paths absolute, a path that `resolveUploadPath` returns is absolute and
-- its input has no NUL byte, and there is a warning exactly where the path is not the expanded
-- input; an input with a NUL byte is refused as unreadable, and any other that is refused is
-- neither `~`, nor below `~/`, nor an absolute path that does not start with `~`.
pub resolve_upload_path-Outcome :
    (node : Node) (input : String)
    → KeepsAbsolute node
    → Outcome node input (resolve_upload_path node input)
unfolding resolve_upload_path
resolve_upload_path-Outcome node input keeps = elim (Bool-cases (has_nul (codes input))) [
  | inl nul ↦ rw nul (refused_nul nul)
  | inr clean ↦ rw clean (elim (Option-cases (expand node input)) [
    | inl refused ↦ rw refused (refused_relative clean (expand-IsRelative node input refused))
    | inr path ↦ rw path.1 (
        follow-accepted node input path.0 keeps clean path.1
          (expand-absolute node input path.0 keeps path.1))
  ])
]
