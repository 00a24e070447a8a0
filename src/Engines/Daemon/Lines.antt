-- ===== src/Engines/Daemon/Lines.antt =====
-- The lines of what the daemon writes, and the chunks they come in (src/engines/daemon.ts).
use Prim.Native.Char.{code, Char}
use Prim.Native.String.{[] as empty, ◌∷◌ as ◌∷ₛ◌}
use mathlib.Core.List.{append_assoc as list_assoc}
use safari_pilot.Prelude.{refl}
use safari_pilot.Text.{join, char_count}
use text.Mathlib.TextLemmas.{nil-append, cons-append, append_assoc}
use safari_pilot.Prelude.{
  List, Option, String, ◌++◌, ◌≡◌, ℕ, [], ◌∷◌, some, ◌<◌, if◌then◌else◌, Bool-cases, ◌==◌, arith,
  nat_eq, suc, none, inl, zero, inr, false, subst, ap, string_eq, ◌+◌, sym, ◌∙◌,
}
use safari_pilot.Engines.Daemon.{
  split_newline, take_lines, onto_line, onto_lines, Settled, settle, Js, on_data, on_line,
  dispatch_response, on_lines, Response, Daemon, on_chunk, bytes,
}
use safari_pilot.Prelude.Dict.{get}

abbrev onto_first : Char → List String × String → List String × String
onto_first c ([], rest) = ([], c ∷ₛ rest)
onto_first c (line ∷ lines, rest) = ((c ∷ₛ line) ∷ lines, rest)

-- The complete lines of a text, and what follows the last newline.
unfoldable pub split_lines : String → List String × String
split_lines empty = ([], empty)
split_lines (c ∷ₛ s) =
    let rest = split_lines s in if code c == 10 then onto_lines empty rest else onto_first c rest

abbrev through : Option (String × String) → String → List String × String
through none s = ([], s)
through (some (line, rest)) s = onto_lines line (split_lines rest)

split_lines-through : (s : String) → split_lines s ≡ through (split_newline s) s
unfolding split_lines split_newline
split_lines-through empty = refl
split_lines-through (c ∷ₛ s) = elim (Bool-cases (code c == 10)) [
  | inl newline ↦ rw newline refl
  | inr other ↦ rw (other, split_lines-through s) (go (split_newline s))
]
  where
    go :
        (o : Option (String × String))
        → onto_first c (through o s) ≡ through (onto_line c o) (c ∷ₛ s)
    go none = refl
    go (some (line, rest)) = refl

rest_shorter :
    (s line rest : String) → split_newline s ≡ some (line, rest) → char_count rest < char_count s
unfolding split_newline
rest_shorter empty line rest h = absurd (ground arith)
rest_shorter (c ∷ₛ s) line rest h = elim (Bool-cases (code c == 10)) [
  | inl newline ↦ ground (arith, h, newline)
  | inr other ↦ go (split_newline s) (rest_shorter s) (
      subst
        (λ b. (if b then some (empty, s) else onto_line c (split_newline s)) ≡ some (line, rest))
        other h)
]
  where
    go :
        (o : Option (String × String))
        → ((l r : String) → o ≡ some (l, r) → char_count r < char_count s)
        → onto_line c o ≡ some (line, rest)
        → char_count rest < suc (char_count s)
    go none k e = absurd (ground arith)
    go (some (l, r)) k e =
        let same : r ≡ rest = ground (arith, e) in
        subst (λ x. char_count x < suc (char_count s)) same (omega (arith, k l r refl))

-- The loop takes exactly the complete lines off the buffer, and leaves what follows the last
-- newline, when the fuel is more than the length of the buffer.
pub take_lines-split_lines :
    (n : ℕ) (s : String) → char_count s < n → take_lines n s ≡ split_lines s
unfolding take_lines
take_lines-split_lines zero s h = absurd (omega arith)
take_lines-split_lines (suc n) s h = rw (split_lines-through s) (
    go (split_newline s)
      (λ line rest e. take_lines-split_lines n rest (omega (arith, h, rest_shorter s line rest e))))
  where
    go :
        (o : Option (String × String))
        → ((line rest : String) → o ≡ some (line, rest) → take_lines n rest ≡ split_lines rest)
        → (elim o [ none ↦ ([], s) | some (line, rest) ↦ onto_lines line (take_lines n rest) ])
          ≡ through o s
    go none k = refl
    go (some (line, rest)) k = rw (k line rest refl) refl

abbrev then_lines : List String × String → List String × String → List String × String
then_lines (lines, rest) (more, last) = (lines ++ more, last)

split_lines-append :
    (s t : String)
    → split_lines (join s t) ≡ then_lines (split_lines s) (split_lines (join (split_lines s).1 t))
unfolding split_lines
split_lines-append empty t = rw (nil-append t) refl
split_lines-append (c ∷ₛ s) t = rw (cons-append c s t) (elim (Bool-cases (code c == 10)) [
  | inl newline ↦ rw newline (ap (onto_lines empty) (split_lines-append s t))
  | inr other ↦ rw (other, split_lines-append s t) (go (split_lines s).0 (split_lines s).1 other)
])
  where
    go :
        (lines : List String) (rest : String)
        → (code c == 10) ≡ false
        → onto_first c (then_lines (lines, rest) (split_lines (join rest t)))
          ≡ then_lines
              (onto_first c (lines, rest))
              (split_lines (join (onto_first c (lines, rest)).1 t))
    go [] rest other = rw (cons-append c rest t, other) refl
    go (l ∷ lines) rest other = refl

-- The requests do not depend on the buffer of lines.
abbrev buffered : String → List Settled × Daemon → List Settled × Daemon
buffered buffer (settled, d) = (settled, record d { line_buffer = buffer })

settle-buffered :
    (id : String) (ticket : Option ℕ) (msg : Response) (d : Daemon) (b : String)
    → settle id ticket msg (record d { line_buffer = b }) ≡ buffered b (settle id ticket msg d)
unfolding settle
settle-buffered id none msg d b = refl
settle-buffered id (some ticket) msg d b = refl

dispatch_response-buffered :
    (msg : Response) (d : Daemon) (b : String)
    → dispatch_response msg (record d { line_buffer = b }) ≡ buffered b (dispatch_response msg d)
unfolding dispatch_response
dispatch_response-buffered msg d b = go msg.id
  where
    go :
        (id : Option String)
        → (elim id [
          | none ↦ ([], record d { line_buffer = b })
          | some i ↦
              if i == ""
              then ([], record d { line_buffer = b })
              else settle i (get i d.pending) msg (record d { line_buffer = b })
        ])
          ≡ buffered b (elim id [
            | none ↦ ([], d)
            | some i ↦ if i == "" then ([], d) else settle i (get i d.pending) msg d
          ])
    go none = refl
    go (some i) = elim (Bool-cases (i == "")) [
      | inl e ↦ rw e refl
      | inr e ↦ rw e (settle-buffered i (get i d.pending) msg d b)
    ]

on_line-buffered :
    (js : Js) (line : String) (d : Daemon) (b : String)
    → on_line js line (record d { line_buffer = b }) ≡ buffered b (on_line js line d)
unfolding on_line
on_line-buffered js line d b = elim (Bool-cases (js.trim line == "")) [
  | inl e ↦ rw e refl
  | inr e ↦ rw e (go (js.parse_json (js.trim line)))
]
  where
    go :
        (o : Option Response)
        → (elim o [
          | none ↦ ([], record d { line_buffer = b })
          | some msg ↦ dispatch_response msg (record d { line_buffer = b })
        ])
          ≡ buffered b (elim o [ none ↦ ([], d) | some msg ↦ dispatch_response msg d ])
    go none = refl
    go (some msg) = dispatch_response-buffered msg d b

on_lines-buffered :
    (js : Js) (lines : List String) (d : Daemon) (b : String)
    → on_lines js lines (record d { line_buffer = b }) ≡ buffered b (on_lines js lines d)
unfolding on_lines
on_lines-buffered js [] d b = refl
on_lines-buffered js (line ∷ lines) d b =
    rw (on_line-buffered js line d b, on_lines-buffered js lines (on_line js line d).1 b) refl

abbrev pub then_daemon :
    List Settled × Daemon → (Daemon → List Settled × Daemon) → List Settled × Daemon
then_daemon (settled, d) f = (settled ++ (f d).0, (f d).1)

on_lines-append :
    (js : Js) (lines more : List String) (d : Daemon)
    → on_lines js (lines ++ more) d ≡ then_daemon (on_lines js lines d) (on_lines js more)
unfolding on_lines
on_lines-append js [] more d = refl
on_lines-append js (line ∷ lines) more d =
    let (settled, next) = on_line js line d in
    rw (on_lines-append js lines more next) (
      ap (λ s. (s, (on_lines js more (on_lines js lines next).1).1))
        (sym (
          list_assoc settled (on_lines js lines next).0
            (on_lines js more (on_lines js lines next).1).0)))

on_data-split_lines :
    (js : Js) (chunk : String) (d : Daemon)
    → on_data js chunk d
      ≡ on_lines js
          (split_lines (join d.line_buffer chunk)).0
          (record d { line_buffer = (split_lines (join d.line_buffer chunk)).1 })
unfolding on_data
on_data-split_lines js chunk d =
    let buffer = join d.line_buffer chunk in
    rw (take_lines-split_lines (char_count buffer + 1) buffer (omega arith)) refl

on_data-append :
    (js : Js) (first second : String) (d : Daemon)
    → on_data js (join first second) d ≡ then_daemon (on_data js first d) (on_data js second)
on_data-append js first second d =
    let (lines, rest) = split_lines (join d.line_buffer first) in
    let (more, last) = split_lines (join rest second) in
    let (settled, after) = on_lines js lines d in
    on_data-split_lines js (join first second) d
    ∙ ap (λ p. on_lines js p.0 (record d { line_buffer = p.1 }))
        (ap split_lines (sym (append_assoc d.line_buffer first second))
          ∙ split_lines-append (join d.line_buffer first) second)
    ∙ on_lines-append js lines more (record d { line_buffer = last })
    ∙ ap (λ p. then_daemon p (on_lines js more)) (on_lines-buffered js lines d last)
    ∙ sym (
        ap (λ p. then_daemon p (on_data js second))
          (on_data-split_lines js first d ∙ on_lines-buffered js lines d rest)
        ∙ ap (λ p. (settled ++ p.0, p.1))
            (on_data-split_lines js second (record after { line_buffer = rest })))

-- Two buffers one after the other settle the same requests, in the same order, and leave the same
-- state as one buffer that holds the bytes of both, provided the bytes are cut where decoding does
-- not notice: the bytes of both decode to the two texts, one after the other, as they do between
-- two characters.
pub on_chunk-append :
    (decode : List ℕ → String) (js : Js) (first second : List ℕ) (d : Daemon)
    → decode (first ++ second) ≡ join (decode first) (decode second)
    → on_chunk decode js (bytes (first ++ second)) d
      ≡ then_daemon (on_chunk decode js (bytes first) d) (on_chunk decode js (bytes second))
unfolding on_chunk
on_chunk-append decode js first second d cut =
    ap (λ s. on_data js s d) cut ∙ on_data-append js (decode first) (decode second) d
