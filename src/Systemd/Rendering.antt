-- ===== src/Systemd/Rendering.antt =====
-- Which units render, and that the values in them stay on their lines.
use home_pc_agent.Common.{
  ℕ, ◌+◌, true, false, Option, none, some, List, [], ◌∷◌, Text, codes, every, is_empty, ◌≡◌, ◌↔◌,
  refl, arith, All, map, inl, inr, ◌∙◌, ap, ap₂, Option-cases, sym, Err, Result, ok, err, ◌>>=◌,
}
use home_pc_agent.Systemd.{
  SystemdUnit, not_control, escape_chars, escape_systemd_value, escape_unit_value,
  validate_unit_field, value_field, escape_arguments, argument_result, join_words, render, template,
  described, with_arguments,
}
use home_pc_agent.Systemd.Quoting.{words, between, words-join_words}

-- a value that ValidateUnitField accepts: not empty, and without control characters
abbrev pub IsField : Text → Type 0
IsField v = (is_empty v ≡ false) × (every not_control v ≡ true)

field_ok : (name v : Text) → IsField v → validate_unit_field name v ≡ none
unfolding validate_unit_field
field_ok name v h = ground (arith, h)

escape_chars-control :
    (s rest : Text)
    → every not_control s ≡ true
    → every not_control rest ≡ true
    → every not_control (escape_chars s rest) ≡ true
unfolding every escape_chars
escape_chars-control [] rest h k = k
escape_chars-control (c ∷ s) rest h k = ground (arith, escape_chars-control s rest)

quote_control : every not_control (b'"' ∷ []) ≡ true
unfolding every
quote_control = refl

empty_control : every not_control [] ≡ true
unfolding every
empty_control = refl

-- A value that is accepted is written without control characters, so on one line: it cannot add a
-- directive to the unit.
pub escape_systemd_value-control :
    (v : Text) → IsField v → every not_control (escape_systemd_value v) ≡ true
unfolding escape_systemd_value every
escape_systemd_value-control v h = ground (
  arith,
  h,
  escape_chars-control v [],
  escape_chars-control v (b'"' ∷ []),
  quote_control,
  empty_control,
)

arguments_ok :
    (i : ℕ) (args : List Text)
    → All IsField args
    → escape_arguments i args ≡ ok (map escape_systemd_value args)
unfolding escape_arguments escape_unit_value
arguments_ok i [] h = refl
arguments_ok i (a ∷ args) h = rw (field_ok value_field a h.0, arguments_ok (i + 1) args h.1) refl

IsField-accepted : (name v : Text) → validate_unit_field name v ≡ none → IsField v
unfolding validate_unit_field
IsField-accepted name v h = ground arith

value_accepted :
    (v w : Text) → escape_unit_value v ≡ ok w → IsField v × (w ≡ escape_systemd_value v)
unfolding escape_unit_value
value_accepted v w h = elim (Option-cases (validate_unit_field value_field v)) [
  | inl p ↦ (IsField-accepted value_field v p, ground (arith, h, p))
  | inr (e, p) ↦ absurd (ground (arith, h, p))
]

abbrev Accepted : List Text → Result (List Text) → Type 0
Accepted args (ok ws) = All IsField args × (ws ≡ map escape_systemd_value args)
Accepted args (err e) = Unit

one-Accepted :
    (i : ℕ) (a : Text) (args : List Text) (r : Result Text) (rs : Result (List Text))
    → ((w : Text) → r ≡ ok w → IsField a × (w ≡ escape_systemd_value a))
    → Accepted args rs
    → Accepted (a ∷ args) (argument_result i r >>= λ v. rs >>= λ vs. ok (v ∷ vs))
one-Accepted i a args (err e) rs h k = tt
one-Accepted i a args (ok w) (err e) h k = tt
one-Accepted i a args (ok w) (ok ws) h k =
    (((h w refl).0, k.0), ap₂ (λ x xs. x ∷ xs) (h w refl).1 k.1)

arguments-Accepted : (i : ℕ) (args : List Text) → Accepted args (escape_arguments i args)
unfolding escape_arguments
arguments-Accepted i [] = (tt, refl)
arguments-Accepted i (a ∷ args) =
    one-Accepted i a args (escape_unit_value a) (escape_arguments (i + 1) args) (value_accepted a)
      (arguments-Accepted (i + 1) args)

-- the text of a unit
abbrev pub rendered : SystemdUnit → Text
rendered u =
    template (escape_systemd_value u.description)
      (join_words (map escape_systemd_value u.exec_start))

abbrev pub IsRenderable : SystemdUnit → Type 0
IsRenderable u = IsField u.description × (is_empty u.exec_start ≡ false) × All IsField u.exec_start

with_arguments_ok :
    (args : List Text) (r : Result Text) → is_empty args ≡ false → with_arguments args r ≡ r
with_arguments_ok [] r h = absurd (ground arith)
with_arguments_ok (_ ∷ _) r h = refl

-- A unit whose description and arguments are non-empty and free of control characters, with at
-- least one argument, renders.
render_ok : (u : SystemdUnit) → IsRenderable u → render u ≡ ok (rendered u)
unfolding render
render_ok u h =
    rw (field_ok (codes "Description") u.description h.0, arguments_ok 0 u.exec_start h.2)
      (with_arguments_ok u.exec_start (ok (rendered u)) h.1)

with_arguments_err :
    (args : List Text) (e : Err) (t : Text) → with_arguments args (err e) ≡ ok t → ⊥
with_arguments_err [] e t h = ground arith
with_arguments_err (_ ∷ _) e t h = ground arith

with_arguments_some :
    (args : List Text) (s t : Text)
    → with_arguments args (ok s) ≡ ok t
    → (is_empty args ≡ false) × (t ≡ s)
with_arguments_some [] s t h = absurd (ground arith)
with_arguments_some (_ ∷ _) s t h = (refl, ground arith)

render-Accepted :
    (u : SystemdUnit) (rs : Result (List Text)) (v : Option Err) (t : Text)
    → v ≡ validate_unit_field (codes "Description") u.description
    → Accepted u.exec_start rs
    → described v (
        with_arguments u.exec_start
          (rs >>= λ ws. ok (template (escape_systemd_value u.description) (join_words ws))))
      ≡ ok t
    → IsRenderable u × (t ≡ rendered u)
render-Accepted u rs (some e) t p a h = absurd (ground arith)
render-Accepted u (err e) none t p a h = absurd (with_arguments_err u.exec_start e t h)
render-Accepted u (ok ws) none t p a h =
    let w = with_arguments_some u.exec_start _ t h in
    (
      (IsField-accepted (codes "Description") u.description (sym p), w.0, a.0),
      w.1 ∙ ap (λ xs. template (escape_systemd_value u.description) (join_words xs)) a.1,
    )

render_ok_only : (u : SystemdUnit) (t : Text) → render u ≡ ok t → IsRenderable u × (t ≡ rendered u)
unfolding render
render_ok_only u t h =
    render-Accepted u (escape_arguments 0 u.exec_start)
      (validate_unit_field (codes "Description") u.description) t refl
      (arguments-Accepted 0 u.exec_start) h

not_empty : (args : List Text) → All IsField args → All (λ arg. is_empty arg ≡ false) args
not_empty [] h = tt
not_empty (a ∷ args) h = (h.0.0, not_empty args h.1)

-- A unit renders to a text exactly when its description and its arguments, of which there is at least one,
-- are non-empty and free of control characters and the text is the template filled with the quoted
-- values.
pub render_iff :
    (u : SystemdUnit) (t : Text) → (render u ≡ ok t) ↔ (IsRenderable u × (t ≡ rendered u))
render_iff u t = (render_ok_only u t, λ (h, e). render_ok u h ∙ ap ok (sym e))

-- In a rendered unit the line after ExecStart= is read back by `words` as the unit's arguments.
pub render-words :
    (u : SystemdUnit) (t : Text)
    → render u ≡ ok t
    → (line : Text) × (t ≡ template (escape_systemd_value u.description) line)
      × (words between line ≡ u.exec_start)
render-words u t h =
    let r = render_ok_only u t h in
    (
      join_words (map escape_systemd_value u.exec_start),
      r.1,
      words-join_words u.exec_start (not_empty u.exec_start r.0.2),
    )
