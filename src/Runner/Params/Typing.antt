-- ===== src/Runner/Params/Typing.antt =====
-- What the check of a parameter's value by its schema's type accepts.
use home_pc_agent.Common.{
  ℕ, less, contains, ◌⊎◌, ok, err, Bool, true, false, Option, none, some, Text, codes, ◌==◌, Result,
  ℤ, is_empty, ◌≡◌, refl, sym, subst, ◌∙◌, ==_iff, arith, Bool-cases, inl, inr, if◌then◌else◌,
}
use home_pc_agent.Runner.Settings.{Param, boolean_param, text_param, ParameterSchema}
use home_pc_agent.Runner.Invocation.{normalize_switch_state}
use home_pc_agent.Runner.Params.{
  Floats, name_matches, as_int64, as_float64, float_below, float_above, check_number, check_enum,
  check_match, check_string, check_boolean, or_not_boolean, below_min, above_max, bad, check_bounds,
  check_integer, check_type, validate_parameter_value,
}

check_bounds-none :
    (name : Text) (below above : Bool)
    → check_bounds name below above ≡ none
    → (below ≡ false) × (above ≡ false)
check_bounds-none name true above h = absurd (ground (arith, h))
check_bounds-none name false true h = absurd (ground (arith, h))
check_bounds-none name false false h = (refl, refl)

abbrev pub AtLeast : ℤ → Option ℤ → Type 0
AtLeast n least = (m : ℤ) → least ≡ some m → less n m ≡ false

abbrev pub AtMost : ℤ → Option ℤ → Type 0
AtMost n most = (m : ℤ) → most ≡ some m → less m n ≡ false

below_min-AtLeast : (n : ℤ) (least : Option ℤ) → below_min n least ≡ false → AtLeast n least
below_min-AtLeast n none h m e = absurd (cc e)
below_min-AtLeast n (some least) h m e =
    let q : least ≡ m = cc e in subst (λ t. less n t ≡ false) q h

above_max-AtMost : (n : ℤ) (most : Option ℤ) → above_max n most ≡ false → AtMost n most
above_max-AtMost n none h m e = absurd (cc e)
above_max-AtMost n (some most) h m e = let q : most ≡ m = cc e in subst (λ t. less t n ≡ false) q h

-- an integer of the schema's range
abbrev pub InRange : ParameterSchema → Option ℤ → Type 0
InRange schema found = (n : ℤ) × (found ≡ some n) × AtLeast n schema.min × AtMost n schema.max

check_integer-InRange :
    (name : Text) (schema : ParameterSchema) (found : Option ℤ)
    → check_integer name schema found ≡ none
    → InRange schema found
check_integer-InRange name schema none h = absurd (ground (arith, h))
check_integer-InRange name schema (some n) h =
    let (low, high) = check_bounds-none name (below_min n schema.min) (above_max n schema.max) h in
    (n, refl, below_min-AtLeast n schema.min low, above_max-AtMost n schema.max high)

-- a float of the schema's range
abbrev pub IsFloatInRange : Floats → ParameterSchema → Option Text → Type 0
IsFloatInRange f schema found =
    (x : Text) × (found ≡ some x)
    × ((m : ℤ) → schema.min ≡ some m → f.float_less x (f.of_int m) ≡ false)
    × ((m : ℤ) → schema.max ≡ some m → f.float_less (f.of_int m) x ≡ false)

float_low :
    (f : Floats) (x : Text) (least : Option ℤ)
    → float_below f x least ≡ false
    → (m : ℤ) → least ≡ some m
    → f.float_less x (f.of_int m) ≡ false
float_low f x none h m e = absurd (cc e)
float_low f x (some least) h m e =
    let q : least ≡ m = cc e in subst (λ t. f.float_less x (f.of_int t) ≡ false) q h

float_high :
    (f : Floats) (x : Text) (most : Option ℤ)
    → float_above f x most ≡ false
    → (m : ℤ) → most ≡ some m
    → f.float_less (f.of_int m) x ≡ false
float_high f x none h m e = absurd (cc e)
float_high f x (some most) h m e =
    let q : most ≡ m = cc e in subst (λ t. f.float_less (f.of_int t) x ≡ false) q h

check_number-IsFloatInRange :
    (f : Floats) (name : Text) (schema : ParameterSchema) (found : Option Text)
    → check_number f name schema found ≡ none
    → IsFloatInRange f schema found
check_number-IsFloatInRange f name schema none h = absurd (ground (arith, h))
check_number-IsFloatInRange f name schema (some x) h =
    let (low, high) =
      check_bounds-none name (float_below f x schema.min) (float_above f x schema.max) h in
    (x, refl, float_low f x schema.min low, float_high f x schema.max high)

check_enum-none :
    (name : Text) (schema : ParameterSchema) (t : Text)
    → check_enum name schema t ≡ none
    → is_empty schema.enum ≡ false
    → contains schema.enum t ≡ true
check_enum-none name schema t h e = elim (Bool-cases (contains schema.enum t)) [
  | inl c ↦ c
  | inr c ↦ absurd (let q : bad name (codes "value is not in enum") ≡ none = rw (e, c) at h in cc q)
]

check_match-none :
    (name : Text) (schema : ParameterSchema) (t : Text) (r : Result Bool)
    → check_match name schema t r ≡ none
    → (r ≡ ok true) × (check_enum name schema t ≡ none)
check_match-none name schema t (err e) h = absurd (cc h)
check_match-none name schema t (ok false) h = absurd (cc h)
check_match-none name schema t (ok true) h = (refl, h)

module _ (floats : Floats) (matches : Text → Text → Result Bool)
    (lower_other upper_other : ℕ → ℕ) where
  pub typed_none :
      (name : Text) (schema : ParameterSchema) (value : Param)
      → validate_parameter_value floats matches lower_other upper_other name schema value ≡ none
      → check_type floats matches lower_other upper_other schema.param_type name schema value ≡ none
  unfolding validate_parameter_value
  typed_none name schema value h = elim (Bool-cases (name_matches name)) [
    | inl m ↦ rw (m) at h
    | inr m ↦
        absurd (let f : bad name (codes "parameter name is invalid") ≡ none = rw (m) at h in cc f)
  ]

  -- a string that the pattern matches, if there is one, and that the enumeration lists, if there is
  -- one
  abbrev pub IsString : ParameterSchema → Param → Type 0
  IsString schema value =
      (t : Text) × (value ≡ text_param t)
      × (is_empty schema.pattern ≡ false → matches schema.pattern t ≡ ok true)
      × (is_empty schema.enum ≡ false → contains schema.enum t ≡ true)

  -- a boolean, or a word for one
  abbrev pub IsBoolean : Param → Type 0
  IsBoolean value =
      ((b : Bool) × (value ≡ boolean_param b))
      ⊎ ((t : Text) × (b : Bool) × (value ≡ text_param t)
          × (normalize_switch_state lower_other upper_other (text_param t) ≡ ok b))

  -- a value of the schema's type and within its restrictions
  abbrev pub IsTyped : ParameterSchema → Param → Type 0
  IsTyped schema value =
      ((schema.param_type ≡ codes "string") × IsString schema value)
      ⊎ ((schema.param_type ≡ codes "boolean") × IsBoolean value)
      ⊎ ((schema.param_type ≡ codes "integer") × InRange schema (as_int64 floats value))
      ⊎ ((schema.param_type ≡ codes "number")
          × IsFloatInRange floats schema (as_float64 floats value))

  unmatched-IsString :
      (name : Text) (schema : ParameterSchema) (t : Text) (unrestricted : Bool)
      → is_empty schema.pattern ≡ unrestricted
      → (if unrestricted
          then check_enum name schema t
          else check_match name schema t (matches schema.pattern t))
        ≡ none
      → IsString schema (text_param t)
  unmatched-IsString name schema t true p h =
      (t, refl, (λ q. absurd (cc (sym p ∙ q))), check_enum-none name schema t h)
  unmatched-IsString name schema t false p h =
      let (m, e) = check_match-none name schema t (matches schema.pattern t) h in
      (t, refl, (λ q. m), check_enum-none name schema t e)

  check_string-IsString :
      (name : Text) (schema : ParameterSchema) (value : Param)
      → check_string floats matches lower_other upper_other name schema value ≡ none
      → IsString schema value
  check_string-IsString name schema (text_param t) h =
      unmatched-IsString name schema t (is_empty schema.pattern) refl h
  check_string-IsString name schema _ h = absurd (cc h)

  word-IsBoolean :
      (name t : Text) (r : Result Bool)
      → normalize_switch_state lower_other upper_other (text_param t) ≡ r
      → or_not_boolean name r ≡ none
      → IsBoolean (text_param t)
  word-IsBoolean name t (ok b) e h = inr (t, b, refl, e)
  word-IsBoolean name t (err x) e h = absurd (cc h)

  check_boolean-IsBoolean :
      (name : Text) (value : Param)
      → check_boolean floats matches lower_other upper_other name value ≡ none
      → IsBoolean value
  check_boolean-IsBoolean name (boolean_param b) h = inl (b, refl)
  check_boolean-IsBoolean name (text_param t) h =
      word-IsBoolean name t (normalize_switch_state lower_other upper_other (text_param t)) refl h
  check_boolean-IsBoolean name _ h = absurd (cc h)

  pub checked :
      (param_type name : Text) (schema : ParameterSchema) (value : Param)
      → check_type floats matches lower_other upper_other param_type name schema value ≡ none
      → ((param_type ≡ codes "string") × IsString schema value)
        ⊎ ((param_type ≡ codes "boolean") × IsBoolean value)
        ⊎ ((param_type ≡ codes "integer") × InRange schema (as_int64 floats value))
        ⊎ ((param_type ≡ codes "number") × IsFloatInRange floats schema (as_float64 floats value))
  unfolding check_type
  checked p name schema value h = elim (Bool-cases (p == codes "string")) [
    | inl s ↦
        inl ((==_iff p (codes "string")).0 s, check_string-IsString name schema value (rw (s) at h))
    | inr s ↦ elim (Bool-cases (p == codes "boolean")) [
      | inl b ↦ inr (
          inl
            ((==_iff p (codes "boolean")).0 b, check_boolean-IsBoolean name value (rw (s, b) at h)))
      | inr b ↦ elim (Bool-cases (p == codes "integer")) [
        | inl i ↦ inr (
            inr (
              inl (
                (==_iff p (codes "integer")).0 i,
                check_integer-InRange name schema (as_int64 floats value) (rw (s, b, i) at h),
              )))
        | inr i ↦ elim (Bool-cases (p == codes "number")) [
          | inl n ↦ inr (
              inr (
                inr (
                  (==_iff p (codes "number")).0 n,
                  check_number-IsFloatInRange floats name schema (as_float64 floats value)
                      (rw (s, b, i, n) at h),
                )))
          | inr n ↦ absurd (
              let q : bad name (codes "unsupported schema type") ≡ none = rw (s, b, i, n) at h in
              cc q)
        ]
      ]
    ]
  ]
