-- ===== src/Query/Term/Valid.antt =====
-- What parseTerm promises of the leaves that it returns.
use archer.Prelude.{
  ℕ, ◌+◌, ◌||◌, drop, take, trim_space, ◌≡◌, ◌≢◌, ◌⊎◌, inl, inr, refl, ap, text_eq_sound,
  text_eq_ne, Bool, true, false, Option, some, none, List, [], ◌∷◌, Text, codes, text_eq,
  text_eq_refl, any, to_lower, equal_fold, arith, if_intro, Bool-cases, has_prefix, has_suffix, not,
  ◌&&◌, lookup_text,
}
use archer.Query.Token.{Result, Returns, bind-Returns}
use archer.Query.Term.{
  Op, plain, range, Term, new_term, is_quoted, inner, split_range, split_range_at, split_field,
  validate_field_value, comparison, comparison_term, operand, comparisons, find_comparison,
  parse_plain, parse_value, or_plain, range_term, resolve_field, parse_term, canonical,
}
use archer.Query.Term.Vocabulary.{field_alias, known_fields, directions, is_known_finding_type}

abbrev pub IsComparison : Op → Type 0
IsComparison plain = ⊥
IsComparison range = ⊥
IsComparison _ = Unit

-- The field is empty (a bare term) or a canonical field; a range has two bounds; a comparison has
-- an operand; a plain value of `type` and `dir` is in its vocabulary, and a plain value that is no
-- phrase is there where a field is.
pub record IsValid (t : Term) : Type 0 where
  pub field_known : (t.field ≡ []) ⊎ (any (text_eq t.field) known_fields ≡ true)
  pub bounds : t.op ≡ range → (t.lo ≢ []) × (t.hi ≢ [])
  pub operand : IsComparison t.op → t.value ≢ []
  pub type_known :
      t.op ≡ plain
      → t.field ≡ codes "type"
      → (equal_fold t.value (codes "beacons") ≡ true) ⊎ (is_known_finding_type t.value ≡ true)
  pub direction_known :
      t.op ≡ plain
      → t.field ≡ codes "dir"
      → any (λ d. text_eq (to_lower t.value) d) directions ≡ true
  pub named : t.op ≡ plain → t.phrase ≡ false → t.field ≢ [] → t.value ≢ []

abbrev Vocabulary : Text → Text → Type 0
Vocabulary field value =
    (field ≡ codes "type"
      → (equal_fold value (codes "beacons") ≡ true) ⊎ (is_known_finding_type value ≡ true))
    × (field ≡ codes "dir" → any (λ d. text_eq (to_lower value) d) directions ≡ true)

validate-Vocabulary :
    (field value : Text) → Returns (λ _. Vocabulary field value) (validate_field_value field value)
unfolding validate_field_value
validate-Vocabulary field value =
    if_intro P (text_eq field (codes "type"))
      (λ t.
        let is_type = text_eq_sound field _ t in
        if_intro P (equal_fold value (codes "beacons")) (λ b. (λ _. inl b, λ d. apart is_type d))
          λ _.
            if_intro P (is_known_finding_type value) (λ k. (λ _. inr k, λ d. apart is_type d))
              λ _. tt)
      λ t.
        if_intro P (text_eq field (codes "dir"))
          (λ d.
            if_intro P (any (λ x. text_eq (to_lower value) x) directions)
              (λ k. (λ e. absurd (text_eq_ne field _ t e), λ _. k)) λ _. tt)
          λ d. (λ e. absurd (text_eq_ne field _ t e), λ e. absurd (text_eq_ne field _ d e))
  where
    P : Result (Unit {0}) → Type 0
    P = Returns (λ _. Vocabulary field value)

    apart : {A : Type 0} → field ≡ codes "type" → field ≡ codes "dir" → A
    apart p q = cc

-- The field of a leaf: empty, or in the table of the known fields.
abbrev IsField : Text → Type 0
IsField f = (f ≡ []) ⊎ (any (text_eq f) known_fields ≡ true)

resolve_field-IsField : (name : Text) → Returns IsField (resolve_field name)
unfolding resolve_field
resolve_field-IsField name =
    if_intro (Returns IsField) (text_eq name []) (λ _. inl refl)
      λ _.
        if_intro (Returns IsField)
          (any (text_eq (canonical name (lookup_text name field_alias))) known_fields) (λ k. inr k)
          λ _. tt

module _ (field : Text) (known : IsField field) where
  comparison_term-IsValid :
      (op : Op) (v : Text) → IsComparison op → v ≢ [] → IsValid (comparison_term field op v)
  comparison_term-IsValid op v c n = record {
    field_known = known;
    bounds = λ e. no_range op c e;
    operand = λ _. n;
    type_known = λ e. no_plain op c e;
    direction_known = λ e. no_plain op c e;
    named = λ e. no_plain op c e;
  }
    where
      no_range : {A : Type 0} (op : Op) → IsComparison op → op ≡ range → A
      no_range plain c e = absurd c
      no_range range c e = absurd c
      no_range _ c e = cc

      no_plain : {A : Type 0} (op : Op) → IsComparison op → op ≡ plain → A
      no_plain plain c e = absurd c
      no_plain range c e = absurd c
      no_plain _ c e = cc

  comparison-IsValid :
      (op : Op) (spelled rest : Text)
      → IsComparison op
      → Returns IsValid (comparison field op spelled rest)
  unfolding comparison
  comparison-IsValid op spelled rest c = elim (Bool-cases (text_eq (operand spelled rest) [])) [
    | inl e ↦ rw e tt
    | inr e ↦ rw e (comparison_term-IsValid op (operand spelled rest) c (text_eq_ne _ [] e))
  ]

  abbrev AllComparisons : List (Op × Text) → Type 0
  AllComparisons [] = Unit
  AllComparisons ((op, s) ∷ ops) = IsComparison op × AllComparisons ops

  abbrev Found : Option (Result Term) → Type 0
  Found none = Unit
  Found (some r) = Returns IsValid r

  find_comparison-Found :
      (rest : Text) (ops : List (Op × Text))
      → AllComparisons ops
      → Found (find_comparison field rest ops)
  unfolding find_comparison
  find_comparison-Found rest [] a = tt
  find_comparison-Found rest ((op, s) ∷ ops) a =
      if_intro Found (has_prefix rest s) (λ _. comparison-IsValid op s rest a.0)
        λ _. find_comparison-Found rest ops a.1

  plain_term-IsValid :
      (v : Text) (phrase : Bool)
      → Vocabulary field v
      → (phrase ≡ false → field ≢ [] → v ≢ [])
      → IsValid (record (new_term field) { value = v; phrase = phrase })
  plain_term-IsValid v phrase w n = record {
    field_known = known;
    bounds = λ e. cc;
    operand = λ c. absurd c;
    type_known = λ _. w.0;
    direction_known = λ _. w.1;
    named = λ _. n;
  }

  parse_plain-IsValid : (rest : Text) → Returns IsValid (parse_plain field rest)
  unfolding parse_plain
  parse_plain-IsValid rest =
      if_intro (Returns IsValid) (is_quoted rest)
        (λ _.
          bind-Returns (λ _. Vocabulary field (inner rest)) IsValid
            (validate_field_value field (inner rest)) _ (validate-Vocabulary field (inner rest))
            λ _ w. plain_term-IsValid (inner rest) true w (λ e. cc))
        λ _.
          if_intro (Returns IsValid) (not (text_eq field []) && text_eq rest []) (λ _. tt)
            λ b.
              bind-Returns (λ _. Vocabulary field rest) IsValid (validate_field_value field rest) _
                (validate-Vocabulary field rest)
                λ _ w. plain_term-IsValid rest false w λ _ n e. n (nameless b (text_eq_refl rest) e)
    where
      nameless :
          (not (text_eq field []) && text_eq rest []) ≡ false
          → text_eq rest rest ≡ true
          → rest ≡ []
          → field ≡ []
      nameless b r e = text_eq_sound field [] (ground (arith, ap (text_eq rest) e))

  range_term-IsValid :
      (rest s : Text) (at : Option ℕ)
      → Returns IsValid (range_term field rest (split_range_at s at))
  range_term-IsValid rest s none = tt
  range_term-IsValid rest s (some idx) =
      if_intro Given (text_eq lo [] || text_eq hi []) (λ _. tt)
        λ b. record {
          field_known = known;
          bounds = λ _. (text_eq_ne lo [] (ground arith), text_eq_ne hi [] (ground arith));
          operand = λ c. absurd c;
          type_known = λ e. cc;
          direction_known = λ e. cc;
          named = λ e. cc;
        }
    where
      lo : Text
      lo = trim_space (take idx s)

      hi : Text
      hi = trim_space (drop (idx + 4) s)

      Given : Option (Text × Text) → Type 0
      Given o = Returns IsValid (range_term field rest o)

  or_plain-IsValid :
      (rest : Text) (o : Option (Result Term)) → Found o → Returns IsValid (or_plain field rest o)
  or_plain-IsValid rest none h = parse_plain-IsValid rest
  or_plain-IsValid rest (some r) h = h

  parse_value-IsValid : (rest : Text) → Returns IsValid (parse_value field rest)
  unfolding parse_value split_range
  parse_value-IsValid rest =
      if_intro (Returns IsValid) (has_prefix rest (codes "[") && has_suffix rest (codes "]"))
        (λ _. range_term-IsValid rest (inner rest) _)
        λ _.
          or_plain-IsValid rest _
            (find_comparison-Found rest comparisons (tt, (tt, (tt, (tt, (tt, tt))))))

-- On every raw text parseTerm ends, with an error or with a leaf that is valid: its field is
-- empty or known, the bounds of a range and the operand of a comparison are not empty, a plain
-- `type` or `dir` has a known value, and no plain field without quotes has an empty one.
pub parse_term-IsValid : (raw : Text) → Returns IsValid (parse_term raw)
unfolding parse_term
parse_term-IsValid raw =
    bind-Returns IsField IsValid (resolve_field (split_field raw).0) _
      (resolve_field-IsField (split_field raw).0)
      λ field known. parse_value-IsValid field known (split_field raw).1
