-- ===== src/Query/Term.antt =====
-- The leaves of a query: parseTerm and its helpers, of internal/query/term.go.
pub mod Vocabulary
pub mod Valid
use archer.Prelude.{
  ℕ, ◌-◌, ◌+◌, Bool, true, false, ◌&&◌, ◌||◌, not, Option, none, some, List, [], ◌∷◌, Text, codes,
  text_eq, length, take, drop, ◌==◌, leb, if◌then◌else◌, any, has_prefix, has_suffix, to_lower,
  to_upper, trim_space, index_byte, index_of, lookup_text, equal_fold,
}
use archer.Query.Token.{
  Result, ok, err, ◌>>=◌, ◌>>◌, unknown_field, malformed_range, missing_value, missing_field_value,
  unknown_finding_type, unknown_direction,
}
use archer.Query.Term.Vocabulary.{
  field_alias, known_fields, directions, is_known_finding_type, is_name_byte,
}

-- the strings "", ">=", "<=", ">", "<", "=" and "range" of `term.op`
pub data Op : Type 0 where
  plain ge le gt lt eq range : Op

pub record Term : Type 0 where
  pub field : Text
  pub op : Op
  pub value : Text
  pub lo : Text
  pub hi : Text
  pub phrase : Bool

-- `term{field: field}`
abbrev pub new_term : Text → Term
new_term f = record { field = f; op = plain; value = []; lo = []; hi = []; phrase = false }

abbrev pub all_name_bytes : Text → Bool
all_name_bytes [] = true
all_name_bytes (c ∷ s) = is_name_byte c && all_name_bytes s

-- a colon at `idx`, or none
abbrev pub split_at : Text → Option ℕ → Text × Text
split_at raw none = ([], raw)
split_at raw (some idx) =
    if idx == 0
    then ([], raw)
    else if all_name_bytes (take idx raw)
    then (to_lower (take idx raw), drop (idx + 1) raw)
    else ([], raw)

unfoldable pub split_field : Text → Text × Text
split_field raw =
    if has_prefix raw (codes "\"") then ([], raw) else split_at raw (index_byte raw b':')

abbrev pub split_range_at : Text → Option ℕ → Option (Text × Text)
split_range_at s none = none
split_range_at s (some idx) =
    let lo = trim_space (take idx s) in
    let hi = trim_space (drop (idx + 4) s) in
    if text_eq lo [] || text_eq hi [] then none else some (lo, hi)

unfoldable pub split_range : Text → Option (Text × Text)
split_range s = split_range_at s (index_of (to_upper s) (codes " TO "))

unfoldable pub validate_field_value : Text → Text → Result (Unit {0})
validate_field_value field value =
    if text_eq field (codes "type")
    then (if equal_fold value (codes "beacons")
        then ok tt
        else if is_known_finding_type value
        then ok tt
        else err (unknown_finding_type value))
    else if text_eq field (codes "dir")
    then (if any (λ d. text_eq (to_lower value) d) directions
        then ok tt
        else err (unknown_direction value))
    else ok tt

-- the operators in the order in which the loop tries them
abbrev pub comparisons : List (Op × Text)
comparisons =
    (ge, codes ">=") ∷ (le, codes "<=") ∷ (gt, codes ">") ∷ (lt, codes "<") ∷ (eq, codes "=") ∷ []

abbrev pub is_quoted : Text → Bool
is_quoted v = leb 2 (length v) && has_prefix v (codes "\"") && has_suffix v (codes "\"")

-- `v[1 : len(v)-1]`
abbrev pub inner : Text → Text
inner v = take (length v - 2) (drop 1 v)

-- what follows the operator, trimmed, without the quotes around it
unfoldable pub operand : Text → Text → Text
operand spelled rest =
    let v = trim_space (drop (length spelled) rest) in if is_quoted v then inner v else v

abbrev pub comparison_term : Text → Op → Text → Term
comparison_term field op v = record (new_term field) { op = op; value = v }

-- the body of the loop for an operator that the rest begins with
unfoldable pub comparison : Text → Op → Text → Text → Result Term
comparison field op spelled rest =
    if text_eq (operand spelled rest) []
    then err (missing_value spelled)
    else ok (comparison_term field op (operand spelled rest))

-- The first operator that the rest begins with; `none` if the loop ends without a match.
unfoldable pub find_comparison : Text → Text → List (Op × Text) → Option (Result Term)
unfolding comparison
find_comparison field rest [] = none
find_comparison field rest ((op, spelled) ∷ ops) =
    if has_prefix rest spelled
    then some (comparison field op spelled rest)
    else find_comparison field rest ops

-- a phrase, or a plain value
unfoldable pub parse_plain : Text → Text → Result Term
parse_plain field rest =
    if is_quoted rest
    then (do
      validate_field_value field (inner rest)
      ok (record (new_term field) { value = inner rest; phrase = true }))
    else if not (text_eq field []) && text_eq rest []
    then err (missing_field_value field)
    else (do validate_field_value field rest; ok (record (new_term field) { value = rest }))

abbrev pub range_term : Text → Text → Option (Text × Text) → Result Term
range_term field rest none = err (malformed_range rest)
range_term field rest (some (lo, hi)) =
    ok (record (new_term field) { op = range; lo = lo; hi = hi })

abbrev pub or_plain : Text → Text → Option (Result Term) → Result Term
or_plain field rest none = parse_plain field rest
or_plain field rest (some r) = r

-- parseTerm after the field is known
unfoldable pub parse_value : Text → Text → Result Term
parse_value field rest =
    if has_prefix rest (codes "[") && has_suffix rest (codes "]")
    then range_term field rest (split_range (inner rest))
    else or_plain field rest (find_comparison field rest comparisons)

abbrev pub canonical : Text → Option Text → Text
canonical field none = field
canonical field (some c) = c

-- The canonical name of the field, where it is known.
unfoldable pub resolve_field : Text → Result Text
resolve_field field =
    if text_eq field []
    then ok []
    else let name = canonical field (lookup_text field field_alias) in
      if any (text_eq name) known_fields then ok name else err (unknown_field name)

unfoldable pub parse_term : Text → Result Term
parse_term raw =
    let (name, rest) = split_field raw in resolve_field name >>= λ field. parse_value field rest
