-- ===== src/Query/Lex.antt =====
-- `lex` of internal/query/query.go.
pub mod Total
pub mod Words
pub mod RoundTrip
use archer.Prelude.{
  ℕ, zero, suc, ◌-◌, Bool, true, false, ◌||◌, Option, some, none, List, [], ◌∷◌, ◌++◌, Text, codes,
  length, ◌==◌, if◌then◌else◌, text_eq, to_upper,
}
use archer.Query.Token.{
  Token, term, and_tok, or_tok, not_tok, lparen, rparen, Result, ok, err, fuel_out, Error,
  unterminated_quote, unterminated_range, ◌>>=◌,
}

abbrev pub is_space : ℕ → Bool
is_space c = c == b' ' || c == b'\t' || c == b'\n' || c == b'\r'

-- the test that ends a term
abbrev pub is_break : ℕ → Bool
is_break c = is_space c || c == b'(' || c == b')'

abbrev pub consed : ℕ → Option (Text × Text) → Option (Text × Text)
consed c none = none
consed c (some (t, r)) = some (c ∷ t, r)

-- The inner loops over a quoted phrase and a range: the text up to and with `close`, and the rest;
-- `none` if the input ends first (`!closed`).
unfoldable pub scan_to : ℕ → Text → Option (Text × Text)
scan_to close [] = none
scan_to close (c ∷ r) =
    let more = consed c (scan_to close r) in if c == close then some (c ∷ [], r) else more

-- `c`, the scanned text, and then the rest of the term
abbrev pub after_scan :
    Error → ℕ → (Text → Result (Text × Text)) → Option (Text × Text) → Result (Text × Text)
after_scan e c next none = err e
after_scan e c next (some (t, r)) = next r >>= λ (u, rest). ok (c ∷ t ++ u, rest)

-- The loop that collects one term: its text, and the input that follows.
unfoldable pub take_term : ℕ → ℕ → Text → Result (Text × Text)
take_term zero start r = fuel_out
take_term (suc f) start [] = ok ([], [])
take_term (suc f) start (c ∷ r) =
    let quoted = after_scan (unterminated_quote start) c (take_term f start) (scan_to b'"' r) in
    let ranged = after_scan (unterminated_range start) c (take_term f start) (scan_to b']' r) in
    let plain = take_term f start r >>= λ (u, rest). ok (c ∷ u, rest) in
    if is_break c
    then ok ([], c ∷ r)
    else if c == b'"'
    then quoted
    else if c == b'['
    then ranged
    else plain

-- `switch strings.ToUpper(text)`
unfoldable pub classify : Text → Token
classify text =
    if text_eq (to_upper text) (codes "AND")
    then and_tok
    else if text_eq (to_upper text) (codes "OR")
    then or_tok
    else if text_eq (to_upper text) (codes "NOT")
    then not_tok
    else term text

-- The outer loop. The input is n bytes long and r is what is left of it, so a term that begins
-- here begins at n - length r.
unfoldable pub lex_loop : ℕ → ℕ → Text → Result (List Token)
lex_loop zero n r = fuel_out
lex_loop (suc f) n [] = ok []
lex_loop (suc f) n (c ∷ r) =
    let skipped = lex_loop f n r in
    let opened = lex_loop f n r >>= λ ts. ok (lparen ∷ ts) in
    let closed = lex_loop f n r >>= λ ts. ok (rparen ∷ ts) in
    let worded = take_term (suc (length (c ∷ r))) (n - length (c ∷ r)) (c ∷ r) >>= λ (text, rest).
    lex_loop f n rest >>= λ ts. ok (classify text ∷ ts) in
    if is_space c
    then skipped
    else if c == b'('
    then opened
    else if c == b')'
    then closed
    else worded

unfoldable pub lex : Text → Result (List Token)
lex input = lex_loop (suc (length input)) (length input) input
