-- ===== src/Query/Parse.antt =====
-- The recursive-descent parser of internal/query/query.go. A method of `*parser` that moves
-- p.pos takes the tokens from p.pos on and returns those that are left.
pub mod Grammar
pub mod Sound
pub mod Complete
pub mod RoundTrip
use archer.Prelude.{ℕ, zero, suc, ◌+◌, ◌*◌, List, [], ◌∷◌, Text, codes, length}
use archer.Query.Token.{
  Token, term, and_tok, or_tok, not_tok, lparen, rparen, token_text, Result, ok, err, fuel_out,
  ◌>>=◌, unexpected_token, missing_operator, trailing_or, trailing_and, unexpected_end, unbalanced,
  unexpected_operator,
}
use archer.Query.Lex.{lex}
use archer.Query.Term.{Term, parse_term}

-- the implementations of the interface `node`
pub data Node : Type 0 where
  match_all : Node
  and_node or_node : Node → Node → Node
  not_node : Node → Node
  leaf : Term → Node

abbrev pub Parsed : Type 0
Parsed = Result (Node × List Token)

-- describeNext
unfoldable pub describe_next : Token → Text
describe_next not_tok = codes "NOT"
describe_next lparen = codes "("
describe_next t = token_text t

-- parsePrimary's test for the closing parenthesis
unfoldable pub close_paren : Node → List Token → Parsed
close_paren inner (rparen ∷ ts) = ok (inner, ts)
close_paren inner _ = err unbalanced

unfoldable mutual
  -- parseOr up to its loop; parseExpr is parseOr
  pub parse_or : ℕ → List Token → Parsed
  parse_or zero ts = fuel_out
  parse_or (suc f) ts = parse_and f ts >>= λ (left, rest). or_loop f left rest

  -- the loop of parseOr
  pub or_loop : ℕ → Node → List Token → Parsed
  or_loop zero left ts = fuel_out
  or_loop (suc f) left (or_tok ∷ []) = err trailing_or
  or_loop (suc f) left (or_tok ∷ t ∷ ts) =
      parse_and f (t ∷ ts) >>= λ (right, rest). or_loop f (or_node left right) rest
  or_loop (suc f) left ts = ok (left, ts)

  -- parseAnd up to its loop
  pub parse_and : ℕ → List Token → Parsed
  parse_and zero ts = fuel_out
  parse_and (suc f) ts = parse_unary f ts >>= λ (left, rest). and_loop f left rest

  -- the loop of parseAnd
  pub and_loop : ℕ → Node → List Token → Parsed
  and_loop zero left ts = fuel_out
  and_loop (suc f) left (and_tok ∷ []) = err trailing_and
  and_loop (suc f) left (and_tok ∷ t ∷ ts) =
      parse_unary f (t ∷ ts) >>= λ (right, rest). and_loop f (and_node left right) rest
  and_loop (suc f) left (term s ∷ ts) = err (missing_operator (describe_next (term s)))
  and_loop (suc f) left (not_tok ∷ ts) = err (missing_operator (describe_next not_tok))
  and_loop (suc f) left (lparen ∷ ts) = err (missing_operator (describe_next lparen))
  and_loop (suc f) left ts = ok (left, ts)

  pub parse_unary : ℕ → List Token → Parsed
  parse_unary zero ts = fuel_out
  parse_unary (suc f) [] = err unexpected_end
  parse_unary (suc f) (not_tok ∷ ts) =
      parse_unary f ts >>= λ (inner, rest). ok (not_node inner, rest)
  parse_unary (suc f) (t ∷ ts) = parse_primary f (t ∷ ts)

  pub parse_primary : ℕ → List Token → Parsed
  parse_primary zero ts = fuel_out
  parse_primary (suc f) [] = err unexpected_end
  parse_primary (suc f) (lparen ∷ ts) = parse_or f ts >>= λ (inner, rest). close_paren inner rest
  parse_primary (suc f) (term s ∷ ts) = parse_term s >>= λ t. ok (leaf t, ts)
  parse_primary (suc f) (and_tok ∷ ts) = err unexpected_operator
  parse_primary (suc f) (or_tok ∷ ts) = err unexpected_operator
  parse_primary (suc f) (t ∷ ts) = err (unexpected_token (token_text t))

-- the test that nothing is left
unfoldable pub at_end : Node × List Token → Result Node
at_end (root, []) = ok root
at_end (root, t ∷ ts) = err (unexpected_token (token_text t))

-- Each token costs at most five calls.
abbrev pub parse_fuel : List Token → ℕ
parse_fuel ts = 5 * length ts + 5

-- Parse, after the lexer
unfoldable pub parse_tokens : List Token → Result Node
parse_tokens [] = ok match_all
parse_tokens ts = parse_or (parse_fuel ts) ts >>= at_end

-- Parse
unfoldable pub parse : Text → Result Node
parse input = lex input >>= parse_tokens
