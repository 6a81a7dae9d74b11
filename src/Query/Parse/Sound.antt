-- ===== src/Query/Parse/Sound.antt =====
-- The parser always returns, and a tree that it returns is one that the grammar derives.
use archer.Prelude.{ℕ, zero, suc, ◌+◌, ◌*◌, ◌<◌, ◌≡◌, ◌≢◌, refl, List, [], ◌∷◌, Text, length, arith}
use archer.Query.Token.{
  Token, term, and_tok, or_tok, not_tok, lparen, rparen, Result, ok, err, fuel_out, ◌>>=◌, Returns,
  bind-Returns, Returns-mono, Returns-ne,
}
use archer.Query.Lex.{lex}
use archer.Query.Lex.Total.{lex_total}
use archer.Query.Term.{Term, parse_term}
use archer.Query.Term.Valid.{IsValid, parse_term-IsValid}
use archer.Query.Parse.{
  Node, and_node, or_node, leaf, close_paren, parse_or, or_loop, parse_and, and_loop, parse_unary,
  parse_primary, at_end, parse_fuel, parse_tokens, parse,
}
use archer.Query.Parse.Grammar.{
  OrExpr, disjunction, OrTail, or_stop, or_more, AndExpr, conjunction, AndTail, and_stop, and_more,
  Unary, negation, simple, Primary, group, word, Derives, nothing, expression, AndExpr-lt, Unary-lt,
}

abbrev Makes : (List Token → Node → List Token → Type 0) → List Token → Node × List Token → Type 0
Makes G ts a = G ts a.0 a.1

abbrev Extends :
    (Node → List Token → Node → List Token → Type 0)
    → Node
    → List Token
    → Node × List Token
    → Type 0
Extends G l ts a = G l ts a.0 a.1

close_paren-Makes :
    (n : Node) (ts us : List Token)
    → OrExpr ts n us
    → Returns (Makes Primary (lparen ∷ ts)) (close_paren n us)
unfolding close_paren
close_paren-Makes n ts (rparen ∷ us) o = group o
close_paren-Makes n ts [] o = tt
close_paren-Makes n ts (_ ∷ us) o = tt

parsed_word :
    (s : Text) (ts : List Token) (r : Result Term)
    → parse_term s ≡ r
    → r ≢ fuel_out
    → Returns (Makes Primary (term s ∷ ts)) (r >>= λ t. ok (leaf t, ts))
parsed_word s ts (ok t) e n = word e
parsed_word s ts (err x) e n = tt
parsed_word s ts fuel_out e n = absurd (n refl)

mutual
  unfolding parse_or

  parse_or-Returns :
      (f : ℕ) (ts : List Token) → 5 * length ts + 4 < f → Returns (Makes OrExpr ts) (parse_or f ts)
  parse_or-Returns zero ts h = absurd (omega arith)
  parse_or-Returns (suc f) ts h =
      bind-Returns (Makes AndExpr ts) (Makes OrExpr ts) (parse_and f ts) _
        (parse_and-Returns f ts (omega arith))
        λ a d.
          Returns-mono (Extends OrTail a.0 a.1) (Makes OrExpr ts) (or_loop f a.0 a.1)
            (λ b o. disjunction d o) (or_loop-Returns f a.0 a.1 (omega (arith, AndExpr-lt d)))

  or_loop-Returns :
      (f : ℕ) (l : Node) (ts : List Token)
      → 5 * length ts < f
      → Returns (Extends OrTail l ts) (or_loop f l ts)
  or_loop-Returns zero l ts h = absurd (omega arith)
  or_loop-Returns (suc f) l (or_tok ∷ []) h = tt
  or_loop-Returns (suc f) l (or_tok ∷ t ∷ ts) h =
      bind-Returns (Makes AndExpr (t ∷ ts)) (Extends OrTail l (or_tok ∷ t ∷ ts))
        (parse_and f (t ∷ ts)) _ (parse_and-Returns f (t ∷ ts) (omega arith))
        λ a d.
          Returns-mono (Extends OrTail (or_node l a.0) a.1) (Extends OrTail l (or_tok ∷ t ∷ ts))
            (or_loop f (or_node l a.0) a.1) (λ b o. or_more d o)
            (or_loop-Returns f (or_node l a.0) a.1 (omega (arith, AndExpr-lt d)))
  or_loop-Returns (suc f) l [] h = or_stop refl refl
  or_loop-Returns (suc f) l (_ ∷ ts) h = or_stop refl refl

  parse_and-Returns :
      (f : ℕ) (ts : List Token)
      → 5 * length ts + 3 < f
      → Returns (Makes AndExpr ts) (parse_and f ts)
  parse_and-Returns zero ts h = absurd (omega arith)
  parse_and-Returns (suc f) ts h =
      bind-Returns (Makes Unary ts) (Makes AndExpr ts) (parse_unary f ts) _
        (parse_unary-Returns f ts (omega arith))
        λ a d.
          Returns-mono (Extends AndTail a.0 a.1) (Makes AndExpr ts) (and_loop f a.0 a.1)
            (λ b o. conjunction d o) (and_loop-Returns f a.0 a.1 (omega (arith, Unary-lt d)))

  and_loop-Returns :
      (f : ℕ) (l : Node) (ts : List Token)
      → 5 * length ts < f
      → Returns (Extends AndTail l ts) (and_loop f l ts)
  and_loop-Returns zero l ts h = absurd (omega arith)
  and_loop-Returns (suc f) l (and_tok ∷ []) h = tt
  and_loop-Returns (suc f) l (and_tok ∷ t ∷ ts) h =
      bind-Returns (Makes Unary (t ∷ ts)) (Extends AndTail l (and_tok ∷ t ∷ ts))
        (parse_unary f (t ∷ ts)) _ (parse_unary-Returns f (t ∷ ts) (omega arith))
        λ a d.
          Returns-mono (Extends AndTail (and_node l a.0) a.1) (Extends AndTail l (and_tok ∷ t ∷ ts))
            (and_loop f (and_node l a.0) a.1) (λ b o. and_more d o)
            (and_loop-Returns f (and_node l a.0) a.1 (omega (arith, Unary-lt d)))
  and_loop-Returns (suc f) l (term s ∷ ts) h = tt
  and_loop-Returns (suc f) l (not_tok ∷ ts) h = tt
  and_loop-Returns (suc f) l (lparen ∷ ts) h = tt
  and_loop-Returns (suc f) l [] h = and_stop refl refl
  and_loop-Returns (suc f) l (_ ∷ ts) h = and_stop refl refl

  parse_unary-Returns :
      (f : ℕ) (ts : List Token)
      → 5 * length ts + 2 < f
      → Returns (Makes Unary ts) (parse_unary f ts)
  parse_unary-Returns zero ts h = absurd (omega arith)
  parse_unary-Returns (suc f) [] h = tt
  parse_unary-Returns (suc f) (not_tok ∷ ts) h =
      bind-Returns (Makes Unary ts) (Makes Unary (not_tok ∷ ts)) (parse_unary f ts) _
        (parse_unary-Returns f ts (omega arith)) λ a d. negation d
  parse_unary-Returns (suc f) (t ∷ ts) h =
      Returns-mono (Makes Primary (t ∷ ts)) (Makes Unary (t ∷ ts)) (parse_primary f (t ∷ ts))
        (λ a d. simple d) (parse_primary-Returns f (t ∷ ts) (omega arith))

  parse_primary-Returns :
      (f : ℕ) (ts : List Token)
      → 5 * length ts + 1 < f
      → Returns (Makes Primary ts) (parse_primary f ts)
  parse_primary-Returns zero ts h = absurd (omega arith)
  parse_primary-Returns (suc f) [] h = tt
  parse_primary-Returns (suc f) (lparen ∷ ts) h =
      bind-Returns (Makes OrExpr ts) (Makes Primary (lparen ∷ ts)) (parse_or f ts) _
        (parse_or-Returns f ts (omega arith)) λ a d. close_paren-Makes a.0 ts a.1 d
  parse_primary-Returns (suc f) (term s ∷ ts) h =
      parsed_word s ts (parse_term s) refl
        (Returns-ne IsValid (parse_term s) (parse_term-IsValid s))
  parse_primary-Returns (suc f) (and_tok ∷ ts) h = tt
  parse_primary-Returns (suc f) (or_tok ∷ ts) h = tt
  parse_primary-Returns (suc f) (t ∷ ts) h = tt

at_end-Returns :
    (ts us : List Token) (n : Node) → OrExpr ts n us → Returns (Derives ts) (at_end (n, us))
unfolding at_end
at_end-Returns ts [] n o = expression o
at_end-Returns ts (t ∷ us) n o = tt

-- The parser returns a tree that the grammar derives from the tokens, or an error of the program.
pub parse_tokens-Returns : (ts : List Token) → Returns (Derives ts) (parse_tokens ts)
unfolding parse_tokens
parse_tokens-Returns [] = nothing
parse_tokens-Returns (t ∷ ts) =
    bind-Returns (Makes OrExpr (t ∷ ts)) (Derives (t ∷ ts))
      (parse_or (parse_fuel (t ∷ ts)) (t ∷ ts)) _
      (parse_or-Returns (parse_fuel (t ∷ ts)) (t ∷ ts) (omega arith))
      λ a d. at_end-Returns (t ∷ ts) a.1 a.0 d

-- A tree that Parse returns is derived from the tokens of the input.
pub record Understood (input : Text) (n : Node) : Type 0 where
  pub tokens : List Token
  pub lexed : lex input ≡ ok tokens
  pub derived : Derives tokens n

-- Parse returns, on every input, a tree that the grammar derives from the tokens of the input, or
-- an error of the program.
pub parse-Returns : (input : Text) → Returns (Understood input) (parse input)
unfolding parse
parse-Returns input = lexed (lex input) refl (lex_total input)
  where
    lexed :
        (r : Result (List Token))
        → lex input ≡ r
        → r ≢ fuel_out
        → Returns (Understood input) (r >>= parse_tokens)
    lexed (ok ts) e n =
        Returns-mono (Derives ts) (Understood input) (parse_tokens ts)
          (λ t d. record { tokens = ts; lexed = e; derived = d }) (parse_tokens-Returns ts)
    lexed (err x) e n = tt
    lexed fuel_out e n = absurd (n refl)
