-- ===== src/Query/Parse/Grammar.antt =====
-- The grammar in the comment of the parser, as a relation: what tokens, from the first list up to
-- the second, make which tree.
--   orExpr  := andExpr (OR andExpr)*
--   andExpr := unary (AND unary)*
--   unary   := NOT unary | primary
--   primary := '(' orExpr ')' | TERM
use archer.Prelude.{◌≤◌, ◌<◌, ◌≡◌, List, [], ◌∷◌, Text, length, arith, ap}
use archer.Query.Token.{Token, term, and_tok, or_tok, not_tok, lparen, rparen, ok}
use archer.Query.Term.{Term, parse_term}
use archer.Query.Parse.{Node, match_all, and_node, or_node, not_node, leaf}

mutual
  pub data OrExpr : List Token → Node → List Token → Type 0 where
    disjunction :
        {ts us vs : List Token} {l n : Node} → AndExpr ts l us → OrTail l us n vs → OrExpr ts n vs

  -- `(OR andExpr)*` after the tree l, which stands to the left of what follows
  pub data OrTail : Node → List Token → Node → List Token → Type 0 where
    or_stop : {l n : Node} {ts us : List Token} → l ≡ n → ts ≡ us → OrTail l ts n us
    or_more :
        {l r n : Node} {ts us vs : List Token}
        → AndExpr ts r us
        → OrTail (or_node l r) us n vs
        → OrTail l (or_tok ∷ ts) n vs

  pub data AndExpr : List Token → Node → List Token → Type 0 where
    conjunction :
        {ts us vs : List Token} {l n : Node} → Unary ts l us → AndTail l us n vs → AndExpr ts n vs

  pub data AndTail : Node → List Token → Node → List Token → Type 0 where
    and_stop : {l n : Node} {ts us : List Token} → l ≡ n → ts ≡ us → AndTail l ts n us
    and_more :
        {l r n : Node} {ts us vs : List Token}
        → Unary ts r us
        → AndTail (and_node l r) us n vs
        → AndTail l (and_tok ∷ ts) n vs

  pub data Unary : List Token → Node → List Token → Type 0 where
    negation :
        {n : Node} {ts us : List Token} → Unary ts n us → Unary (not_tok ∷ ts) (not_node n) us
    simple : {n : Node} {ts us : List Token} → Primary ts n us → Unary ts n us

  pub data Primary : List Token → Node → List Token → Type 0 where
    group : {n : Node} {ts us : List Token} → OrExpr ts n (rparen ∷ us) → Primary (lparen ∷ ts) n us
    word :
        {s : Text} {t : Term} {ts : List Token}
        → parse_term s ≡ ok t
        → Primary (term s ∷ ts) (leaf t) ts

-- A whole query: nothing at all, or an expression with nothing left.
pub data Derives : List Token → Node → Type 0 where
  nothing : Derives [] match_all
  expression : {n : Node} {ts : List Token} → OrExpr ts n [] → Derives ts n

mutual
  pub OrExpr-lt : {ts us : List Token} {n : Node} → OrExpr ts n us → length us < length ts
  OrExpr-lt (disjunction a o) = omega (arith, AndExpr-lt a, OrTail-le o)

  pub OrTail-le : {ts us : List Token} {l n : Node} → OrTail l ts n us → length us ≤ length ts
  OrTail-le (or_stop e d) = omega (arith, ap length d)
  OrTail-le (or_more a o) = omega (arith, AndExpr-lt a, OrTail-le o)

  pub AndExpr-lt : {ts us : List Token} {n : Node} → AndExpr ts n us → length us < length ts
  AndExpr-lt (conjunction a o) = omega (arith, Unary-lt a, AndTail-le o)

  pub AndTail-le : {ts us : List Token} {l n : Node} → AndTail l ts n us → length us ≤ length ts
  AndTail-le (and_stop e d) = omega (arith, ap length d)
  AndTail-le (and_more a o) = omega (arith, Unary-lt a, AndTail-le o)

  pub Unary-lt : {ts us : List Token} {n : Node} → Unary ts n us → length us < length ts
  Unary-lt (negation u) = omega (arith, Unary-lt u)
  Unary-lt (simple p) = Primary-lt p

  pub Primary-lt : {ts us : List Token} {n : Node} → Primary ts n us → length us < length ts
  Primary-lt (group o) = omega (arith, OrExpr-lt o)
  Primary-lt (word e) = omega arith
