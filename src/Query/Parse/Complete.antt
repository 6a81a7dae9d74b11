-- ===== src/Query/Parse/Complete.antt =====
-- The parser finds every tree that the grammar derives; with Sound, the grammar is unambiguous and
-- the parser decides it.
use archer.Prelude.{ℕ, zero, suc, ◌+◌, ◌*◌, ◌<◌, ◌≡◌, ◌↔◌, refl, ◌∙◌, List, [], ◌∷◌, length, arith}
use archer.Query.Token.{Token, term, and_tok, or_tok, not_tok, lparen, rparen, ok, Returns-ok}
use archer.Query.Parse.{
  Node, and_node, or_node, close_paren, parse_or, or_loop, parse_and, and_loop, parse_unary,
  parse_primary, at_end, parse_fuel, parse_tokens,
}
use archer.Query.Parse.Grammar.{
  OrExpr, disjunction, OrTail, or_stop, or_more, AndExpr, conjunction, AndTail, and_stop, and_more,
  Unary, negation, simple, Primary, group, word, Derives, nothing, expression, AndExpr-lt, Unary-lt,
  OrExpr-lt,
}
use archer.Query.Parse.Sound.{parse_tokens-Returns}

-- What may follow an expression, and what may follow an operand of OR.
abbrev AfterOr : List Token → Type 0
AfterOr [] = Unit
AfterOr (rparen ∷ ts) = Unit
AfterOr _ = ⊥

abbrev AfterAnd : List Token → Type 0
AfterAnd [] = Unit
AfterAnd (rparen ∷ ts) = Unit
AfterAnd (or_tok ∷ ts) = Unit
AfterAnd _ = ⊥

AfterOr→AfterAnd : (ts : List Token) → AfterOr ts → AfterAnd ts
AfterOr→AfterAnd [] h = tt
AfterOr→AfterAnd (rparen ∷ ts) h = tt
AfterOr→AfterAnd (term s ∷ ts) h = h
AfterOr→AfterAnd (and_tok ∷ ts) h = h
AfterOr→AfterAnd (or_tok ∷ ts) h = tt
AfterOr→AfterAnd (not_tok ∷ ts) h = h
AfterOr→AfterAnd (lparen ∷ ts) h = h

OrTail-AfterAnd : {l n : Node} {ts us : List Token} → OrTail l ts n us → AfterOr us → AfterAnd ts
OrTail-AfterAnd {us} (or_stop e d) h = rw d (AfterOr→AfterAnd us h)
OrTail-AfterAnd (or_more a o) h = tt

or_loop_stop : (f : ℕ) (l : Node) (ts : List Token) → AfterOr ts → or_loop (suc f) l ts ≡ ok (l, ts)
unfolding or_loop
or_loop_stop f l [] h = refl
or_loop_stop f l (rparen ∷ ts) h = refl
or_loop_stop f l (term s ∷ ts) h = absurd h
or_loop_stop f l (and_tok ∷ ts) h = absurd h
or_loop_stop f l (or_tok ∷ ts) h = absurd h
or_loop_stop f l (not_tok ∷ ts) h = absurd h
or_loop_stop f l (lparen ∷ ts) h = absurd h

and_loop_stop :
    (f : ℕ) (l : Node) (ts : List Token) → AfterAnd ts → and_loop (suc f) l ts ≡ ok (l, ts)
unfolding and_loop
and_loop_stop f l [] h = refl
and_loop_stop f l (rparen ∷ ts) h = refl
and_loop_stop f l (or_tok ∷ ts) h = refl
and_loop_stop f l (term s ∷ ts) h = absurd h
and_loop_stop f l (and_tok ∷ ts) h = absurd h
and_loop_stop f l (not_tok ∷ ts) h = absurd h
and_loop_stop f l (lparen ∷ ts) h = absurd h

or_loop_stopped :
    (f : ℕ) {l n : Node} {ts us : List Token}
    → l ≡ n
    → ts ≡ us
    → AfterOr us
    → or_loop (suc f) l ts ≡ ok (n, us)
or_loop_stopped f {n} {us} e d w = rw (e, d) (or_loop_stop f n us w)

or_loop_more :
    (f : ℕ) (l r : Node) (ts us : List Token)
    → parse_and f ts ≡ ok (r, us)
    → 0 < length ts
    → or_loop (suc f) l (or_tok ∷ ts) ≡ or_loop f (or_node l r) us
unfolding or_loop
or_loop_more f l r [] us e h = absurd (omega arith)
or_loop_more f l r (t ∷ ts) us e h = rw e

and_loop_stopped :
    (f : ℕ) {l n : Node} {ts us : List Token}
    → l ≡ n
    → ts ≡ us
    → AfterAnd us
    → and_loop (suc f) l ts ≡ ok (n, us)
and_loop_stopped f {n} {us} e d w = rw (e, d) (and_loop_stop f n us w)

and_loop_more :
    (f : ℕ) (l r : Node) (ts us : List Token)
    → parse_unary f ts ≡ ok (r, us)
    → 0 < length ts
    → and_loop (suc f) l (and_tok ∷ ts) ≡ and_loop f (and_node l r) us
unfolding and_loop
and_loop_more f l r [] us e h = absurd (omega arith)
and_loop_more f l r (t ∷ ts) us e h = rw e

parse_unary_simple :
    (f : ℕ) {ts us : List Token} {n : Node}
    → Primary ts n us
    → parse_unary (suc f) ts ≡ parse_primary f ts
unfolding parse_unary
parse_unary_simple f (group o) = refl
parse_unary_simple f (word e) = refl

mutual
  unfolding parse_or close_paren

  parse_or_finds :
      {ts us : List Token} {n : Node}
      → OrExpr ts n us
      → AfterOr us
      → (f : ℕ) → 5 * length ts + 4 < f
      → parse_or f ts ≡ ok (n, us)
  parse_or_finds (disjunction a o) w zero h = absurd (omega arith)
  parse_or_finds (disjunction a o) w (suc f) h =
      rw (parse_and_finds a (OrTail-AfterAnd o w) f (omega arith))
        (or_loop_finds o w f (omega (arith, AndExpr-lt a)))

  or_loop_finds :
      {ts us : List Token} {l n : Node}
      → OrTail l ts n us
      → AfterOr us
      → (f : ℕ) → 5 * length ts < f
      → or_loop f l ts ≡ ok (n, us)
  or_loop_finds o w zero h = absurd (omega arith)
  or_loop_finds (or_stop e d) w (suc f) h = or_loop_stopped f e d w
  or_loop_finds (or_more a o) w (suc f) h =
      or_loop_more f _ _ _ _ (parse_and_finds a (OrTail-AfterAnd o w) f (omega arith))
        (omega (arith, AndExpr-lt a))
      ∙ or_loop_finds o w f (omega (arith, AndExpr-lt a))

  parse_and_finds :
      {ts us : List Token} {n : Node}
      → AndExpr ts n us
      → AfterAnd us
      → (f : ℕ) → 5 * length ts + 3 < f
      → parse_and f ts ≡ ok (n, us)
  parse_and_finds (conjunction u a) w zero h = absurd (omega arith)
  parse_and_finds (conjunction u a) w (suc f) h =
      rw (parse_unary_finds u f (omega arith)) (and_loop_finds a w f (omega (arith, Unary-lt u)))

  and_loop_finds :
      {ts us : List Token} {l n : Node}
      → AndTail l ts n us
      → AfterAnd us
      → (f : ℕ) → 5 * length ts < f
      → and_loop f l ts ≡ ok (n, us)
  and_loop_finds a w zero h = absurd (omega arith)
  and_loop_finds (and_stop e d) w (suc f) h = and_loop_stopped f e d w
  and_loop_finds (and_more u a) w (suc f) h =
      and_loop_more f _ _ _ _ (parse_unary_finds u f (omega arith)) (omega (arith, Unary-lt u))
      ∙ and_loop_finds a w f (omega (arith, Unary-lt u))

  parse_unary_finds :
      {ts us : List Token} {n : Node}
      → Unary ts n us
      → (f : ℕ) → 5 * length ts + 2 < f
      → parse_unary f ts ≡ ok (n, us)
  parse_unary_finds u zero h = absurd (omega arith)
  parse_unary_finds (negation u) (suc f) h = rw (parse_unary_finds u f (omega arith))
  parse_unary_finds (simple p) (suc f) h =
      parse_unary_simple f p ∙ parse_primary_finds p f (omega arith)

  parse_primary_finds :
      {ts us : List Token} {n : Node}
      → Primary ts n us
      → (f : ℕ) → 5 * length ts + 1 < f
      → parse_primary f ts ≡ ok (n, us)
  parse_primary_finds p zero h = absurd (omega arith)
  parse_primary_finds (group o) (suc f) h = rw (parse_or_finds o tt f (omega arith)) refl
  parse_primary_finds (word e) (suc f) h = rw e

parse_tokens_finds : {ts : List Token} {n : Node} → Derives ts n → parse_tokens ts ≡ ok n
unfolding parse_tokens at_end
parse_tokens_finds nothing = refl
parse_tokens_finds {ts = []} (expression o) = absurd (omega (arith, OrExpr-lt o))
parse_tokens_finds {ts = t ∷ ts} (expression o) =
    rw (parse_or_finds o tt (parse_fuel (t ∷ ts)) (omega arith))

-- The parser returns a tree exactly if the grammar derives that tree from the tokens.
pub parse_tokens_iff : (ts : List Token) (n : Node) → (parse_tokens ts ≡ ok n) ↔ Derives ts n
parse_tokens_iff ts n =
    (λ e. Returns-ok (Derives ts) (parse_tokens ts) e (parse_tokens-Returns ts), parse_tokens_finds)

-- No token list has two trees.
pub Derives-unique : {ts : List Token} {m n : Node} → Derives ts m → Derives ts n → m ≡ n
Derives-unique d e = cc (parse_tokens_finds d, parse_tokens_finds e)
