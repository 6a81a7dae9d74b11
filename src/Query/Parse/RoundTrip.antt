-- ===== src/Query/Parse/RoundTrip.antt =====
-- Trees written as tokens, with parentheses only where the grammar wants them, are read back.
use mathlib.Core.List.{append_assoc, append-nil}
use archer.Prelude.{◌≡◌, refl, sym, ◌∙◌, ap, subst, List, [], ◌∷◌, ◌++◌, Text, All, All-append}
use archer.Query.Token.{Token, term, and_tok, or_tok, not_tok, lparen, rparen, ok}
use archer.Query.Lex.RoundTrip.{IsToken, render, lex-render}
use archer.Query.Term.{Term, parse_term}
use archer.Query.Parse.{Node, match_all, and_node, or_node, not_node, leaf, parse}
use archer.Query.Parse.Grammar.{
  OrExpr, disjunction, OrTail, or_stop, or_more, AndExpr, conjunction, AndTail, and_stop, and_more,
  Unary, negation, simple, group, word, expression,
}
use archer.Query.Parse.Complete.{parse_tokens_iff}

-- Where a tree stands: on its own, beside an OR, beside an AND or behind a NOT.
pub data Place : Type 0 where
  alone beside_or beside_and : Place

abbrev parens : List Token → List Token
parens ts = lparen ∷ ts ++ (rparen ∷ [])

abbrev place_or : Place → List Token → List Token
place_or alone ts = ts
place_or _ ts = parens ts

abbrev place_and : Place → List Token → List Token
place_and beside_and ts = parens ts
place_and _ ts = ts

-- A tree as tokens, for a spelling of its leaves.
pub print : (Term → Text) → Place → Node → List Token
print spell place match_all = []
print spell place (or_node l r) =
    place_or place (print spell alone l ++ (or_tok ∷ print spell beside_or r))
print spell place (and_node l r) =
    place_and place (print spell beside_or l ++ (and_tok ∷ print spell beside_and r))
print spell place (not_node n) = not_tok ∷ print spell beside_and n
print spell place (leaf t) = term (spell t) ∷ []

-- No part of the tree is the empty query, and the spelling of each leaf is a word that parseTerm
-- reads back.
abbrev pub IsPrintable : (Term → Text) → Node → Type 0
IsPrintable spell match_all = ⊥
IsPrintable spell (or_node l r) = IsPrintable spell l × IsPrintable spell r
IsPrintable spell (and_node l r) = IsPrintable spell l × IsPrintable spell r
IsPrintable spell (not_node n) = IsPrintable spell n
IsPrintable spell (leaf t) = (parse_term (spell t) ≡ ok t) × IsToken (term (spell t))

abbrev At : Place → List Token → Node → List Token → Type 0
At alone = OrExpr
At beside_or = AndExpr
At beside_and = Unary

Unary→At : (p : Place) {ts us : List Token} {n : Node} → Unary ts n us → At p ts n us
Unary→At alone u = disjunction (conjunction u (and_stop refl refl)) (or_stop refl refl)
Unary→At beside_or u = conjunction u (and_stop refl refl)
Unary→At beside_and u = u

OrTail-one :
    {l m r : Node} {ts vs ws : List Token}
    → l ≡ m
    → ts ≡ or_tok ∷ vs
    → AndExpr vs r ws
    → OrTail l ts (or_node m r) ws
OrTail-one {l} {m} {r} {ws} e d a =
    subst (λ us. OrTail l us (or_node m r) ws) (sym d)
      (or_more a (or_stop (ap (λ n. or_node n r) e) refl))

OrTail-snoc :
    {l m r : Node} {ts us vs ws : List Token}
    → OrTail l ts m us
    → us ≡ or_tok ∷ vs
    → AndExpr vs r ws
    → OrTail l ts (or_node m r) ws
OrTail-snoc (or_stop e d) q a = OrTail-one e (d ∙ q) a
OrTail-snoc (or_more b o) q a = or_more b (OrTail-snoc o q a)

AndTail-one :
    {l m r : Node} {ts vs ws : List Token}
    → l ≡ m
    → ts ≡ and_tok ∷ vs
    → Unary vs r ws
    → AndTail l ts (and_node m r) ws
AndTail-one {l} {m} {r} {ws} e d a =
    subst (λ us. AndTail l us (and_node m r) ws) (sym d)
      (and_more a (and_stop (ap (λ n. and_node n r) e) refl))

AndTail-snoc :
    {l m r : Node} {ts us vs ws : List Token}
    → AndTail l ts m us
    → us ≡ and_tok ∷ vs
    → Unary vs r ws
    → AndTail l ts (and_node m r) ws
AndTail-snoc (and_stop e d) q a = AndTail-one e (d ∙ q) a
AndTail-snoc (and_more b o) q a = and_more b (AndTail-snoc o q a)

OrExpr-or :
    {l r : Node} {ts vs ws : List Token}
    → OrExpr ts l (or_tok ∷ vs)
    → AndExpr vs r ws
    → OrExpr ts (or_node l r) ws
OrExpr-or (disjunction a o) b = disjunction a (OrTail-snoc o refl b)

AndExpr-and :
    {l r : Node} {ts vs ws : List Token}
    → AndExpr ts l (and_tok ∷ vs)
    → Unary vs r ws
    → AndExpr ts (and_node l r) ws
AndExpr-and (conjunction u a) b = conjunction u (AndTail-snoc a refl b)

parens-Unary :
    {n : Node} (ts rest : List Token)
    → ((us : List Token) → OrExpr (ts ++ us) n us)
    → Unary (parens ts ++ rest) n rest
parens-Unary ts rest h =
    simple (group (rw (append_assoc ts (rparen ∷ []) rest) (h (rparen ∷ rest))))

-- An expression, or the same in parentheses.
place_or-At :
    (p : Place) {n : Node} (ts rest : List Token)
    → ((us : List Token) → OrExpr (ts ++ us) n us)
    → At p (place_or p ts ++ rest) n rest
place_or-At alone ts rest h = h rest
place_or-At beside_or ts rest h = Unary→At beside_or (parens-Unary ts rest h)
place_or-At beside_and ts rest h = parens-Unary ts rest h

place_and-At :
    (p : Place) {n : Node} (ts rest : List Token)
    → ((us : List Token) → AndExpr (ts ++ us) n us)
    → At p (place_and p ts ++ rest) n rest
place_and-At alone ts rest h = disjunction (h rest) (or_stop refl refl)
place_and-At beside_or ts rest h = h rest
place_and-At beside_and ts rest h =
    parens-Unary ts rest (λ us. disjunction (h us) (or_stop refl refl))

module _ (spell : Term → Text) where
  print-At :
      (n : Node) (p : Place) (rest : List Token)
      → IsPrintable spell n
      → At p (print spell p n ++ rest) n rest
  unfolding print
  print-At match_all p rest h = absurd h
  print-At (leaf t) p rest h = Unary→At p (simple (word h.0))
  print-At (not_node n) p rest h = Unary→At p (negation (print-At n beside_and rest h))
  print-At (or_node l r) p rest h = place_or-At p _ rest λ us.
      rw (append_assoc (print spell alone l) (or_tok ∷ print spell beside_or r) us) (
        OrExpr-or (print-At l alone (or_tok ∷ print spell beside_or r ++ us) h.0)
          (print-At r beside_or us h.1))
  print-At (and_node l r) p rest h = place_and-At p _ rest λ us.
      rw (append_assoc (print spell beside_or l) (and_tok ∷ print spell beside_and r) us) (
        AndExpr-and (print-At l beside_or (and_tok ∷ print spell beside_and r ++ us) h.0)
          (print-At r beside_and us h.1))

  parens-IsToken : (ts : List Token) → All IsToken ts → All IsToken (parens ts)
  parens-IsToken ts h = (tt, All-append IsToken ts (rparen ∷ []) h (tt, tt))

  print-IsToken : (n : Node) (p : Place) → IsPrintable spell n → All IsToken (print spell p n)
  unfolding print
  print-IsToken match_all p h = absurd h
  print-IsToken (leaf t) p h = (h.1, tt)
  print-IsToken (not_node n) p h = (tt, print-IsToken n beside_and h)
  print-IsToken (or_node l r) p h = place p _ (
      All-append IsToken (print spell alone l) _ (print-IsToken l alone h.0)
        (tt, print-IsToken r beside_or h.1))
    where
      place : (p : Place) (ts : List Token) → All IsToken ts → All IsToken (place_or p ts)
      place alone ts w = w
      place _ ts w = parens-IsToken ts w
  print-IsToken (and_node l r) p h = place p _ (
      All-append IsToken (print spell beside_or l) _ (print-IsToken l beside_or h.0)
        (tt, print-IsToken r beside_and h.1))
    where
      place : (p : Place) (ts : List Token) → All IsToken ts → All IsToken (place_and p ts)
      place beside_and ts w = parens-IsToken ts w
      place _ ts w = w

  -- For every tree whose leaves the given spelling writes as one word each, no operator among
  -- them, that parseTerm reads as the leaf: Parse of its printed text is that tree. The tree is
  -- not the empty query and does not hold it.
  pub parse-render-print :
      (n : Node) → IsPrintable spell n → parse (render (print spell alone n)) ≡ ok n
  unfolding parse
  parse-render-print n h = rw (lex-render (print spell alone n) (print-IsToken n alone h)) (
      (parse_tokens_iff (print spell alone n) n).1
        (expression (subst (λ ts. OrExpr ts n []) (append-nil _) (print-At n alone [] h))))
