-- ===== src/Query/Lex/RoundTrip.antt =====
-- Tokens written out, one space after each, are read back by the lexer; and what the lexer returns
-- are always tokens of that kind.
use archer.Prelude.{
  ℕ, zero, suc, ◌+◌, ◌-◌, ◌<◌, ◌≡◌, ◌≢◌, inl, inr, ◌⊎◌, refl, sym, ◌∙◌, false, List, [], ◌∷◌, ◌++◌,
  Text, codes, length, ◌==◌, arith, All, length-append, ap, if_intro, to_upper,
}
use archer.Query.Token.{
  Token, term, and_tok, or_tok, not_tok, lparen, rparen, Returns, bind-Returns, Returns-ok, Result,
  ok,
}
use archer.Query.Lex.{take_term, classify, lex_loop, lex, is_break, is_space}
use archer.Query.Lex.Words.{
  TermText, done, plain, group, Taken, take_term-Taken, take_term_word, Ends,
}

-- A text that the lexer takes for one word.
abbrev pub IsWord : Text → Type 0
IsWord t = TermText t × (t ≢ [])

-- The text of a term token is a word and no operator.
abbrev pub IsToken : Token → Type 0
IsToken (term t) = TermText t × (t ≢ []) × (classify t ≡ term t)
IsToken _ = Unit

unfoldable pub spell : Token → Text
spell (term t) = t
spell and_tok = codes "AND"
spell or_tok = codes "OR"
spell not_tok = codes "NOT"
spell lparen = codes "("
spell rparen = codes ")"

unfoldable pub render : List Token → Text
unfolding spell
render [] = []
render (k ∷ ts) = spell k ++ (b' ' ∷ render ts)

classify-IsToken : (t : Text) (k : Token) → IsWord t → classify t ≡ k → IsToken k
unfolding classify
classify-IsToken t (term s) w e =
    let same : t ≡ s = ground arith in (rw same at w.0, rw same at w.1, ap classify (sym same) ∙ e)
classify-IsToken t and_tok w e = tt
classify-IsToken t _ w e = tt

-- A word that starts with a byte that ends no word is not empty.
Taken-cons :
    (c : ℕ) (r t rest : Text)
    → c ∷ r ≡ t ++ rest
    → Ends rest
    → is_break c ≡ false
    → (t ≢ []) × (length rest < suc (length r))
Taken-cons c r [] [] e b n = cc
Taken-cons c r [] (x ∷ rest) e b n = ground arith
Taken-cons c r (x ∷ t) rest e b n = (λ k. cc, omega (arith, ap length e, length-append t rest))

lex_loop-IsToken : (f n : ℕ) (r : Text) → length r < f → Returns (All IsToken) (lex_loop f n r)
unfolding lex_loop
lex_loop-IsToken zero n r h = absurd (omega arith)
lex_loop-IsToken (suc f) n [] h = tt
lex_loop-IsToken (suc f) n (c ∷ r) h =
    let shorter = lex_loop-IsToken f n r (omega arith) in
    if_intro P (is_space c) (λ _. shorter)
      λ s.
        if_intro P (c == b'(') (λ _. bind-Returns Q Q (lex_loop f n r) _ shorter λ _ w. (tt, w))
          λ p.
            if_intro P (c == b')') (λ _. bind-Returns Q Q (lex_loop f n r) _ shorter λ _ w. (tt, w))
              λ q.
                bind-Returns (Taken (c ∷ r)) Q
                  (take_term (suc (length (c ∷ r))) (n - length (c ∷ r)) (c ∷ r)) _
                  (take_term-Taken (suc (length (c ∷ r))) (n - length (c ∷ r)) (c ∷ r)
                    (omega arith))
                  λ a t.
                    let (filled, less) = Taken-cons c r a.0 a.1 t.input_eq t.ends (ground arith) in
                    bind-Returns Q Q (lex_loop f n a.1) _ (lex_loop-IsToken f n a.1 (omega arith))
                      λ _ w. (classify-IsToken a.0 _ (t.is_word, filled) refl, w)
  where
    Q : List Token → Type 0
    Q = All IsToken

    P : Result (List Token) → Type 0
    P = Returns Q

-- On every input the lexer ends, and every term token that it returns is a word and no operator.
pub lex-IsToken : (input : Text) → Returns (All IsToken) (lex input)
unfolding lex
lex-IsToken input = lex_loop-IsToken (suc (length input)) (length input) input (omega arith)

TermText-first : (c : ℕ) (t : Text) → TermText (c ∷ t) → is_break c ≡ false
TermText-first c t (plain b q k w) = b
TermText-first c t (group x d body u (inl (p, q)) n e w) = ground arith
TermText-first c t (group x d body u (inr (p, q)) n e w) = ground arith

-- One word and a space in front of a text that the lexer reads.
lex_loop_word :
    (f n : ℕ) (t rest : Text) (ts : List Token)
    → IsWord t
    → length t + suc (length rest) < f
    → ((g : ℕ) → length rest < g → lex_loop g n rest ≡ ok ts)
    → lex_loop f n (t ++ (b' ' ∷ rest)) ≡ ok (classify t ∷ ts)
unfolding lex_loop
lex_loop_word f n [] rest ts w h k = absurd (w.1 refl)
lex_loop_word zero n (c ∷ t) rest ts w h k = absurd (omega arith)
lex_loop_word (suc zero) n (c ∷ t) rest ts w h k = absurd (omega arith)
lex_loop_word (suc (suc f)) n (c ∷ t) rest ts w h k =
    let next = k f (omega arith) in
    let whole =
      take_term_word (n - length (c ∷ t ++ (b' ' ∷ rest))) (suc (length (c ∷ t ++ (b' ' ∷ rest))))
        (b' ' ∷ rest) w.0 refl (omega (arith, length-append t (b' ' ∷ rest))) in
    let unbroken = TermText-first c t w.0 in
    rw (not_space c unbroken, not_open c unbroken, not_close c unbroken, whole, next)
  where
    not_space : (c : ℕ) → is_break c ≡ false → is_space c ≡ false
    not_space c u = ground arith

    not_open : (c : ℕ) → is_break c ≡ false → (c == b'(') ≡ false
    not_open c u = ground arith

    not_close : (c : ℕ) → is_break c ≡ false → (c == b')') ≡ false
    not_close c u = ground arith

-- A parenthesis and a space in front of a text that the lexer reads.
lex_loop_paren :
    (f n c : ℕ) (k : Token) (rest : Text) (ts : List Token)
    → ((c ≡ b'(') × (k ≡ lparen)) ⊎ ((c ≡ b')') × (k ≡ rparen))
    → suc (suc (length rest)) < f
    → ((g : ℕ) → length rest < g → lex_loop g n rest ≡ ok ts)
    → lex_loop f n (c ∷ b' ' ∷ rest) ≡ ok (k ∷ ts)
unfolding lex_loop
lex_loop_paren zero n c k rest ts e h l = absurd (omega arith)
lex_loop_paren (suc zero) n c k rest ts e h l = absurd (omega arith)
lex_loop_paren (suc (suc f)) n c k rest ts (inl (p, q)) h l = rw (p, q, l f (omega arith))
lex_loop_paren (suc (suc f)) n c k rest ts (inr (p, q)) h l = rw (p, q, l f (omega arith))

keyword_IsWord : (IsWord (codes "AND")) × (IsWord (codes "OR")) × IsWord (codes "NOT")
keyword_IsWord = (
  (letter refl refl refl (letter refl refl refl (letter refl refl refl done)), λ e. cc),
  (letter refl refl refl (letter refl refl refl done), λ e. cc),
  (letter refl refl refl (letter refl refl refl (letter refl refl refl done)), λ e. cc),
)
  where
    letter :
        {c : ℕ} {t : Text}
        → is_break c ≡ false
        → (c == b'"') ≡ false
        → (c == b'[') ≡ false
        → TermText t
        → TermText (c ∷ t)
    letter b q k w = plain b (ground arith) (ground arith) w

keyword_classify :
    (classify (codes "AND") ≡ and_tok)
    × (classify (codes "OR") ≡ or_tok)
    × (classify (codes "NOT") ≡ not_tok)
unfolding classify to_upper
keyword_classify = (refl, refl, refl)

lex_loop-render :
    (ts : List Token) (n f : ℕ)
    → All IsToken ts
    → length (render ts) < f
    → lex_loop f n (render ts) ≡ ok ts
unfolding lex_loop render
lex_loop-render [] n zero w h = absurd (omega arith)
lex_loop-render [] n (suc f) w h = refl
lex_loop-render (term t ∷ ts) n f w h =
    let rest =
      lex_loop_word f n t (render ts) ts (w.0.0, w.0.1)
        (omega (arith, length-append t (b' ' ∷ render ts))) (λ g l. lex_loop-render ts n g w.1 l) in
    rw w.0.2 at rest
lex_loop-render (and_tok ∷ ts) n f w h = rw keyword_classify.0 at (
    lex_loop_word f n (codes "AND") (render ts) ts keyword_IsWord.0 (omega arith)
      (λ g l. lex_loop-render ts n g w.1 l))
lex_loop-render (or_tok ∷ ts) n f w h = rw keyword_classify.1 at (
    lex_loop_word f n (codes "OR") (render ts) ts keyword_IsWord.1 (omega arith)
      (λ g l. lex_loop-render ts n g w.1 l))
lex_loop-render (not_tok ∷ ts) n f w h = rw keyword_classify.2 at (
    lex_loop_word f n (codes "NOT") (render ts) ts keyword_IsWord.2 (omega arith)
      (λ g l. lex_loop-render ts n g w.1 l))
lex_loop-render (lparen ∷ ts) n f w h =
    lex_loop_paren f n b'(' lparen (render ts) ts (inl (refl, refl)) (omega arith)
      (λ g l. lex_loop-render ts n g w.1 l)
lex_loop-render (rparen ∷ ts) n f w h =
    lex_loop_paren f n b')' rparen (render ts) ts (inr (refl, refl)) (omega arith)
      (λ g l. lex_loop-render ts n g w.1 l)

-- Tokens of which each term token has a text that is a word and no operator are read back from
-- their rendering.
pub lex-render : (ts : List Token) → All IsToken ts → lex (render ts) ≡ ok ts
unfolding lex
lex-render ts w = lex_loop-render ts (length (render ts)) (suc (length (render ts))) w (omega arith)

-- If the lexer returns tokens for an input, it returns the same tokens for their rendering.
pub lex-render-lex : (input : Text) (ts : List Token) → lex input ≡ ok ts → lex (render ts) ≡ ok ts
lex-render-lex input ts e =
    lex-render ts (Returns-ok (All IsToken) (lex input) e (lex-IsToken input))
