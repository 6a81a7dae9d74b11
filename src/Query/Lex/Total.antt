-- ===== src/Query/Lex/Total.antt =====
-- The lexer always ends: each round of its loops takes a byte.
use archer.Prelude.{
  ℕ, zero, suc, ◌-◌, ◌≤◌, ◌<◌, ◌≡◌, ◌≢◌, false, Option, some, none, List, [], ◌∷◌, Text, length,
  ◌==◌, arith, if_intro, Bool-cases, inl, inr,
}
use archer.Query.Token.{
  Token, Error, Result, fuel_out, Returns, Returns-mono, Returns-ne, bind-Returns,
}
use archer.Query.Lex.{consed, scan_to, take_term, after_scan, lex_loop, lex, is_break, is_space}

-- What is left after a scan is shorter.
abbrev Shorter : Text → Option (Text × Text) → Type 0
Shorter r none = Unit
Shorter r (some (t, rest)) = length rest < length r

scan_to-Shorter : (close : ℕ) (r : Text) → Shorter r (scan_to close r)
unfolding scan_to
scan_to-Shorter close [] = tt
scan_to-Shorter close (c ∷ r) =
    if_intro (Shorter (c ∷ r)) (c == close) (λ _. omega arith)
      (λ _. weaken (scan_to close r) (scan_to-Shorter close r))
  where
    weaken : (o : Option (Text × Text)) → Shorter r o → Shorter (c ∷ r) (consed c o)
    weaken none h = tt
    weaken (some (t, rest)) h = omega arith

abbrev Leaves : ℕ → Text × Text → Type 0
Leaves n a = length a.1 ≤ n

after_scan-Returns :
    (e : Error) (c : ℕ) (r : Text) (next : Text → Result (Text × Text)) (o : Option (Text × Text))
    → Shorter r o
    → ((rest : Text) → length rest < length r → Returns (Leaves (length rest)) (next rest))
    → Returns (Leaves (length r)) (after_scan e c next o)
after_scan-Returns e c r next none h k = tt
after_scan-Returns e c r next (some (t, rest)) h k =
    bind-Returns (Leaves (length rest)) (Leaves (length r)) (next rest) _ (k rest h)
      λ a d. omega arith

-- The rest of a term from c on, where c does not end it.
module _ (f start : ℕ)
    (next : (r : Text) → length r < f → Returns (Leaves (length r)) (take_term f start r)) where
  take_term-cons :
      (c : ℕ) (r : Text)
      → length r < f
      → is_break c ≡ false
      → Returns (Leaves (length r)) (take_term (suc f) start (c ∷ r))
  unfolding take_term
  take_term-cons c r h n = rw n (
      if_intro P (c == b'"') (λ _. after_scan-Returns _ c r _ _ (scan_to-Shorter b'"' r) onward)
        (λ _.
          if_intro P (c == b'[') (λ _. after_scan-Returns _ c r _ _ (scan_to-Shorter b']' r) onward)
            (λ _.
              bind-Returns (Leaves (length r)) (Leaves (length r)) (take_term f start r) _
                (next r h) λ a d. d)))
    where
      P : Result (Text × Text) → Type 0
      P = Returns (Leaves (length r))

      onward :
          (rest : Text)
          → length rest < length r
          → Returns (Leaves (length rest)) (take_term f start rest)
      onward rest l = next rest (omega arith)

take_term-Returns :
    (f start : ℕ) (r : Text) → length r < f → Returns (Leaves (length r)) (take_term f start r)
unfolding take_term
take_term-Returns zero start r h = absurd (omega arith)
take_term-Returns (suc f) start [] h = omega arith
take_term-Returns (suc f) start (c ∷ r) h = elim (Bool-cases (is_break c)) [
  | inl e ↦ rw e (omega arith)
  | inr e ↦
      Returns-mono (Leaves (length r)) (Leaves (suc (length r))) (take_term (suc f) start (c ∷ r))
        (λ a d. omega arith)
        (take_term-cons f start (take_term-Returns f start) c r (omega arith) e)
]

-- The outer loop takes at least one byte of the input in each round.
lex_loop-Returns : (f n : ℕ) (r : Text) → length r < f → Returns (λ _. Unit {0}) (lex_loop f n r)
unfolding lex_loop
lex_loop-Returns zero n r h = absurd (omega arith)
lex_loop-Returns (suc f) n [] h = tt
lex_loop-Returns (suc f) n (c ∷ r) h =
    let shorter = lex_loop-Returns f n r (omega arith) in
    if_intro P (is_space c) (λ _. shorter)
      λ s.
        if_intro P (c == b'(') (λ _. bind-Returns Q Q (lex_loop f n r) _ shorter λ _ _. tt)
          λ p.
            if_intro P (c == b')') (λ _. bind-Returns Q Q (lex_loop f n r) _ shorter λ _ _. tt)
              λ q.
                bind-Returns (Leaves (length r)) Q
                  (take_term (suc (length (c ∷ r))) (n - length (c ∷ r)) (c ∷ r)) _
                  (take_term-cons (suc (length r)) (n - length (c ∷ r))
                    (take_term-Returns (suc (length r)) (n - length (c ∷ r))) c r (omega arith)
                    (ground arith))
                  λ a d.
                    bind-Returns Q Q (lex_loop f n a.1) _ (lex_loop-Returns f n a.1 (omega arith))
                      λ _ _. tt
  where
    Q : List Token → Type 0
    Q _ = Unit

    P : Result (List Token) → Type 0
    P = Returns Q

-- On no input does the lexer run out of fuel.
pub lex_total : (input : Text) → lex input ≢ fuel_out
unfolding lex
lex_total input =
    Returns-ne (λ _. Unit {0}) (lex input)
      (lex_loop-Returns (suc (length input)) (length input) input (omega arith))
