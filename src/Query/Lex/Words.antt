-- ===== src/Query/Lex/Words.antt =====
-- The texts that the lexer takes for one word: bytes that neither end a word nor open a group, and
-- groups from a quote to the next quote or from `[` to the next `]`.
use mathlib.Core.List.{append_assoc}
use archer.Prelude.{
  ℕ, zero, suc, ◌+◌, ◌<◌, ◌≡◌, ◌≢◌, ◌⊎◌, inl, inr, refl, true, false, Option, some, none, [], ◌∷◌,
  ◌++◌, Text, length, ◌==◌, arith, All, length-append, ap, ==_iff, if_intro,
}
use archer.Query.Token.{Returns, bind-Returns, Error, Result, ok}
use archer.Query.Lex.{consed, scan_to, take_term, after_scan, is_break}

abbrev pub Without : ℕ → Text → Type 0
Without d = All (λ c. c ≢ d)

-- the byte that closes a group
abbrev pub Closes : ℕ → ℕ → Type 0
Closes c d = ((c ≡ b'"') × (d ≡ b'"')) ⊎ ((c ≡ b'[') × (d ≡ b']'))

pub data TermText : Text → Type 0 where
  done : TermText []
  plain :
      {c : ℕ} {t : Text} → is_break c ≡ false → c ≢ b'"' → c ≢ b'[' → TermText t → TermText (c ∷ t)
  group :
      {s : Text} (c d : ℕ) (body t : Text)
      → Closes c d
      → Without d body
      → s ≡ c ∷ body ++ (d ∷ t)
      → TermText t
      → TermText s

-- the end of the input, or a byte that ends a word
abbrev pub Ends : Text → Type 0
Ends [] = Unit
Ends (c ∷ r) = is_break c ≡ true

scan_to_group :
    (d : ℕ) (body t : Text)
    → Without d body
    → scan_to d (body ++ (d ∷ t)) ≡ some (body ++ (d ∷ []), t)
unfolding scan_to
scan_to_group d [] t h = ground arith
scan_to_group d (c ∷ body) t h = ground (arith, h.0, scan_to_group d body t h.1)

-- What a scan returns is a body without the closing byte, that byte, and the rest of the input.
record Scanned (d : ℕ) (r t rest : Text) : Type 0 where
  body : Text
  without : Without d body
  text_eq : t ≡ body ++ (d ∷ [])
  input_eq : r ≡ body ++ (d ∷ rest)

abbrev ScanGives : ℕ → Text → Option (Text × Text) → Type 0
ScanGives d r none = Unit
ScanGives d r (some (t, rest)) = Scanned d r t rest

scan_to-ScanGives : (d : ℕ) (r : Text) → ScanGives d r (scan_to d r)
unfolding scan_to
scan_to-ScanGives d [] = tt
scan_to-ScanGives d (c ∷ r) =
    if_intro (ScanGives d (c ∷ r)) (c == d)
      (λ e. record { body = []; without = tt; text_eq = ground arith; input_eq = ground arith })
      (λ e. later (ground arith) (scan_to d r) (scan_to-ScanGives d r))
  where
    later : c ≢ d → (o : Option (Text × Text)) → ScanGives d r o → ScanGives d (c ∷ r) (consed c o)
    later n none sc = tt
    later n (some (u, v)) sc = record {
      body = c ∷ sc.body;
      without = (n, sc.without);
      text_eq = ground (arith, sc.text_eq);
      input_eq = ground (arith, sc.input_eq);
    }

module _ (start f : ℕ) where
  take_term_quote :
      (body t rest : Text)
      → Without b'"' body
      → take_term f start (t ++ rest) ≡ ok (t, rest)
      → take_term (suc f) start (b'"' ∷ (body ++ (b'"' ∷ t)) ++ rest)
        ≡ ok (b'"' ∷ body ++ (b'"' ∷ t), rest)
  unfolding take_term
  take_term_quote body t rest n ih =
      rw (append_assoc body (b'"' ∷ t) rest, scan_to_group b'"' body (t ++ rest) n, ih)
        (rw (append_assoc body (b'"' ∷ []) t))

  take_term_range :
      (body t rest : Text)
      → Without b']' body
      → take_term f start (t ++ rest) ≡ ok (t, rest)
      → take_term (suc f) start (b'[' ∷ (body ++ (b']' ∷ t)) ++ rest)
        ≡ ok (b'[' ∷ body ++ (b']' ∷ t), rest)
  unfolding take_term
  take_term_range body t rest n ih =
      rw (append_assoc body (b']' ∷ t) rest, scan_to_group b']' body (t ++ rest) n, ih)
        (rw (append_assoc body (b']' ∷ []) t))

  take_term_group :
      (c d : ℕ) (body t rest : Text)
      → Closes c d
      → Without d body
      → take_term f start (t ++ rest) ≡ ok (t, rest)
      → take_term (suc f) start (c ∷ (body ++ (d ∷ t)) ++ rest) ≡ ok (c ∷ body ++ (d ∷ t), rest)
  take_term_group c d body t rest (inl (p, q)) n ih =
      rw (p, q) (take_term_quote body t rest (rw q at n) ih)
  take_term_group c d body t rest (inr (p, q)) n ih =
      rw (p, q) (take_term_range body t rest (rw q at n) ih)

module _ (start : ℕ) where
  -- A word in front of an end is taken whole, and nothing else.
  pub take_term_word :
      (f : ℕ) {t : Text} (rest : Text)
      → TermText t
      → Ends rest
      → length t + length rest < f
      → take_term f start (t ++ rest) ≡ ok (t, rest)
  unfolding take_term
  take_term_word zero rest w e h = absurd (omega arith)
  take_term_word (suc f) [] done e h = refl
  take_term_word (suc f) (c ∷ r) done e h = rw e
  take_term_word (suc f) rest (plain {c} {t} b q k w) e h =
      let ih = take_term_word f rest w e (omega arith) in ground (arith, ih)
  take_term_word (suc f) rest (group c d body t k n eq w) e h = rw eq (
      take_term_group start f c d body t rest k n
        (take_term_word f rest w e (omega (arith, ap length eq, length-append body (d ∷ t)))))

-- What is taken is a word, and what is left is an end.
pub record Taken (r : Text) (a : Text × Text) : Type 0 where
  pub is_word : TermText a.0
  pub ends : Ends a.1
  pub input_eq : r ≡ a.0 ++ a.1

after_scan-Taken :
    (e : Error) (c d : ℕ) (r : Text) (next : Text → Result (Text × Text)) (o : Option (Text × Text))
    → Closes c d
    → ScanGives d r o
    → ((rest : Text) → length rest < length r → Returns (Taken rest) (next rest))
    → Returns (Taken (c ∷ r)) (after_scan e c next o)
after_scan-Taken e c d r next none k sc ih = tt
after_scan-Taken e c d r next (some (s, rest)) k sc ih =
    bind-Returns (Taken rest) (Taken (c ∷ r)) (next rest) _
      (ih rest (omega (arith, ap length sc.input_eq, length-append sc.body (d ∷ rest))))
      λ a t. record {
        is_word =
            group c d sc.body a.0 k sc.without
              (rw sc.text_eq (ap (λ (u : Text). c ∷ u) (append_assoc sc.body (d ∷ []) a.0)))
              t.is_word;
        ends = t.ends;
        input_eq = rw (sc.input_eq, sc.text_eq, t.input_eq) (simp append_assoc);
      }

pub take_term-Taken :
    (f start : ℕ) (r : Text) → length r < f → Returns (Taken r) (take_term f start r)
unfolding take_term
take_term-Taken zero start r h = absurd (omega arith)
take_term-Taken (suc f) start [] h = record { is_word = done; ends = tt; input_eq = refl }
take_term-Taken (suc f) start (c ∷ r) h =
    if_intro (Returns (Taken (c ∷ r))) (is_break c)
      (λ b. record { is_word = done; ends = b; input_eq = refl })
      λ b.
        if_intro (Returns (Taken (c ∷ r))) (c == b'"')
          (λ q.
            after_scan-Taken _ c b'"' r _ _ (inl ((==_iff c _).0 q, refl))
              (scan_to-ScanGives b'"' r) λ rest l. take_term-Taken f start rest (omega arith))
          λ q.
            if_intro (Returns (Taken (c ∷ r))) (c == b'[')
              (λ k.
                after_scan-Taken _ c b']' r _ _ (inr ((==_iff c _).0 k, refl))
                  (scan_to-ScanGives b']' r) λ rest l. take_term-Taken f start rest (omega arith))
              λ k.
                bind-Returns (Taken r) (Taken (c ∷ r)) (take_term f start r) _
                  (take_term-Taken f start r (omega arith))
                  λ a t. record {
                    is_word = plain b (ground arith) (ground arith) t.is_word;
                    ends = t.ends;
                    input_eq = ap (λ (u : Text). c ∷ u) t.input_eq;
                  }
