-- ===== src/Correlate/Order.antt =====
-- The order of strings that internal/analysis/correlate.go and stage.go compare timestamps by.
use archer.Prelude.{true, false, [], ◌∷◌, Text, ◌≡◌, refl, arith}
use archer.Correlate.{text_lt}

pub text_lt_irrefl : (s : Text) → text_lt s s ≡ false
unfolding text_lt
text_lt_irrefl [] = refl
text_lt_irrefl (c ∷ s) = ground (arith, text_lt_irrefl s)

pub text_lt_asym : (s t : Text) → text_lt s t ≡ true → text_lt t s ≡ false
unfolding text_lt
text_lt_asym [] [] h = refl
text_lt_asym (c ∷ s) [] h = cc
text_lt_asym [] (d ∷ t) h = refl
text_lt_asym (c ∷ s) (d ∷ t) h = ground (arith, h, text_lt_asym s t)

-- Not less is transitive.
pub text_lt_chain : (s t u : Text) → text_lt s t ≡ false → text_lt t u ≡ false → text_lt s u ≡ false
unfolding text_lt
text_lt_chain s t [] h k = refl
text_lt_chain [] [] (e ∷ u) h k = k
text_lt_chain (c ∷ s) [] (e ∷ u) h k = cc
text_lt_chain [] (d ∷ t) (e ∷ u) h k = cc
text_lt_chain (c ∷ s) (d ∷ t) (e ∷ u) h k = ground (arith, h, k, text_lt_chain s t u)
