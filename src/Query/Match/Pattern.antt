-- ===== src/Query/Match/Pattern.antt =====
-- stringPatternMatch looks for an occurrence of its pattern, with wildcards or without.
use archer.Prelude.{
  ℕ, ◌≡◌, ◌≢◌, ◌↔◌, inl, inr, refl, sym, ◌∙◌, ap, true, false, ◌||◌, [], ◌∷◌, ◌++◌, Text, ◌==◌, All,
  to_lower, to_lower_byte, has_prefix, contains, arith, Bool-cases,
}
use archer.Glob.Spec.{Globs, end, one, leave, take, StarFree}
use archer.Glob.Correct.{glob_match_iff, glob_fold-eq-glob_match}
use archer.Query.Match.{string_pattern_match, is_wild}

-- A part of the subject that the pattern stands for.
pub record Occurs (p s : Text) : Type 0 where
  pub before : Text
  pub middle : Text
  pub after : Text
  pub split_eq : s ≡ before ++ (middle ++ after)
  pub matched : Globs p middle

Globs-star_any : (s : Text) → Globs (b'*' ∷ []) s
Globs-star_any [] = leave refl end
Globs-star_any (c ∷ s) = take refl (Globs-star_any s)

Globs-append : {p a : Text} (q b : Text) → Globs p a → Globs q b → Globs (p ++ q) (a ++ b)
Globs-append q b end h = h
Globs-append q b (one t n g) h = one t n (Globs-append q b g h)
Globs-append q b (leave e g) h = leave e (Globs-append q b g h)
Globs-append q b (take e g) h = take e (Globs-append q b g h)

-- A match of two patterns in a row is a match of each.
record Splits (p q s : Text) : Type 0 where
  left : Text
  right : Text
  split_eq : s ≡ left ++ right
  left_matched : Globs p left
  right_matched : Globs q right

Splits-cons :
    {c : ℕ} {p r q s : Text}
    → Splits p q s
    → ((t : Text) → Globs p t → Globs r (c ∷ t))
    → Splits r q (c ∷ s)
Splits-cons {c} sp k = record {
  left = c ∷ sp.left;
  right = sp.right;
  split_eq = ap (λ (t : Text). c ∷ t) sp.split_eq;
  left_matched = k sp.left sp.left_matched;
  right_matched = sp.right_matched;
}

Globs-Splits : (p q : Text) {r s : Text} → Globs r s → r ≡ p ++ q → Splits p q s
Globs-Splits [] q {s} g e = record {
  left = [];
  right = s;
  split_eq = refl;
  left_matched = end;
  right_matched = rw e at g;
}
Globs-Splits (y ∷ p) q end e = cc
Globs-Splits (y ∷ p) q (one {x} t n g) e =
    let same : x ≡ y = ground arith in
    Splits-cons (Globs-Splits p q g (ground arith)) λ u h. one (rw same at t) (rw same at n) h
Globs-Splits (y ∷ p) q (leave {x} d g) e =
    let same : x ≡ y = ground arith in
    let sp = Globs-Splits p q g (ground arith) in
    record {
      left = sp.left;
      right = sp.right;
      split_eq = sp.split_eq;
      left_matched = leave (sym same ∙ d) sp.left_matched;
      right_matched = sp.right_matched;
    }
Globs-Splits (y ∷ p) q (take {x} d g) e =
    let same : x ≡ y = ground arith in
    Splits-cons (Globs-Splits (y ∷ p) q g e) λ u h. take (sym same ∙ d) h

-- What follows the byte that a star before p took.
star_prefix :
    (p : Text) {r s : Text} → Globs r s → r ≡ b'*' ∷ p → (u v : Text) × (s ≡ u ++ v) × Globs p v
star_prefix p end e = cc
star_prefix p (one {x} t n g) e = absurd (n (ground arith))
star_prefix p (leave {p = r} {s} d g) e =
    let same : r ≡ p = ground arith in ([], s, refl, rw same at g)
star_prefix p (take {c} d g) e =
    let (u, v, q, h) = star_prefix p g e in (c ∷ u, v, ap (λ (t : Text). c ∷ t) q, h)

Globs-surround : (p u m v : Text) → Globs p m → Globs (b'*' ∷ p ++ (b'*' ∷ [])) (u ++ (m ++ v))
Globs-surround p [] m v g = leave refl (Globs-append (b'*' ∷ []) v g (Globs-star_any v))
Globs-surround p (c ∷ u) m v g = take refl (Globs-surround p u m v g)

surrounded_iff : (p s : Text) → Globs (b'*' ∷ p ++ (b'*' ∷ [])) s ↔ Occurs p s
surrounded_iff p s =
    (found, λ o. rw o.split_eq (Globs-surround p o.before o.middle o.after o.matched))
  where
    found : Globs (b'*' ∷ p ++ (b'*' ∷ [])) s → Occurs p s
    found g =
        let (u, v, e, h) = star_prefix (p ++ (b'*' ∷ [])) g refl in
        let sp = Globs-Splits p (b'*' ∷ []) h refl in
        record {
          before = u;
          middle = sp.left;
          after = sp.right;
          split_eq = e ∙ ap (λ (t : Text). u ++ t) sp.split_eq;
          matched = sp.left_matched;
        }

-- A pattern without wildcards stands for itself alone.
abbrev Literal : Text → Type 0
Literal = All (λ c. (c ≢ b'*') × (c ≢ b'?'))

Literal-Globs : (p s : Text) → Literal p → Globs p s → s ≡ p
Literal-Globs [] s l end = refl
Literal-Globs (x ∷ p) s l (one {c} {s = t} h n g) =
    ground (arith, l.0.1, h, Literal-Globs p t l.1 g)
Literal-Globs (x ∷ p) s l (leave d g) = absurd (l.0.0 d)
Literal-Globs (x ∷ p) s l (take d g) = absurd (l.0.0 d)

Globs-Literal : (p : Text) → Literal p → Globs p p
Globs-Literal [] l = end
Globs-Literal (x ∷ p) l = one (inr refl) l.0.0 (Globs-Literal p l.1)

has_prefix_sound : (s p : Text) → has_prefix s p ≡ true → (v : Text) × (s ≡ p ++ v)
has_prefix_sound s [] h = (s, refl)
has_prefix_sound [] (y ∷ p) h = cc
has_prefix_sound (c ∷ s) (y ∷ p) h =
    let (v, e) = has_prefix_sound s p (ground arith) in (v, ground (arith, e))

has_prefix-append : (p v : Text) → has_prefix (p ++ v) p ≡ true
has_prefix-append [] v = refl
has_prefix-append (x ∷ p) v = ground (arith, has_prefix-append p v)

contains-append : (u p v : Text) → contains (u ++ (p ++ v)) p ≡ true
contains-append [] [] [] = refl
contains-append [] [] (c ∷ v) = refl
contains-append [] (x ∷ p) v = ground (arith, has_prefix-append p v)
contains-append (c ∷ u) p v = ground (arith, contains-append u p v)

contains_sound : (s p : Text) → contains s p ≡ true → (u v : Text) × (s ≡ u ++ (p ++ v))
contains_sound [] [] h = ([], [], refl)
contains_sound [] (x ∷ p) h = cc
contains_sound (c ∷ s) p h = elim (Bool-cases (has_prefix (c ∷ s) p)) [
  | inl e ↦ let (v, q) = has_prefix_sound (c ∷ s) p e in ([], v, q)
  | inr e ↦
      let (u, v, q) = contains_sound s p (ground arith) in (c ∷ u, v, ap (λ (t : Text). c ∷ t) q)
]

contains_iff : (s p : Text) → Literal p → (contains s p ≡ true) ↔ Occurs p s
contains_iff s p l = (
  λ h.
      let (u, v, e) = contains_sound s p h in
      record { before = u; middle = p; after = v; split_eq = e; matched = Globs-Literal p l },
  λ o. rw (o.split_eq, Literal-Globs p o.middle l o.matched) (contains-append o.before p o.after),
)

lower_wild :
    (c : ℕ) → (c == b'*' || c == b'?') ≡ false → (to_lower_byte c ≢ b'*') × (to_lower_byte c ≢ b'?')
unfolding to_lower_byte
lower_wild c h = ground arith

Literal-to_lower : (p : Text) → is_wild p ≡ false → Literal (to_lower p)
unfolding to_lower
Literal-to_lower [] h = tt
Literal-to_lower (c ∷ p) h = (lower_wild c (ground arith), Literal-to_lower p (ground arith))

to_lower-append : (s t : Text) → to_lower (s ++ t) ≡ to_lower s ++ to_lower t
unfolding to_lower
to_lower-append [] t = refl
to_lower-append (c ∷ s) t = ap (λ (u : Text). to_lower_byte c ∷ u) (to_lower-append s t)

to_lower-surround :
    (p : Text) → to_lower (b'*' ∷ p ++ (b'*' ∷ [])) ≡ b'*' ∷ to_lower p ++ (b'*' ∷ [])
unfolding to_lower to_lower_byte
to_lower-surround p = ap (λ (u : Text). b'*' ∷ u) (to_lower-append p (b'*' ∷ []))

-- On a star-free subject stringPatternMatch says whether some part of the lowered subject is one
-- that the lowered pattern stands for, by the wildcard loop and by the substring search alike.
pub string_pattern_match_iff :
    (s pattern : Text)
    → StarFree s
    → (string_pattern_match s pattern ≡ true) ↔ Occurs (to_lower pattern) (to_lower s)
unfolding string_pattern_match
string_pattern_match_iff s pattern h = elim (Bool-cases (is_wild pattern)) [
  | inl e ↦
      let (sound, complete) = glob_match_iff (b'*' ∷ pattern ++ (b'*' ∷ [])) s h in
      let (out, back) = surrounded_iff (to_lower pattern) (to_lower s) in
      rw (e, glob_fold-eq-glob_match)
        (
          λ q. out (rw to_lower-surround at (sound q)),
          λ o. complete (rw to_lower-surround (back o)),
        )
  | inr e ↦ rw e (contains_iff (to_lower s) (to_lower pattern) (Literal-to_lower pattern e))
]
