-- ===== src/Glob/Correct.antt =====
-- The wildcard loop stops within its fuel and answers the specification of Glob/Spec.
use archer.Prelude.{
  to_lower, to_lower_byte, ap, ℕ, zero, suc, ◌+◌, ◌*◌, ◌≤◌, ◌<◌, ◌≡◌, ◌≢◌, ◌⊎◌, inl, inr, refl,
  Bool, true, false, ◌||◌, Option, some, none, [], ◌∷◌, Text, length, ◌==◌, if◌then◌else◌,
  Bool-cases, ==_iff, arith, ◌↔◌, sym, ◌∙◌, Option-cases,
}
use archer.Glob.{
  answer, glob_match, glob_fold, only_stars, Saved, retry, glob_loop, glob_fuel, glob_run,
}
use archer.Glob.Spec.{
  Globs, end, one, leave, take, StarFree, Globs-one_inv, Globs-star_inv, Globs-star_nil,
  Globs-cons_nil, Globs-drop_one, Globs-two_stars,
}

only_stars-Globs : (p : Text) → only_stars p ≡ true → Globs p []
unfolding only_stars
only_stars-Globs [] h = end
only_stars-Globs (x ∷ p) h = leave (ground arith) (only_stars-Globs p (ground arith))

Globs-only_stars : (p : Text) → Globs p [] → only_stars p ≡ true
unfolding only_stars
Globs-only_stars [] g = refl
Globs-only_stars (x ∷ p) g =
    let e = Globs-cons_nil g in let rest = Globs-only_stars p (Globs-star_nil g) in ground arith

-- The three ways that a round with bytes on both sides can go.
data Round (x c : ℕ) : Bool → Bool → Type 0 where
  item : {b : Bool} → (x ≡ b'?') ⊎ (x ≡ c) → Round x c true b
  star : x ≡ b'*' → x ≢ c → Round x c false true
  miss : x ≢ b'?' → x ≢ c → x ≢ b'*' → Round x c false false

round : (x c : ℕ) → Round x c (x == b'?' || x == c) (x == b'*')
round x c = elim (Bool-cases (x == b'?')) [
  | inl q ↦ rw q (item (inl ((==_iff x b'?').0 q)))
  | inr q ↦ elim (Bool-cases (x == c)) [
    | inl l ↦ rw (q, l) (item (inr ((==_iff x c).0 l)))
    | inr l ↦ elim (Bool-cases (x == b'*')) [
      | inl s ↦ rw (q, l, s) (star (ground arith) (ground arith))
      | inr s ↦ rw (q, l, s) (miss (ground arith) (ground arith) (ground arith))
    ]
  ]
]

module _ {x c : ℕ} (P : Option Bool → Type 0) (onward starred retried : Option Bool) where
  round_result :
      {b d : Bool}
      → Round x c b d
      → ((x ≡ b'?') ⊎ (x ≡ c) → P onward)
      → (x ≡ b'*' → x ≢ c → P starred)
      → (x ≢ b'?' → x ≢ c → x ≢ b'*' → P retried)
      → P (if b then onward else if d then starred else retried)
  round_result (item t) o s r = o t
  round_result (star e n) o s r = s e n
  round_result (miss q l n) o s r = r q l n

-- The loop has an answer while the fuel pays for the text that is left to retry.
record Fits (f m k : ℕ) (p s : Text) : Type 0 where
  text : length s ≤ m
  pattern_below : length p < k
  pays : m * k + length p < f

abbrev SavedFits : ℕ → ℕ → Text → Saved → Type 0
SavedFits m k s none = Unit
SavedFits m k s (some (bp, bs)) = (length s ≤ length bs) × (length bs ≤ m) × (length bp < k)

module _ (k : ℕ) where
  retry_total :
      (f m : ℕ) (c : ℕ) (p s : Text) (saved : Saved) (next : Text → Text → Saved → Option Bool)
      → ((m' : ℕ) (p' s' : Text) (v : Saved)
          → Fits f m' k p' s'
          → SavedFits m' k s' v
          → next p' s' v ≢ none)
      → Fits (suc f) m k p (c ∷ s)
      → SavedFits m k (c ∷ s) saved
      → retry next saved ≢ none
  unfolding retry
  retry_total f m c p s none next ih h v = λ e. cc
  retry_total f m c p s (some (bp, [])) next ih h v = absurd (omega arith)
  retry_total f zero c p s (some (bp, b ∷ bs)) next ih h v = absurd (omega arith)
  retry_total f (suc m) c p s (some (bp, b ∷ bs)) next ih h v =
      ih m bp bs (some (bp, bs)) (omega arith) (omega arith)

  loop_total :
      (f m : ℕ) (p s : Text) (saved : Saved)
      → Fits f m k p s
      → SavedFits m k s saved
      → glob_loop f p s saved ≢ none
  unfolding glob_loop
  loop_total zero m p s saved h v = absurd (omega arith)
  loop_total (suc f) m p [] saved h v = λ e. cc
  loop_total (suc f) m [] (c ∷ s) saved h v =
      retry_total f m c [] s saved (glob_loop f) (loop_total f) h v
  loop_total (suc f) m (x ∷ p) (c ∷ s) saved h v =
      round_result (λ r. r ≢ none) _ _ _ (round x c)
        (λ _. loop_total f m p s saved (omega arith) (SavedFits-tail saved v))
        (λ _ _. loop_total f m p (c ∷ s) (some (p, c ∷ s)) (omega arith) (omega arith))
        (λ _ _ _. retry_total f m c (x ∷ p) s saved (glob_loop f) (loop_total f) h v)
    where
      SavedFits-tail : (saved : Saved) → SavedFits m k (c ∷ s) saved → SavedFits m k s saved
      SavedFits-tail none v = tt
      SavedFits-tail (some (bp, bs)) v = omega arith

-- For no pattern and text does the wildcard loop run out of fuel.
pub glob_run_total : (p s : Text) → glob_run p s ≢ none
unfolding glob_run
glob_run_total p s = loop_total (length p + 1) (glob_fuel p s) (length s) p s none (omega arith) tt

-- `G` is the question asked at the start: does the whole pattern match the whole subject?
module _ (G : Type 0) where
  -- A match of what a star stands before, anywhere in the saved text, answers the question.
  abbrev SavedSound : Saved → Type 0
  SavedSound none = Unit
  SavedSound (some (bp, bs)) = Globs (b'*' ∷ bp) bs → G

  retry_sound :
      (saved : Saved) (next : Text → Text → Saved → Option Bool)
      → ((p' s' : Text) (v : Saved)
          → (Globs p' s' → G)
          → SavedSound v
          → next p' s' v ≡ some true
          → G)
      → SavedSound saved
      → retry next saved ≡ some true
      → G
  unfolding retry
  retry_sound none next ih v e = cc
  retry_sound (some (bp, [])) next ih v e = ih bp [] (some (bp, [])) (λ g. v (leave refl g)) v e
  retry_sound (some (bp, b ∷ bs)) next ih v e =
      ih bp bs (some (bp, bs)) (λ g. v (take refl (leave refl g))) (λ g. v (take refl g)) e

  loop_sound :
      (f : ℕ) (p s : Text) (saved : Saved)
      → (Globs p s → G)
      → SavedSound saved
      → glob_loop f p s saved ≡ some true
      → G
  unfolding glob_loop
  loop_sound zero p s saved now v e = cc
  loop_sound (suc f) p [] saved now v e = now (only_stars-Globs p (ground arith))
  loop_sound (suc f) [] (c ∷ s) saved now v e = retry_sound saved (glob_loop f) (loop_sound f) v e
  loop_sound (suc f) (x ∷ p) (c ∷ s) saved now v e =
      round_result (λ r. r ≡ some true → G) _ _ _ (round x c)
        (λ t. loop_sound f p s saved (λ g. now (item_Globs t g)) v)
        (λ d _. loop_sound f p (c ∷ s) (some (p, c ∷ s)) (λ g. now (leave d g)) (λ g. now (rw d g)))
        (λ _ _ _. retry_sound saved (glob_loop f) (loop_sound f) v) e
    where
      -- a star that the loop takes for itself has also matched one byte
      item_Globs : (x ≡ b'?') ⊎ (x ≡ c) → Globs p s → Globs (x ∷ p) (c ∷ s)
      item_Globs t g = elim (Bool-cases (x == b'*')) [
        | inl e ↦ take ((==_iff x b'*').0 e) (leave ((==_iff x b'*').0 e) g)
        | inr e ↦ one t (ground arith) g
      ]

  -- What the saved star still promises, once the current attempt has failed.
  abbrev Promise : Saved → Type 0
  Promise none = ⊥
  Promise (some (bp, [])) = ⊥
  Promise (some (bp, b ∷ bs)) = Globs (b'*' ∷ bp) bs

  abbrev SavedStarFree : Saved → Type 0
  SavedStarFree none = Unit
  SavedStarFree (some (bp, bs)) = StarFree bs

  record Hopes (p s : Text) (saved : Saved) : Type 0 where
    now : G → Globs p s ⊎ Promise saved
    covers : Promise saved → Globs (b'*' ∷ p) s
    plain : StarFree s
    saved_plain : SavedStarFree saved

  fresh-Hopes : (p s : Text) → (G → Globs (b'*' ∷ p) s) → StarFree s → Hopes p s (some (p, s))
  fresh-Hopes p [] n h = record {
    now = λ g. inl (Globs-star_nil (n g));
    covers = λ z. absurd z;
    plain = h;
    saved_plain = h;
  }
  fresh-Hopes p (c ∷ s) n h = record {
    now = λ g. Globs-star_inv (n g) refl;
    covers = λ z. take refl z;
    plain = h;
    saved_plain = h;
  }

  retry_complete :
      (saved : Saved) (next : Text → Text → Saved → Option Bool)
      → ((p' s' : Text) (v : Saved) → Hopes p' s' v → next p' s' v ≡ some false → ¬ G)
      → (G → Promise saved)
      → SavedStarFree saved
      → retry next saved ≡ some false
      → ¬ G
  unfolding retry
  retry_complete none next ih v h e = v
  retry_complete (some (bp, [])) next ih v h e = v
  retry_complete (some (bp, b ∷ bs)) next ih v h e =
      ih bp bs (some (bp, bs)) (fresh-Hopes bp bs v h.1) e

  loop_complete :
      (f : ℕ) (p s : Text) (saved : Saved)
      → Hopes p s saved
      → glob_loop f p s saved ≡ some false
      → ¬ G
  unfolding glob_loop
  loop_complete zero p s saved h e = cc
  loop_complete (suc f) p [] saved h e = λ g.
      let d : Globs p [] = elim (h.now g) [ inl d ↦ d | inr z ↦ Globs-star_nil (h.covers z) ] in
      let rest = Globs-only_stars p d in ground arith
  loop_complete (suc f) [] (c ∷ s) saved h e =
      retry_complete saved (glob_loop f) (loop_complete f)
        (λ g. elim (h.now g) [ inl d ↦ elim d [ ] | inr z ↦ z ]) h.saved_plain e
  loop_complete (suc f) (x ∷ p) (c ∷ s) saved h e =
      round_result (λ r. r ≡ some false → ¬ G) _ _ _ (round x c)
        (λ t. loop_complete f p s saved (item_Hopes (not_star t)))
        (λ d _.
          loop_complete f p (c ∷ s) (some (p, c ∷ s)) (fresh-Hopes p (c ∷ s) (at_star d) h.plain))
        (λ q l n. retry_complete saved (glob_loop f) (loop_complete f) (failed q l n) h.saved_plain)
        e
    where
      not_star : (x ≡ b'?') ⊎ (x ≡ c) → x ≢ b'*'
      not_star (inl q) = omega arith
      not_star (inr l) = λ d. h.plain.0 (sym l ∙ d)

      item_Hopes : x ≢ b'*' → Hopes p s saved
      item_Hopes n = record {
        now = λ g. elim (h.now g) [ inl d ↦ inl (Globs-one_inv d n).1 | inr z ↦ inr z ];
        covers = λ z. Globs-drop_one refl n (h.covers z);
        plain = h.plain.1;
        saved_plain = h.saved_plain;
      }

      at_star : x ≡ b'*' → G → Globs (b'*' ∷ p) (c ∷ s)
      at_star d g =
          rw (← d) (elim (h.now g) [ inl m ↦ m | inr z ↦ Globs-two_stars refl d (h.covers z) ])

      failed : x ≢ b'?' → x ≢ c → x ≢ b'*' → G → Promise saved
      failed q l n g = elim (h.now g) [
        | inl m ↦ elim (Globs-one_inv m n).0 [ inl t ↦ absurd (q t) | inr t ↦ absurd (l t) ]
        | inr z ↦ z
      ]

-- Every text that the loop accepts is one that the pattern stands for.
pub glob_run_sound : (p s : Text) → glob_run p s ≡ some true → Globs p s
unfolding glob_run
glob_run_sound p s e = loop_sound (Globs p s) (glob_fuel p s) p s none (λ g. g) tt e

-- A text without stars that the loop rejects is none that the pattern stands for.
pub glob_run_complete : (p s : Text) → StarFree s → glob_run p s ≡ some false → ¬ Globs p s
unfolding glob_run
glob_run_complete p s h e =
    loop_complete (Globs p s) (glob_fuel p s) p s none
      (record { now = λ g. inl g; covers = λ z. absurd z; plain = h; saved_plain = tt }) e

-- The loop answers true exactly on the star-free texts that the pattern stands for.
pub glob_run_iff : (p s : Text) → StarFree s → (glob_run p s ≡ some true) ↔ Globs p s
glob_run_iff p s h = (
  glob_run_sound p s,
  λ g. elim (Option-cases (glob_run p s)) [
    | inl e ↦ absurd (glob_run_total p s e)
    | inr (true, e) ↦ e
    | inr (false, e) ↦ absurd (glob_run_complete p s h e g)
  ],
)

-- Lowering the case makes no star.
pub StarFree-to_lower : (s : Text) → StarFree s → StarFree (to_lower s)
unfolding to_lower
StarFree-to_lower [] h = tt
StarFree-to_lower (c ∷ s) h = (λ e. h.0 (lower_star c e), StarFree-to_lower s h.1)
  where
    lower_star : (c : ℕ) → to_lower_byte c ≡ b'*' → c ≡ b'*'
    lower_star c e = ground arith

pub answer-true : (r : Option Bool) → answer r ≡ true → r ≡ some true
unfolding answer
answer-true none e = cc
answer-true (some b) e = ap some e

-- globMatch accepts a star-free text exactly if the lowered pattern stands for the lowered text.
pub glob_match_iff :
    (pattern subject : Text)
    → StarFree subject
    → (glob_match pattern subject ≡ true) ↔ Globs (to_lower pattern) (to_lower subject)
unfolding glob_match
glob_match_iff pattern subject h =
    let (sound, complete) =
      glob_run_iff (to_lower pattern) (to_lower subject) (StarFree-to_lower subject h) in
    (λ e. sound (answer-true _ e), λ g. unfold answer in ap answer (complete g))

-- globFold is the same function as globMatch.
pub glob_fold-eq-glob_match : (p s : Text) → glob_fold p s ≡ glob_match p s
unfolding glob_fold glob_match
glob_fold-eq-glob_match p s = refl

-- If globMatch accepts a text, with stars in it or without, the lowered pattern stands for the
-- lowered text.
pub glob_match_sound :
    (pattern subject : Text)
    → glob_match pattern subject ≡ true
    → Globs (to_lower pattern) (to_lower subject)
unfolding glob_match
glob_match_sound pattern subject e = glob_run_sound _ _ (answer-true _ e)
