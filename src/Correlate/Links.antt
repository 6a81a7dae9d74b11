-- ===== src/Correlate/Links.antt =====
-- The ids that correlateFindings of internal/analysis/correlate.go writes into findings.
pub mod Siblings
use archer.Prelude.{
  ℕ, zero, suc, ◌+◌, ◌≤◌, ◌<◌, Bool, true, false, not, ◌&&◌, ◌||◌, Option, none, some, List, [],
  ◌∷◌, ◌++◌, map, Text, ltb, ◌==◌, ◌≡◌, ◌⊎◌, refl, sym, subst, ap, ◌∙◌, if◌then◌else◌, text_eq, any,
  length, All, All-append, All-map, arith, Bool-cases, inl, inr, ℤ, pos, negsuc, negate,
}
use archer.Finding.{Finding}
use archer.Finding.Identity.{Fingerprint, fingerprint}
use archer.Correlate.{
  type_correlated_activity, PairKey, PairData, Pairs, same_key, no_data, with_finding, put_pair,
  key_of, contributes, contribute, collect, history, pairs_of, is_seen, key_lt,
}
use archer.Correlate.Rows.{
  insert_pair, sort_pairs, int_lt, int_eq, insert_int, sort_ints, siblings_in, annotate,
  Annotations, siblings_of, join_siblings, dedup, correlations_of, Analyzer, add_finding, pair_row,
  emit_pairs, with_siblings, correlate_findings,
}

pub int_eq_sound : (i j : ℤ) → int_eq i j ≡ true → i ≡ j
unfolding int_eq
int_eq_sound (pos a) (pos b) h = ground (arith, h)
int_eq_sound (pos a) (negsuc b) h = cc
int_eq_sound (negsuc a) (pos b) h = cc
int_eq_sound (negsuc a) (negsuc b) h = ground (arith, h)

pub int_eq_sym : (i j : ℤ) → int_eq i j ≡ int_eq j i
unfolding int_eq
int_eq_sym (pos a) (pos b) = ground arith
int_eq_sym (pos a) (negsuc b) = refl
int_eq_sym (negsuc a) (pos b) = refl
int_eq_sym (negsuc a) (negsuc b) = ground arith

int_lt_trans : (i j k : ℤ) → int_lt i j ≡ true → int_lt j k ≡ true → int_lt i k ≡ true
unfolding int_lt
int_lt_trans (pos a) (pos b) (pos c) h k = ground (arith, h, k)
int_lt_trans (pos a) (pos b) (negsuc c) h k = k
int_lt_trans (pos a) (negsuc b) c h k = cc
int_lt_trans (negsuc a) (pos b) (pos c) h k = refl
int_lt_trans (negsuc a) (pos b) (negsuc c) h k = cc
int_lt_trans (negsuc a) (negsuc b) (pos c) h k = refl
int_lt_trans (negsuc a) (negsuc b) (negsuc c) h k = ground (arith, h, k)

int_lt_total : (i j : ℤ) → int_lt j i ≡ false → int_eq i j ≡ false → int_lt i j ≡ true
unfolding int_lt int_eq
int_lt_total (pos a) (pos b) h k = ground (arith, h, k)
int_lt_total (pos a) (negsuc b) h k = cc
int_lt_total (negsuc a) (pos b) h k = refl
int_lt_total (negsuc a) (negsuc b) h k = ground (arith, h, k)

-- Each id is less than all after it.
abbrev pub Increasing : List ℤ → Type 0
Increasing [] = Unit
Increasing (i ∷ is) = All (λ j. int_lt i j ≡ true) is × Increasing is

abbrev pub Without : ℤ → List ℤ → Type 0
Without i is = All (λ j. int_eq i j ≡ false) is

insert_int-All : (P : ℤ → Type 0) (i : ℤ) (is : List ℤ) → P i → All P is → All P (insert_int i is)
unfolding insert_int
insert_int-All P i [] p a = (p, tt)
insert_int-All P i (j ∷ is) p (q, a) = elim (Bool-cases (int_lt j i)) [
  | inl h ↦ rw h (q, insert_int-All P i is p a)
  | inr h ↦ rw h (p, (q, a))
]

insert_int-Increasing :
    (i : ℤ) (is : List ℤ) → Without i is → Increasing is → Increasing (insert_int i is)
unfolding insert_int
insert_int-Increasing i [] w s = (tt, tt)
insert_int-Increasing i (j ∷ is) (n, w) (a, s) = elim (Bool-cases (int_lt j i)) [
  | inl h ↦ rw h (insert_int-All (λ k. int_lt j k ≡ true) i is h a, insert_int-Increasing i is w s)
  | inr h ↦
      let lt = int_lt_total i j h n in
      rw h (
        (
          lt,
          All-map (λ k. int_lt j k ≡ true) (λ k. int_lt i k ≡ true) is
              (λ k b. int_lt_trans i j k lt b) a,
        ),
        (a, s),
      )
]

-- No id stands twice.
Once : List ℤ → Type 0
Once [] = Unit
Once (i ∷ is) = Without i is × Once is

sort_ints-All : (P : ℤ → Type 0) (is : List ℤ) → All P is → All P (sort_ints is)
unfolding sort_ints
sort_ints-All P [] a = tt
sort_ints-All P (i ∷ is) (p, a) = insert_int-All P i (sort_ints is) p (sort_ints-All P is a)

sort_ints-Increasing : (is : List ℤ) → Once is → Increasing (sort_ints is)
unfolding sort_ints Once
sort_ints-Increasing [] o = tt
sort_ints-Increasing (i ∷ is) (w, o) =
    insert_int-Increasing i (sort_ints is) (sort_ints-All (λ j. int_eq i j ≡ false) is w)
      (sort_ints-Increasing is o)

dedup-All : (P : ℤ → Type 0) (seen is : List ℤ) → All P is → All P (dedup seen is)
unfolding dedup
dedup-All P seen [] a = tt
dedup-All P seen (i ∷ is) (p, a) = elim (Bool-cases (any (int_eq i) seen)) [
  | inl h ↦ rw h (dedup-All P seen is a)
  | inr h ↦ rw h (p, dedup-All P (i ∷ seen) is a)
]

-- What is seen does not come again.
dedup-unseen : (i : ℤ) (seen is : List ℤ) → any (int_eq i) seen ≡ true → Without i (dedup seen is)
unfolding dedup
dedup-unseen i seen [] h = tt
dedup-unseen i seen (j ∷ is) h = elim (Bool-cases (any (int_eq j) seen)) [
  | inl p ↦ rw p (dedup-unseen i seen is h)
  | inr p ↦ rw p (elim (Bool-cases (int_eq i j)) [
    | inl q ↦
        let same : i ≡ j = int_eq_sound i j q in
        absurd (cc (p, subst (λ k. any (int_eq k) seen ≡ true) same h))
    | inr q ↦ (q, dedup-unseen i (j ∷ seen) is (ground (arith, h)))
  ])
]

int_eq_self : (i : ℤ) → int_eq i i ≡ true
unfolding int_eq
int_eq_self (pos a) = ground arith
int_eq_self (negsuc a) = ground arith

dedup-Once : (seen is : List ℤ) → Once (dedup seen is)
unfolding dedup Once
dedup-Once seen [] = tt
dedup-Once seen (i ∷ is) = elim (Bool-cases (any (int_eq i) seen)) [
  | inl h ↦ rw h (dedup-Once seen is)
  | inr h ↦
      rw h (dedup-unseen i (i ∷ seen) is (ground (arith, int_eq_self i)), dedup-Once (i ∷ seen) is)
]

pub correlations_of-Increasing : (o : Option (List ℤ)) → Increasing (correlations_of o)
correlations_of-Increasing none = tt
correlations_of-Increasing (some s) = sort_ints-Increasing (dedup [] s) (dedup-Once [] s)

pub correlations_of-All : (P : ℤ → Type 0) (s : List ℤ) → All P s → All P (correlations_of (some s))
correlations_of-All P s a = sort_ints-All P (dedup [] s) (dedup-All P [] s a)
