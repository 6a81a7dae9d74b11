-- ===== src/Correlate/Pairs/Summary.antt =====
-- What the table of correlateFindings in internal/analysis/correlate.go says of a pair.
pub mod Fields
pub mod Table
use archer.Prelude.{
  ℕ, ◌≤◌, Bool, true, false, ◌&&◌, ◌||◌, Option, none, some, List, [], ◌∷◌, ◌++◌, map, Text, codes,
  ltb, ◌≡◌, refl, sym, subst, ap, ◌∙◌, ◌⊎◌, inl, inr, if◌then◌else◌, text_eq, text_eq_sound,
  text_eq_refl, any, All, All-append, All-map, Some, Some-left, Some-right, Some-all, arith,
  Bool-cases, ℤ, pos, negate,
}
use mathlib.Core.List.{append-nil, append_assoc}
use archer.Finding.{Finding}
use archer.Finding.Identity.{Fingerprint, same, same_refl, fingerprint}
use archer.Correlate.{
  PairKey, PairData, Pairs, same_key, no_data, with_finding, put_pair, key_of, contributes,
  contribute, collect, correlation_eligible_type, history, pairs_of, earlier, is_seen, text_lt,
}
use archer.Correlate.Pairs.{lookup_pair, or_no_data, lookup_pair-put_pair, same_key-eq}
use archer.Correlate.Order.{text_lt_irrefl, text_lt_asym, text_lt_chain}

-- No time, or none that is before the other.
abbrev pub NotBefore : Text → Text → Type 0
NotBefore t first = (t ≡ []) ⊎ ((text_eq first [] ≡ false) × (text_lt t first ≡ false))

pub earlier_cases :
    (t first : Text)
    → ((earlier t first ≡ t) × NotBefore first t) ⊎ ((earlier t first ≡ first) × NotBefore t first)
unfolding earlier
earlier_cases [] first = inr (refl, inl refl)
earlier_cases (c ∷ t) [] = inl (refl, inl refl)
earlier_cases (c ∷ t) (d ∷ s) = elim (Bool-cases (text_lt (c ∷ t) (d ∷ s))) [
  | inl e ↦ inl (rw e refl, inr (refl, text_lt_asym (c ∷ t) (d ∷ s) e))
  | inr e ↦ inr (rw e refl, inr (refl, e))
]

pub NotBefore-self : (t : Text) → NotBefore t t
NotBefore-self [] = inl refl
NotBefore-self (c ∷ t) = inr (refl, text_lt_irrefl (c ∷ t))

pub earlier-none : (t : Text) → earlier t [] ≡ t
unfolding earlier
earlier-none [] = refl
earlier-none (c ∷ t) = refl

pub NotBefore-trans : (s t u : Text) → NotBefore s t → NotBefore t u → NotBefore s u
NotBefore-trans s t u (inl a) k = inl a
NotBefore-trans s t u (inr (n, a)) (inl b) = absurd (cc (n, ap (λ x. text_eq x []) b))
NotBefore-trans s t u (inr (n, a)) (inr (m, b)) = inr (m, text_lt_chain s t u a b)

pub is_seen-append :
    (fp : Fingerprint) (xs ys : List (Fingerprint × ℤ))
    → is_seen fp (xs ++ ys) ≡ (is_seen fp xs || is_seen fp ys)
unfolding is_seen
is_seen-append fp [] ys = refl
is_seen-append fp (x ∷ xs) ys = ground (arith, is_seen-append fp xs ys)

module _ {Float : Type 0} where
  abbrev pub id_for : Bool → Finding Float → ℤ
  id_for historical f = if historical then negate f.id else pos f.id

  -- The findings with the ids that links to them have: those of the provider are negative.
  abbrev pub given : List (Finding Float) → Option (List (Finding Float)) → List (ℤ × Finding Float)
  given fs provider =
      map (λ f. (id_for false f, f)) fs ++ map (λ f. (id_for true f, f)) (history provider)

  -- The type and the addresses are none of those that are left out.
  abbrev pub Contributor : Finding Float → Type 0
  Contributor f =
      All (λ t. text_eq f.type t ≡ false)
        (codes "Host Risk Score"
          ∷ codes "Correlated Activity"
          ∷ codes "Multi-Stage Beacon"
          ∷ codes "Zeek Notice"
          ∷ codes "Long Connection"
          ∷ [])
      × All (λ t. text_eq f.src_ip t ≡ false)
          ([] ∷ codes "(cert)" ∷ codes "(escalation)" ∷ codes "(TI)" ∷ [])
      × All (λ t. text_eq f.dst_ip t ≡ false) ([] ∷ codes "(network)" ∷ [])

  contributes-Contributor : (f : Finding Float) → contributes f ≡ true → Contributor f
  unfolding contributes correlation_eligible_type
  contributes-Contributor f h = ground arith

  pub Contributor-contributes : (f : Finding Float) → Contributor f → contributes f ≡ true
  unfolding contributes correlation_eligible_type
  Contributor-contributes f h = ground arith

  -- A contributor with the sensor and the addresses of the pair.
  abbrev pub IsOf : PairKey → Finding Float → Type 0
  IsOf k f = Contributor f × (f.sensor ≡ k.sensor) × (f.src_ip ≡ k.src) × (f.dst_ip ≡ k.dst)

  pub record Summary (k : PairKey) (es : List (ℤ × Finding Float)) (d : PairData) : Type 0 where
    pub bound : All (λ (e : ℤ × Finding Float). IsOf k e.1 → e.1.score ≤ d.max_score) es
    pub attained : Some (λ (e : ℤ × Finding Float). IsOf k e.1 × (e.1.score ≡ d.max_score)) es
    pub first :
        All (λ (e : ℤ × Finding Float). IsOf k e.1 → NotBefore e.1.timestamp d.earliest_ts) es
    pub timed : Some (λ (e : ℤ × Finding Float). IsOf k e.1 × (e.1.timestamp ≡ d.earliest_ts)) es
    pub linked :
        All
          (λ (x : Fingerprint × ℤ).
            Some (λ (e : ℤ × Finding Float). IsOf k e.1 × (fingerprint e.1 ≡ x.0) × (e.0 ≡ x.1)) es)
          d.ids_by_fingerprint
    pub covered :
        All
          (λ (e : ℤ × Finding Float).
            IsOf k e.1 → is_seen (fingerprint e.1) d.ids_by_fingerprint ≡ true)
          es

  abbrev pub SummaryOf : PairKey → List (ℤ × Finding Float) → Option PairData → Type 0
  SummaryOf k es none = All (λ (e : ℤ × Finding Float). IsOf k e.1 → ⊥) es
  SummaryOf k es (some d) = Summary k es d

  abbrev pub is_of : PairKey → Finding Float → Bool
  is_of k f = contributes f && same_key (key_of f) k

  pub is_of-IsOf : (k : PairKey) (f : Finding Float) → is_of k f ≡ true → IsOf k f
  unfolding key_of
  is_of-IsOf k f h =
      let e : key_of f ≡ k = same_key-eq (key_of f) k (ground arith) in
      (
        contributes-Contributor f (ground arith),
        ap (λ (j : PairKey). j.sensor) e,
        ap (λ (j : PairKey). j.src) e,
        ap (λ (j : PairKey). j.dst) e,
      )

  pub IsOf-is_of : (k : PairKey) (f : Finding Float) → IsOf k f → is_of k f ≡ true
  unfolding key_of same_key
  IsOf-is_of k f (h, a, b, c) = ground (
    arith,
    Contributor-contributes f h,
    a,
    b,
    c,
    text_eq_refl k.sensor,
    text_eq_refl k.src,
    text_eq_refl k.dst,
  )
