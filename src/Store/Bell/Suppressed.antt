-- ===== src/Store/Bell/Suppressed.antt =====
-- What the changes of the suppressions in internal/store/store.go do to what is suppressed.
use archer.Prelude.{
  ℕ, ◌≤◌, ◌≡◌, inl, inr, refl, sym, ◌∙◌, ap, subst, true, false, Option, none, some, [], ◌∷◌, Text,
  ltb, if◌then◌else◌, text_eq, lookup_text, arith, Bool-cases, text_eq_sound,
}
use archer.Store.Bell.{
  Suppressions, SuppressionEntry, unexpired, is_suppressed, delete_key, prune_expired,
}

-- What is not suppressed stays so: as time goes by, and when an entry is deleted.
pub is_suppressed-later :
    (t u : ℕ) (m : Suppressions) (ip : Text)
    → t ≤ u
    → is_suppressed t m ip ≡ false
    → is_suppressed u m ip ≡ false
unfolding is_suppressed
is_suppressed-later t u m ip le h = later (lookup_text ip m) h
  where
    later : (o : Option SuppressionEntry) → unexpired t o ≡ false → unexpired u o ≡ false
    later none k = refl
    later (some e) k = ground arith

pub lookup_text-delete_key :
    (ip k : Text) (m : Suppressions)
    → text_eq k ip ≡ false
    → lookup_text ip (delete_key k m) ≡ lookup_text ip m
unfolding lookup_text delete_key
lookup_text-delete_key ip k [] h = refl
lookup_text-delete_key ip k ((j, e) ∷ m) h = elim (Bool-cases (text_eq j k)) [
  | inl p ↦
      let other : text_eq j ip ≡ false = ap (λ x. text_eq x ip) (text_eq_sound j k p) ∙ h in
      rw (p, other) (lookup_text-delete_key ip k m h)
  | inr p ↦
      rw p (ap (λ rest. if text_eq j ip then some e else rest) (lookup_text-delete_key ip k m h))
]

lookup_text-deleted : (k : Text) (m : Suppressions) → lookup_text k (delete_key k m) ≡ none
unfolding lookup_text delete_key
lookup_text-deleted k [] = refl
lookup_text-deleted k ((j, e) ∷ m) = elim (Bool-cases (text_eq j k)) [
  | inl p ↦ rw p (lookup_text-deleted k m)
  | inr p ↦ rw (p, p) (lookup_text-deleted k m)
]

pub lookup_text-found :
    (ip k : Text) (e : SuppressionEntry) (m : Suppressions)
    → text_eq k ip ≡ true
    → lookup_text ip ((k, e) ∷ m) ≡ some e
unfolding lookup_text
lookup_text-found ip k e m p = rw p refl

pub lookup_text-other :
    (ip k : Text) (e : SuppressionEntry) (m : Suppressions)
    → text_eq k ip ≡ false
    → lookup_text ip ((k, e) ∷ m) ≡ lookup_text ip m
unfolding lookup_text
lookup_text-other ip k e m p = rw p refl

pub is_suppressed-delete_key :
    (t : ℕ) (k ip : Text) (m : Suppressions)
    → is_suppressed t m ip ≡ false
    → is_suppressed t (delete_key k m) ip ≡ false
unfolding is_suppressed
is_suppressed-delete_key t k ip m h = elim (Bool-cases (text_eq k ip)) [
  | inl p ↦
      subst (λ x. unexpired t (lookup_text x (delete_key k m)) ≡ false) (text_eq_sound k ip p)
        (ap (unexpired t) (lookup_text-deleted k m))
  | inr p ↦ ap (unexpired t) (lookup_text-delete_key ip k m p) ∙ h
]

pub is_suppressed-prune_expired :
    (t now : ℕ) (ip : Text) (m : Suppressions)
    → is_suppressed t m ip ≡ false
    → is_suppressed t (prune_expired now m) ip ≡ false
unfolding prune_expired is_suppressed lookup_text
is_suppressed-prune_expired t now ip [] h = refl
is_suppressed-prune_expired t now ip ((k, e) ∷ m) h = elim (Bool-cases (text_eq k ip)) [
  | inl p ↦ elim (Bool-cases (ltb e.expiry now)) [
    | inl q ↦ rw q (
        subst (λ x. unexpired t (lookup_text x (delete_key k (prune_expired now m))) ≡ false)
          (text_eq_sound k ip p) (ap (unexpired t) (lookup_text-deleted k (prune_expired now m))))
    | inr q ↦ rw (q, p) (sym (ap (unexpired t) (lookup_text-found ip k e m p)) ∙ h)
  ]
  | inr p ↦
      let below : is_suppressed t (prune_expired now m) ip ≡ false =
        is_suppressed-prune_expired t now ip m
          (sym (ap (unexpired t) (lookup_text-other ip k e m p)) ∙ h) in
      elim (Bool-cases (ltb e.expiry now)) [
        | inl q ↦
            rw q (ap (unexpired t) (lookup_text-delete_key ip k (prune_expired now m) p) ∙ below)
        | inr q ↦ rw (q, p) below
      ]
]
