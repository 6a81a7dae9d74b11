-- ===== src/Store/Merge/Clash.antt =====
-- setFindingsImpl of internal/store/store.go on a finding and its form with a sensor in one batch.
use archer.Prelude.{
  ℕ, ◌≡◌, inl, inr, refl, sym, ◌∙◌, ap, Bool, false, Option, none, some, List, [], ◌∷◌, ◌++◌, map,
  Text, codes, take, text_eq, Bool-cases, false≢true,
}
use archer.Finding.{Finding}
use archer.Finding.Identity.{Fingerprint, same, same-eq, same_refl, fingerprint}
use archer.Store.Merge.{
  best_by_fp, keeps, dedupe, dedupe_from, entry, index_findings, carried, legacy, first_entry,
  Progress, claim, claim_legacy, assign_one, assign, start, translated, merge,
}
use archer.Store.Merge.Entries.{id_of}
use archer.Store.Merge.Ids.{map_append, translated_ids}

same_sym : (a b : Fingerprint) → same a b ≡ false → same b a ≡ false
same_sym a b h = elim (Bool-cases (same b a)) [
  | inl p ↦ absurd (false≢true (sym h ∙ ap (λ x. same x b) (sym (same-eq b a p)) ∙ same_refl b))
  | inr p ↦ p
]

index_one : {Float : Type 0} (o : Finding Float) → index_findings (o ∷ []) ≡ o ∷ []
unfolding index_findings
index_one o = refl

-- the first two ids of a set of which the run's findings, with these ids, are the first part
take_merged :
    {Float : Type 0} {i : ℕ} (historical : ℕ → Bool) (persisted : List (ℕ × ℕ))
    (fs rest : List (Finding Float))
    → map id_of fs ≡ i ∷ i ∷ []
    → take 2 (map id_of (translated historical persisted fs ++ rest)) ≡ i ∷ i ∷ []
take_merged historical persisted fs rest h = ap (take 2) (
    map_append id_of (translated historical persisted fs) rest
    ∙ ap (λ is. is ++ map id_of rest) (translated_ids historical persisted fs ∙ h))

module _ {Float : Type 0} (o f g : Finding Float) (s : Text) where
  dedupe_two :
      same (fingerprint f) (fingerprint g) ≡ false
      → same (fingerprint g) (fingerprint f) ≡ false
      → dedupe (f ∷ g ∷ []) ≡ f ∷ g ∷ []
  unfolding dedupe dedupe_from keeps best_by_fp
  dedupe_two p q = rw (same_refl (fingerprint f), same_refl (fingerprint g), p, q) refl

  legacy_sensor :
      text_eq (fingerprint o).type (codes "HTTP Beacon") ≡ false
      → text_eq s [] ≡ false
      → (fingerprint o).sensor ≡ []
      → legacy (record (fingerprint o) { sensor = s }) ≡ fingerprint o ∷ []
  unfolding legacy
  legacy_sensor t n e = rw (t, n) (ap (λ x. record (fingerprint o) { sensor = x } ∷ []) (sym e))

  entry_self : entry (fingerprint o) (o ∷ []) ≡ some o
  unfolding entry
  entry_self = rw (same_refl (fingerprint o)) refl

  entry-other : same (fingerprint o) (fingerprint g) ≡ false → entry (fingerprint g) (o ∷ []) ≡ none
  unfolding entry
  entry-other n = rw n refl

  first_entry_self : first_entry (fingerprint o ∷ []) (o ∷ []) ≡ some (fingerprint o, o)
  unfolding first_entry
  first_entry_self =
      ap
        (λ (r : Option (Finding Float)). elim r as (λ x. Option (Fingerprint × Finding Float)) [
          | none ↦ none
          | some y ↦ some (fingerprint o, y)
        ])
        entry_self

  module _ (now : ℕ) (emit : Bool) where
    assign_one-exact :
        (p : Progress Float)
        → p.existing ≡ o ∷ []
        → fingerprint f ≡ fingerprint o
        → assign_one now emit f p ≡ claim now emit f p (some o)
    unfolding assign_one
    assign_one-exact p x e =
        ap (λ es. claim now emit f p (entry (fingerprint f) es)) x
        ∙ ap (λ fp. claim now emit f p (entry fp (o ∷ []))) e
        ∙ ap (claim now emit f p) entry_self

    assign_one-older :
        (p : Progress Float)
        → p.existing ≡ o ∷ []
        → same (fingerprint o) (fingerprint g) ≡ false
        → legacy (fingerprint g) ≡ fingerprint o ∷ []
        → id_of (assign_one now emit g p).0 ≡ o.id
    unfolding assign_one carried
    assign_one-older p x n l =
        let none_exact : entry (fingerprint g) p.existing ≡ none =
          ap (entry (fingerprint g)) x ∙ entry-other n in
        let found : first_entry (legacy (fingerprint g)) p.existing ≡ some (fingerprint o, o) =
          ap (first_entry (legacy (fingerprint g))) x
          ∙ ap (λ fps. first_entry fps (o ∷ [])) l
          ∙ first_entry_self in
        ap (λ e. id_of (claim now emit g p e).0) none_exact
        ∙ ap (λ e. id_of (claim_legacy now emit g p e).0) found

    assign_two :
        (p : Progress Float)
        → p.existing ≡ o ∷ []
        → fingerprint f ≡ fingerprint o
        → same (fingerprint o) (fingerprint g) ≡ false
        → legacy (fingerprint g) ≡ fingerprint o ∷ []
        → map id_of (assign now emit (f ∷ g ∷ []) p).0 ≡ o.id ∷ o.id ∷ []
    unfolding assign carried
    assign_two p x e n l =
        let a = assign_one-exact p x e in
        let first : id_of (assign_one now emit f p).0 ≡ o.id = ap (λ r. id_of r.0) a in
        let rest : (assign_one now emit f p).1.existing ≡ o ∷ [] = ap (λ r. r.1.existing) a ∙ x in
        ap (λ i. i ∷ id_of (assign_one now emit g (assign_one now emit f p).1).0 ∷ []) first
        ∙ ap (λ i. o.id ∷ i ∷ []) (assign_one-older (assign_one now emit f p).1 rest n l)

    apart :
        text_eq s [] ≡ false
        → (fingerprint o).sensor ≡ []
        → same (fingerprint o) (record (fingerprint o) { sensor = s }) ≡ false
    apart n e = elim (Bool-cases (same (fingerprint o) (record (fingerprint o) { sensor = s }))) [
      | inl h ↦
          let sensors : (fingerprint o).sensor ≡ s = ap (λ fp. fp.sensor) (same-eq _ _ h) in
          absurd (false≢true (sym n ∙ ap (λ x. text_eq x []) (sym sensors ∙ e)))
      | inr h ↦ h
    ]

    -- A run of two findings over a set with the one finding o, whose sensor is empty and whose type is
    -- not HTTP Beacon: f has the fingerprint of o, and g that fingerprint with a sensor. The merge
    -- gives both the id of o.
    pub merge-same_id :
        (purge : Bool)
        → text_eq (fingerprint o).type (codes "HTTP Beacon") ≡ false
        → text_eq s [] ≡ false
        → (fingerprint o).sensor ≡ []
        → fingerprint f ≡ fingerprint o
        → fingerprint g ≡ record (fingerprint o) { sensor = s }
        → take 2 (map id_of (merge now purge emit (o ∷ []) (f ∷ g ∷ []))) ≡ o.id ∷ o.id ∷ []
    unfolding merge
    merge-same_id purge t n e p q =
        let away : same (fingerprint o) (fingerprint g) ≡ false =
          ap (same (fingerprint o)) q ∙ apart n e in
        let two : dedupe (f ∷ g ∷ []) ≡ f ∷ g ∷ [] =
          dedupe_two (ap (λ x. same x (fingerprint g)) p ∙ away)
            (same_sym _ _ (ap (λ x. same x (fingerprint g)) p ∙ away)) in
        let run = assign now emit (dedupe (f ∷ g ∷ [])) (start (o ∷ [])) in
        let ids : map id_of run.0 ≡ o.id ∷ o.id ∷ [] =
          ap (λ fs. map id_of (assign now emit fs (start (o ∷ []))).0) two
          ∙ assign_two (start (o ∷ [])) (index_one o) p away (ap legacy q ∙ legacy_sensor t n e) in
        take_merged _ _ run.0 _ ids
