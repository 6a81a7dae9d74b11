-- ===== src/Staging/Seed.antt =====
-- The order of the participants in internal/analysis/stage.go.
use archer.Prelude.{
  suc, true, false, List, [], ◌∷◌, Text, ◌≡◌, refl, subst, ap, ◌∙◌, text_eq, text_eq_sound,
  text_eq_flip, length, All, All-map, Some, ◌⊎◌, arith, Bool-cases, inl, inr,
}
use archer.Correlate.{text_lt}
use archer.Correlate.Order.{text_lt_irrefl, text_lt_asym, text_lt_chain}
use archer.Staging.{Participant, participant_lt, insert_participant, sort_participants}

earlier_onset : (p q : Participant) → participant_lt p q ≡ true → text_lt q.onset p.onset ≡ false
unfolding participant_lt
earlier_onset p q h = elim (Bool-cases (text_eq p.onset q.onset)) [
  | inl e ↦
      subst (λ t. text_lt t p.onset ≡ false) (text_eq_sound p.onset q.onset e)
        (text_lt_irrefl p.onset)
  | inr e ↦ text_lt_asym p.onset q.onset (ground (arith, e, h))
]

not_earlier_onset :
    (p q : Participant) → participant_lt p q ≡ false → text_lt p.onset q.onset ≡ false
unfolding participant_lt
not_earlier_onset p q h = elim (Bool-cases (text_eq p.onset q.onset)) [
  | inl e ↦
      subst (λ t. text_lt p.onset t ≡ false) (text_eq_sound p.onset q.onset e)
        (text_lt_irrefl p.onset)
  | inr e ↦ ground (arith, e, h)
]

-- No participant has an earlier onset.
abbrev pub NoneBefore : Participant → List Participant → Type 0
NoneBefore p qs = All (λ (q : Participant). text_lt q.onset p.onset ≡ false) qs

-- The participants stand in the order of their onsets.
abbrev pub IsOrdered : List Participant → Type 0
IsOrdered [] = Unit
IsOrdered (p ∷ qs) = NoneBefore p qs × IsOrdered qs

insert_participant-All :
    (P : Participant → Type 0) (p : Participant) (qs : List Participant)
    → P p
    → All P qs
    → All P (insert_participant p qs)
unfolding insert_participant
insert_participant-All P p [] h a = (h, tt)
insert_participant-All P p (q ∷ qs) h (k, a) = elim (Bool-cases (participant_lt q p)) [
  | inl e ↦ rw e (k, insert_participant-All P p qs h a)
  | inr e ↦ rw e (h, (k, a))
]

insert_participant-IsOrdered :
    (p : Participant) (qs : List Participant) → IsOrdered qs → IsOrdered (insert_participant p qs)
unfolding insert_participant
insert_participant-IsOrdered p [] o = (tt, tt)
insert_participant-IsOrdered p (q ∷ qs) (f, o) = elim (Bool-cases (participant_lt q p)) [
  | inl e ↦ rw e (
    insert_participant-All (λ (r : Participant). text_lt r.onset q.onset ≡ false) p qs
        (earlier_onset q p e) f,
    insert_participant-IsOrdered p qs o,
  )
  | inr e ↦
      let k = not_earlier_onset q p e in
      rw e (
        (
          k,
          All-map (λ (r : Participant). text_lt r.onset q.onset ≡ false)
              (λ (r : Participant). text_lt r.onset p.onset ≡ false) qs
              (λ r h. text_lt_chain r.onset q.onset p.onset h k) f,
        ),
        (f, o),
      )
]

pub sort_participants-IsOrdered : (ps : List Participant) → IsOrdered (sort_participants ps)
unfolding sort_participants
sort_participants-IsOrdered [] = tt
sort_participants-IsOrdered (p ∷ ps) =
    insert_participant-IsOrdered p (sort_participants ps) (sort_participants-IsOrdered ps)

pub sort_participants-All :
    (P : Participant → Type 0) (ps : List Participant) → All P ps → All P (sort_participants ps)
unfolding sort_participants
sort_participants-All P [] a = tt
sort_participants-All P (p ∷ ps) (h, a) =
    insert_participant-All P p (sort_participants ps) h (sort_participants-All P ps a)

insert_participant-Some :
    (P : Participant → Type 0) (p : Participant) (qs : List Participant)
    → P p ⊎ Some P qs
    → Some P (insert_participant p qs)
unfolding insert_participant
insert_participant-Some P p [] h = h
insert_participant-Some P p (q ∷ qs) h = elim (Bool-cases (participant_lt q p)) [
  | inr e ↦ rw e h
  | inl e ↦ rw e (elim h [
    | inl a ↦ inr (insert_participant-Some P p qs (inl a))
    | inr (inl b) ↦ inl b
    | inr (inr c) ↦ inr (insert_participant-Some P p qs (inr c))
  ])
]

pub sort_participants-Some :
    (P : Participant → Type 0) (ps : List Participant) → Some P ps → Some P (sort_participants ps)
unfolding sort_participants
sort_participants-Some P [] h = h
sort_participants-Some P (p ∷ ps) (inl h) =
    insert_participant-Some P p (sort_participants ps) (inl h)
sort_participants-Some P (p ∷ ps) (inr h) =
    insert_participant-Some P p (sort_participants ps) (inr (sort_participants-Some P ps h))

length-insert_participant :
    (p : Participant) (qs : List Participant) → length (insert_participant p qs) ≡ suc (length qs)
unfolding insert_participant
length-insert_participant p [] = refl
length-insert_participant p (q ∷ qs) = elim (Bool-cases (participant_lt q p)) [
  | inl e ↦ rw e (ap suc (length-insert_participant p qs))
  | inr e ↦ rw e refl
]

pub length-sort_participants : (ps : List Participant) → length (sort_participants ps) ≡ length ps
unfolding sort_participants
length-sort_participants [] = refl
length-sort_participants (p ∷ ps) =
    length-insert_participant p (sort_participants ps) ∙ ap suc (length-sort_participants ps)

-- The hosts of the participants are different.
abbrev pub DistinctHosts : List Participant → Type 0
DistinctHosts [] = Unit
DistinctHosts (p ∷ qs) =
    All (λ (q : Participant). text_eq q.src p.src ≡ false) qs × DistinctHosts qs

pub flip_false : (s t : Text) → text_eq s t ≡ false → text_eq t s ≡ false
flip_false s t h = elim (Bool-cases (text_eq t s)) [
  | inl e ↦ absurd (cc (h, text_eq_flip t s e))
  | inr e ↦ e
]

insert_participant-DistinctHosts :
    (p : Participant) (qs : List Participant)
    → All (λ (q : Participant). text_eq q.src p.src ≡ false) qs
    → DistinctHosts qs
    → DistinctHosts (insert_participant p qs)
unfolding insert_participant
insert_participant-DistinctHosts p [] a d = (tt, tt)
insert_participant-DistinctHosts p (q ∷ qs) (n, a) (b, d) = elim (Bool-cases (participant_lt q p)) [
  | inl e ↦ rw e (
    insert_participant-All (λ (r : Participant). text_eq r.src q.src ≡ false) p qs
        (flip_false q.src p.src n) b,
    insert_participant-DistinctHosts p qs a d,
  )
  | inr e ↦ rw e ((n, a), (b, d))
]

pub sort_participants-DistinctHosts :
    (ps : List Participant) → DistinctHosts ps → DistinctHosts (sort_participants ps)
unfolding sort_participants
sort_participants-DistinctHosts [] d = tt
sort_participants-DistinctHosts (p ∷ ps) (a, d) =
    insert_participant-DistinctHosts p (sort_participants ps)
      (sort_participants-All (λ (q : Participant). text_eq q.src p.src ≡ false) ps a)
      (sort_participants-DistinctHosts ps d)
