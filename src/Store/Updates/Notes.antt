-- ===== src/Store/Updates/Notes.antt =====
-- AddNoteIfAbsent of internal/store/store.go, called twice.
use archer.Prelude.{
  ℕ, zero, suc, ◌≡◌, ◌⊎◌, inl, inr, refl, sym, ◌∙◌, ap, Bool, true, false, ◌&&◌, Option, none, some,
  List, [], ◌∷◌, ◌++◌, if◌then◌else◌, any, text_eq, text_eq_refl, arith,
}
use archer.Finding.{Finding, Note}
use archer.Store.Merge.{lookup_id}
use archer.Store.Updates.{
  Memory, at, set_at, with_note, note_at, has_note, absent_at, add_note_if_absent,
}

any_last :
    {A : Type 0} (p : A → Bool) (us : List A) (u : A) → p u ≡ true → any p (us ++ (u ∷ [])) ≡ true
any_last p [] u h = ground (arith, h)
any_last p (v ∷ us) u h = ground (arith, any_last p us u h)

alike :
    (n m : Note)
    → n.author ≡ m.author
    → n.text ≡ m.text
    → (text_eq n.author m.author && text_eq n.text m.text) ≡ true
alike n m a t =
    ap (λ x. text_eq x m.author && text_eq n.text m.text) a
    ∙ ap (λ x. text_eq m.author m.author && text_eq x m.text) t
    ∙ ground (arith, text_eq_refl m.author, text_eq_refl m.text)

module _ {Float : Type 0} (n m : Note) (a : n.author ≡ m.author) (t : n.text ≡ m.text) where
  has_note-alike : (o : Option (Finding Float)) → has_note n o ≡ has_note m o
  unfolding has_note
  has_note-alike none = refl
  has_note-alike (some f) =
      ap (λ x. any (λ (k : Note). text_eq k.author x && text_eq k.text n.text) f.notes) a
      ∙ ap (λ x. any (λ (k : Note). text_eq k.author m.author && text_eq k.text x) f.notes) t

  has_note-set_at :
      (i : ℕ) (fs : List (Finding Float))
      → (has_note m (at i (set_at i (with_note n) fs)) ≡ true)
        ⊎ (at i (set_at i (with_note n) fs) ≡ none)
  unfolding at set_at has_note with_note
  has_note-set_at zero [] = inr refl
  has_note-set_at (suc i) [] = inr refl
  has_note-set_at zero (f ∷ fs) = inl (any_last _ f.notes n (alike n m a t))
  has_note-set_at (suc i) (f ∷ fs) = has_note-set_at i fs

  set_at-none :
      (g : Finding Float → Finding Float) (i : ℕ) (fs : List (Finding Float))
      → at i fs ≡ none
      → set_at i g fs ≡ fs
  unfolding at set_at
  set_at-none g i [] h = by_place i
    where
      by_place : (i : ℕ) → set_at i g [] ≡ []
      by_place zero = refl
      by_place (suc i) = refl
  set_at-none g zero (f ∷ fs) h = cc
  set_at-none g (suc i) (f ∷ fs) h = ap (λ us. f ∷ us) (set_at-none g i fs h)

  settled :
      (saved : Bool) (i : ℕ) (s : Memory Float)
      → (has_note m (at i s.findings) ≡ true) ⊎ (at i s.findings ≡ none)
      → absent_at saved m (some i) s ≡ s
  unfolding has_note
  settled saved i s (inl h) = rw h refl
  settled true i s (inr e) =
      rw e (ap (λ us. record s { findings = us }) (set_at-none (with_note m) i s.findings e))
  settled false i s (inr e) = rw e refl

  -- Of two notes with one author and one text, AddNoteIfAbsent of the second changes nothing after
  -- the database has made that of the first, whatever it answers then.
  pub add_note_if_absent_twice :
      (saved : Bool) (id : ℕ) (s : Memory Float)
      → add_note_if_absent saved id m (add_note_if_absent true id n s)
        ≡ add_note_if_absent true id n s
  unfolding add_note_if_absent
  add_note_if_absent_twice saved id s = again (lookup_id id s.idx) refl
    where
      added :
          (b : Bool) (i : ℕ)
          → lookup_id id s.idx ≡ some i
          → has_note n (at i s.findings) ≡ b
          → absent_at saved m
              (lookup_id id (if b then s else note_at true n (some i) s).idx)
              (if b then s else note_at true n (some i) s)
            ≡ (if b then s else note_at true n (some i) s)
      added true i w h =
          ap (λ o. absent_at saved m o s) w
          ∙ settled saved i s (inl (sym (has_note-alike (at i s.findings)) ∙ h))
      added false i w h =
          ap (λ o. absent_at saved m o (note_at true n (some i) s)) w
          ∙ settled saved i (note_at true n (some i) s) (has_note-set_at i s.findings)

      again :
          (o : Option ℕ)
          → lookup_id id s.idx ≡ o
          → absent_at saved m (lookup_id id (absent_at true n o s).idx) (absent_at true n o s)
            ≡ absent_at true n o s
      again none w = ap (λ o. absent_at saved m o s) w
      again (some i) w = added (has_note n (at i s.findings)) i w refl
