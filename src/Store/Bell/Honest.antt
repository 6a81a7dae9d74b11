-- ===== src/Store/Bell/Honest.antt =====
-- What the operations of internal/store/store.go do to what is hidden.
use archer.Prelude.{
  ℕ, ◌≤◌, ◌≡◌, inl, inr, refl, sym, ◌∙◌, ap, subst, Bool, true, false, ◌&&◌, List, [], ◌∷◌, Text,
  ◌==◌, any, arith, Bool-cases, All, All-map,
}
use archer.Net.{Net}
use archer.Store.Pairs.{PairAllowEntry, rebuild_pair_allow_idx, is_pair_allowed}
use archer.Store.Pairs.Lookup.{is_pair_allowed-any, entry_hides}
use archer.Store.Bell.{
  Notification, Insert, set_allowlist, add_suppression, add_pair_allow, is_suppressed, is_active,
  remove_rule, Store, is_hidden, hides, hides_notification, dismiss_hidden, dismiss_first,
  remove_suppression, prune_expired_suppressions, remove_pair_allow,
}
use archer.Store.Bell.Insert.{failed, duplicate, inserted}
use archer.Store.Bell.Orphans.{dismiss_if-All}
use archer.Store.Bell.Suppressed.{
  is_suppressed-later, is_suppressed-delete_key, is_suppressed-prune_expired,
}

any-remove_rule :
    (p : PairAllowEntry → Bool) (id : ℕ) (es : List PairAllowEntry)
    → any p es ≡ false
    → any p (remove_rule id es) ≡ false
unfolding remove_rule
any-remove_rule p id [] h = h
any-remove_rule p id (e ∷ es) h = elim (Bool-cases (e.id == id)) [
  | inl q ↦ rw q (ground arith)
  | inr q ↦ let rest = any-remove_rule p id es (ground arith) in rw q (ground (arith, rest))
]

module _ (net : Net) (Float : Type 0) where
  -- What is shown in one state at one time is shown in another at another.
  abbrev pub StaysShown : ℕ → Store net Float → ℕ → Store net Float → Type 0
  StaysShown t s u s' =
      (src dst port ftype sensor : Text)
      → hides net Float t s src dst port ftype sensor ≡ false
      → hides net Float u s' src dst port ftype sensor ≡ false

  -- No active notification is about a finding that is hidden at the time t.
  abbrev pub Quiet : ℕ → Store net Float → Type 0
  Quiet t s = All (λ n. (is_active n && hides_notification net Float t s n) ≡ false) s.notifications

  pub Quiet-StaysShown :
      (t u : ℕ) (s s' : Store net Float)
      → StaysShown t s u s'
      → s'.notifications ≡ s.notifications
      → Quiet t s
      → Quiet u s'
  Quiet-StaysShown t u s s' k e q =
      subst (λ ns. All (λ n. (is_active n && hides_notification net Float u s' n) ≡ false) ns)
        (sym e)
        (All-map _ _ s.notifications
          (λ n h.
            if_active n (hides_notification net Float t s n) (hides_notification net Float u s' n)
              (k n.src_ip n.dst_ip n.dst_port n.type n.sensor) h)
          q)
    where
      if_active :
          (n : Notification) (a b : Bool)
          → (a ≡ false → b ≡ false)
          → (is_active n && a) ≡ false
          → (is_active n && b) ≡ false
      if_active n a b f h = elim (Bool-cases a) [
        | inl p ↦ ground arith
        | inr p ↦ ground (arith, f p)
      ]

  module _ (t : ℕ) (s : Store net Float) (src dst port ftype sensor : Text) where
    -- the suppressions in place of those of the store
    suppressions-shown :
        (u : ℕ) (s' : Store net Float)
        → s'.allowlist_m ≡ s.allowlist_m
        → s'.pair_idx ≡ s.pair_idx
        → ((ip : Text)
            → is_suppressed t s.suppressions ip ≡ false
            → is_suppressed u s'.suppressions ip ≡ false)
        → hides net Float t s src dst port ftype sensor ≡ false
        → hides net Float u s' src dst port ftype sensor ≡ false
    unfolding hides is_hidden
    suppressions-shown u s' e i k h =
        let a = k src (ground arith) in
        let b = k dst (ground arith) in rw (e, i) (ground (arith, a, b))

  pub later-StaysShown : (t u : ℕ) (s : Store net Float) → t ≤ u → StaysShown t s u s
  later-StaysShown t u s le src dst port ftype sensor =
      suppressions-shown t s src dst port ftype sensor u s refl refl
        (λ ip h. is_suppressed-later t u s.suppressions ip le h)

  pub remove_suppression-StaysShown :
      (t : ℕ) (target : Text) (s : Store net Float)
      → StaysShown t s t (remove_suppression net Float target s)
  unfolding remove_suppression
  remove_suppression-StaysShown t target s src dst port ftype sensor =
      suppressions-shown t s src dst port ftype sensor t _ refl refl
        (λ ip h. is_suppressed-delete_key t target ip s.suppressions h)

  pub prune_expired_suppressions-StaysShown :
      (t now : ℕ) (s : Store net Float)
      → StaysShown t s t (prune_expired_suppressions net Float now s)
  unfolding prune_expired_suppressions
  prune_expired_suppressions-StaysShown t now s src dst port ftype sensor =
      suppressions-shown t s src dst port ftype sensor t _ refl refl
        (λ ip h. is_suppressed-prune_expired t now ip s.suppressions h)

  pub remove_pair_allow-StaysShown :
      (t id : ℕ) (ok : Bool) (s : Store net Float)
      → s.pair_idx ≡ rebuild_pair_allow_idx net s.pair_allow
      → StaysShown t s t (remove_pair_allow net Float id ok s)
  unfolding remove_pair_allow hides is_hidden
  remove_pair_allow-StaysShown t id false s e src dst port ftype sensor h = h
  remove_pair_allow-StaysShown t id true s e src dst port ftype sensor h =
      let before = any (entry_hides net src dst port ftype sensor) s.pair_allow in
      let b : before ≡ false =
        sym (is_pair_allowed-any net src dst port ftype sensor s.pair_allow)
        ∙ ap (λ x. is_pair_allowed net x src dst port ftype sensor) (sym e)
        ∙ ground (arith, h) in
      let a =
        is_pair_allowed-any net src dst port ftype sensor (remove_rule id s.pair_allow)
        ∙ any-remove_rule (entry_hides net src dst port ftype sensor) id s.pair_allow b in
      rw a (ground (arith, h))

  -- the notifications dismissed by a test that the same test, or a weaker one, reads
  pub dismiss_hidden-Quiet :
      (now : ℕ) (s : Store net Float) → Quiet now (dismiss_hidden net Float now s)
  unfolding dismiss_hidden hides is_hidden
  dismiss_hidden-Quiet now s =
      dismiss_if-All (hides_notification net Float now s) s.notifications (λ n. refl)

  pub set_allowlist-Quiet :
      (now : ℕ) (entries : List Text) (s : Store net Float)
      → Quiet now (set_allowlist net Float now entries s)
  unfolding set_allowlist
  set_allowlist-Quiet now entries s = dismiss_hidden-Quiet now _

  pub add_suppression-Quiet :
      (now : ℕ) (target : Text) (expiry : ℕ) (detail : Text) (s : Store net Float)
      → Quiet now (add_suppression net Float now target expiry detail s)
  unfolding add_suppression
  add_suppression-Quiet now target expiry detail s = dismiss_hidden-Quiet now _

  pub add_pair_allow-Quiet :
      (now : ℕ) (e : PairAllowEntry) (answer : Insert) (s : Store net Float)
      → Quiet now s
      → Quiet now (add_pair_allow net Float now e answer s)
  unfolding add_pair_allow
  add_pair_allow-Quiet now e failed s q = q
  add_pair_allow-Quiet now e (duplicate id) s q = q
  add_pair_allow-Quiet now e (inserted id) s q = dismiss_hidden-Quiet now _

  pub dismiss_first-All :
      (p : Notification → Bool) (id : ℕ) (ns : List Notification)
      → ((n : Notification) → p (record n { dismissed = true }) ≡ p n)
      → All (λ n. (is_active n && p n) ≡ false) ns
      → All (λ n. (is_active n && p n) ≡ false) (dismiss_first net Float id ns)
  unfolding dismiss_first
  dismiss_first-All p id [] k h = tt
  dismiss_first-All p id (n ∷ ns) k (h, hs) = elim (Bool-cases (n.id == id)) [
    | inl q ↦ rw q (refl, hs)
    | inr q ↦ rw q (h, dismiss_first-All p id ns k hs)
  ]
