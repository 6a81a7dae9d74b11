-- ===== src/Store/Bell/Ops.antt =====
-- Sequences of the operations of internal/store/store.go that the bell depends on.
use archer.Prelude.{
  ℕ, suc, ◌/◌, ◌≤◌, ◌≡◌, inl, inr, refl, Bool, true, false, ◌&&◌, List, [], ◌∷◌, map, Text, arith,
  Bool-cases, All, All-append,
}
use archer.Net.{Net}
use archer.Finding.{Finding}
use archer.Store.Pairs.{PairAllowEntry, rebuild_pair_allow_idx}
use archer.Store.Bell.{
  Notification, Insert, is_active, is_finding_kind, Store, is_hidden, hides, hides_notification,
  dismiss_if, dismiss_hidden, dismiss_orphaned, set_allowlist, add_suppression, remove_suppression,
  prune_expired_suppressions, add_pair_allow, remove_pair_allow, add_alarm, dismiss_notification,
  dismiss_all_notifications, set_findings_impl, set_findings, set_findings_incremental,
  set_findings_for_import, clear_findings, rings, emit,
}
use archer.Store.Merge.{merge}
use archer.Store.Bell.Insert.{failed, duplicate, inserted}
use archer.Store.Bell.Honest.{
  Quiet, Quiet-StaysShown, later-StaysShown, remove_suppression-StaysShown,
  prune_expired_suppressions-StaysShown, remove_pair_allow-StaysShown, set_allowlist-Quiet,
  add_suppression-Quiet, add_pair_allow-Quiet, dismiss_first-All,
}

-- An operation on the store, with what it is given.
pub data Op (Float : Type 0) : Type 0 where
  allow_list : List Text → Op Float
  suppress : Text → ℕ → Text → Op Float
  unsuppress : Text → Op Float
  sweep : Op Float
  allow_pair : PairAllowEntry → Insert → Op Float
  disallow_pair : ℕ → Bool → Op Float
  alarm : Notification → Op Float
  dismiss : ℕ → Op Float
  dismiss_all : Op Float
  full_run : List (Finding Float) → Op Float
  incremental_run : List (Finding Float) → Op Float
  import_set : List (Finding Float) → Op Float
  clear : Op Float

dismiss_if-keeps :
    (p q : Notification → Bool) (ns : List Notification)
    → ((n : Notification) → p (dismiss_if q n) ≡ p n)
    → All (λ n. (is_active n && p n) ≡ false) ns
    → All (λ n. (is_active n && p n) ≡ false) (map (dismiss_if q) ns)
dismiss_if-keeps p q [] k h = tt
dismiss_if-keeps p q (n ∷ ns) k (h, hs) = (ground (arith, h, k n), dismiss_if-keeps p q ns k hs)

dismissed_quiet :
    (p : Notification → Bool) (ns : List Notification)
    → All
        (λ n. (is_active n && p n) ≡ false)
        (map (λ (n : Notification). record n { dismissed = true }) ns)
dismissed_quiet p [] = tt
dismissed_quiet p (n ∷ ns) = (refl, dismissed_quiet p ns)

module _ (net : Net) {Float : Type 0} where
  -- the store after an operation at an instant
  unfoldable pub apply : ℕ → Op Float → Store net Float → Store net Float
  apply now (allow_list entries) s = set_allowlist net Float now entries s
  apply now (suppress target expiry detail) s = add_suppression net Float now target expiry detail s
  apply now (unsuppress target) s = remove_suppression net Float target s
  apply now sweep s = prune_expired_suppressions net Float now s
  apply now (allow_pair e answer) s = add_pair_allow net Float now e answer s
  apply now (disallow_pair id ok) s = remove_pair_allow net Float id ok s
  apply now (alarm n) s = add_alarm net Float n s
  apply now (dismiss id) s = dismiss_notification net Float id s
  apply now dismiss_all s = dismiss_all_notifications net Float s
  apply now (full_run batch) s = (set_findings net Float now batch s).0
  apply now (incremental_run batch) s = (set_findings_incremental net Float now batch s).0
  apply now (import_set batch) s = set_findings_for_import net Float now batch s
  apply now clear s = (clear_findings net Float s).1

  -- operations at their instants
  unfoldable pub run : List (ℕ × Op Float) → Store net Float → Store net Float
  run [] s = s
  run ((now, op) ∷ ops) s = run ops (apply now op s)

  -- The index is the one made from the rules, and no active notification is about what is hidden.
  pub record Honest (t : ℕ) (s : Store net Float) : Type 0 where
    pub built : s.pair_idx ≡ rebuild_pair_allow_idx net s.pair_allow
    pub quiet : Quiet net Float t s

  -- An alarm is about a sensor or a feed.
  abbrev pub IsAlarm : Op Float → Type 0
  IsAlarm (alarm n) = is_finding_kind n ≡ false
  IsAlarm op = Unit

  emit-Quiet :
      (now : ℕ) (s : Store net Float) (fs : List (Finding Float)) (c : ℕ)
      → All
          (λ n. (is_active n && hides_notification net Float now s n) ≡ false)
          (emit net Float now s fs c).1
  unfolding emit rings
  emit-Quiet now s [] c = tt
  emit-Quiet now s (f ∷ fs) c = elim (Bool-cases (rings net Float now s f)) [
    | inl p ↦ rw p (ground arith, emit-Quiet now s fs (suc c))
    | inr p ↦ rw p (emit-Quiet now s fs c)
  ]

  set_findings_impl-Quiet :
      (now : ℕ) (purge emitting : Bool) (batch : List (Finding Float)) (s : Store net Float)
      → Quiet net Float now s
      → Quiet net Float now (set_findings_impl net Float now purge emitting batch s).0
  unfolding set_findings_impl hides is_hidden
  set_findings_impl-Quiet now purge false batch s q = All-append _ s.notifications [] q tt
  set_findings_impl-Quiet now purge true batch s q =
      let merged = record s { findings = merge (now / 1000000000) purge true s.findings batch } in
      All-append _ s.notifications _ q (emit-Quiet now merged merged.findings s.notif_counter)

  pub apply-Honest :
      (now : ℕ) (op : Op Float) (s : Store net Float)
      → IsAlarm op
      → Honest now s
      → Honest now (apply now op s)
  unfolding apply set_allowlist add_suppression add_pair_allow remove_suppression
      prune_expired_suppressions remove_pair_allow add_alarm dismiss_notification
      dismiss_all_notifications set_findings set_findings_incremental set_findings_for_import
      set_findings_impl clear_findings dismiss_orphaned dismiss_hidden hides is_hidden
  apply-Honest now (allow_list entries) s a h = record {
    built = h.built;
    quiet = set_allowlist-Quiet net Float now entries s;
  }
  apply-Honest now (suppress target expiry detail) s a h = record {
    built = h.built;
    quiet = add_suppression-Quiet net Float now target expiry detail s;
  }
  apply-Honest now (unsuppress target) s a h = record {
    built = h.built;
    quiet =
        Quiet-StaysShown net Float now now s (remove_suppression net Float target s)
          (remove_suppression-StaysShown net Float now target s) refl h.quiet;
  }
  apply-Honest now sweep s a h = record {
    built = h.built;
    quiet =
        Quiet-StaysShown net Float now now s (prune_expired_suppressions net Float now s)
          (prune_expired_suppressions-StaysShown net Float now now s) refl h.quiet;
  }
  apply-Honest now (allow_pair e failed) s a h = h
  apply-Honest now (allow_pair e (duplicate id)) s a h = h
  apply-Honest now (allow_pair e (inserted id)) s a h = record {
    built = refl;
    quiet = add_pair_allow-Quiet net Float now e (inserted id) s h.quiet;
  }
  apply-Honest now (disallow_pair id false) s a h = h
  apply-Honest now (disallow_pair id true) s a h = record {
    built = refl;
    quiet =
        Quiet-StaysShown net Float now now s (remove_pair_allow net Float id true s)
          (remove_pair_allow-StaysShown net Float now id true s h.built) refl h.quiet;
  }
  apply-Honest now (alarm n) s a h = record {
    built = h.built;
    quiet = All-append _ s.notifications _ h.quiet (ground (arith, a), tt);
  }
  apply-Honest now (dismiss id) s a h = record {
    built = h.built;
    quiet =
        dismiss_first-All net Float (hides_notification net Float now s) id s.notifications
          (λ n. refl) h.quiet;
  }
  apply-Honest now dismiss_all s a h = record {
    built = h.built;
    quiet = dismissed_quiet (hides_notification net Float now s) s.notifications;
  }
  apply-Honest now (full_run batch) s a h = record {
    built = h.built;
    quiet = set_findings_impl-Quiet now true true batch s h.quiet;
  }
  apply-Honest now (incremental_run batch) s a h = record {
    built = h.built;
    quiet = set_findings_impl-Quiet now false true batch s h.quiet;
  }
  apply-Honest now (import_set batch) s a h = record {
    built = h.built;
    quiet = set_findings_impl-Quiet now true false batch s h.quiet;
  }
  apply-Honest now clear s a h = record {
    built = h.built;
    quiet =
        dismiss_if-keeps (hides_notification net Float now s) _ s.notifications (λ n. refl) h.quiet;
  }

  -- The instants do not go back: each is at or after the one before it.
  abbrev pub InOrder : ℕ → List (ℕ × Op Float) → Type 0
  InOrder t [] = Unit
  InOrder t ((now, op) ∷ ops) = (t ≤ now) × InOrder now ops

  abbrev pub last_instant : ℕ → List (ℕ × Op Float) → ℕ
  last_instant t [] = t
  last_instant t ((now, op) ∷ ops) = last_instant now ops

  Honest-later : (t u : ℕ) (s : Store net Float) → t ≤ u → Honest t s → Honest u s
  Honest-later t u s le h = record {
    built = h.built;
    quiet = Quiet-StaysShown net Float t u s s (later-StaysShown net Float t u s le) refl h.quiet;
  }

  -- From a store whose active notifications are about nothing that is hidden at the instant t, after
  -- any operations at instants that do not go back, whose alarms are about sensors and feeds, no
  -- active notification is about what the allowlist, a suppression or a pair rule hides at the
  -- instant of the last operation or at any later one.
  pub run-Honest :
      (t u : ℕ) (ops : List (ℕ × Op Float)) (s : Store net Float)
      → InOrder t ops
      → All (λ o. IsAlarm o.1) ops
      → Honest t s
      → last_instant t ops ≤ u
      → Honest u (run ops s)
  unfolding run
  run-Honest t u [] s o a h le = Honest-later t u s le h
  run-Honest t u ((now, op) ∷ ops) s (before, o) (a, alarms) h le =
      run-Honest now u ops (apply now op s) o alarms
        (apply-Honest now op s a (Honest-later t now s before h)) le
