-- ===== src/Store/Bell/Orphans.antt =====
-- dismissOrphanedFindingNotificationsLocked of internal/store/store.go: notifications without a row.
use archer.Prelude.{◌≡◌, refl, Bool, false, not, ◌&&◌, List, [], ◌∷◌, map, All, arith}
use archer.Net.{Net}
use archer.Store.Merge.{has_id}
use archer.Store.Bell.{Notification, Store, is_active, dismiss_if, dismiss_orphaned}

-- What is dismissed by a test is no longer active.
pub dismiss_if-All :
    (p : Notification → Bool) (ns : List Notification)
    → ((n : Notification) → p (dismiss_if p n) ≡ p n)
    → All (λ n. (is_active n && p n) ≡ false) (map (dismiss_if p) ns)
dismiss_if-All p [] h = tt
dismiss_if-All p (n ∷ ns) h = (ground (arith, h n), dismiss_if-All p ns h)

module _ (net : Net) (Float : Type 0) where
  -- Each active notification about a finding has its finding in the set.
  abbrev pub Anchored : Store net Float → Type 0
  Anchored s =
      All (λ n. (is_active n && not (has_id n.finding_id s.findings)) ≡ false) s.notifications

  pub dismiss_orphaned-Anchored : (s : Store net Float) → Anchored (dismiss_orphaned net Float s)
  unfolding dismiss_orphaned
  dismiss_orphaned-Anchored s =
      dismiss_if-All (λ n. not (has_id n.finding_id s.findings)) s.notifications (λ n. refl)
