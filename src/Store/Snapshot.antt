-- ===== src/Store/Snapshot.antt =====
-- FilterSnapshot of internal/store/store.go: what a listing reads of the suppressions and of the
-- pair allowlist, as it was when the snapshot was taken.
use archer.Prelude.{
  ℕ, Bool, false, not, ◌&&◌, ◌||◌, Option, none, some, List, [], ◌∷◌, Text, ltb, ◌≡◌, refl, text_eq,
  any, lookup_text, Bool-cases, inl, inr,
}
use archer.Net.{Net}
use archer.Store.Pairs.{
  PairIndex, PairAllowRule, PairAllowScanRule, rules_at, pair_allow_key, empty_or, scan_matches,
  is_pair_allowed,
}
use archer.Store.Bell.{Store, Suppressions, is_suppressed}

abbrev expired_after : ℕ → Option ℕ → Bool
expired_after now none = false
expired_after now (some expiry) = not (ltb expiry now)

unfoldable pub expiries : Suppressions → List (Text × ℕ)
expiries [] = []
expiries ((k, e) ∷ m) = (k, e.expiry) ∷ expiries m

module _ (net : Net) where
  pub record FilterSnapshot : Type 0 where
    pub suppressions : List (Text × ℕ)
    pub pair_allow_idx : PairIndex
    pub pair_allow_scan : List (PairAllowScanRule net)
    pub now : ℕ

  unfoldable pub new_filter_snapshot : {Float : Type 0} → ℕ → Store net Float → FilterSnapshot
  new_filter_snapshot now s = record {
    suppressions = expiries s.suppressions;
    pair_allow_idx = s.pair_idx.exact;
    pair_allow_scan = s.pair_idx.ranged;
    now = now;
  }

  -- IsSuppressed
  unfoldable pub snapshot_suppresses : FilterSnapshot → Text → Bool
  snapshot_suppresses fs ip = expired_after fs.now (lookup_text ip fs.suppressions)

  -- IsPairAllowed
  unfoldable pub snapshot_allows_pair : FilterSnapshot → Text → Text → Text → Text → Text → Bool
  snapshot_allows_pair fs src dst port ftype sensor =
      any (λ (r : PairAllowRule). empty_or r.sensor sensor && empty_or r.ftype ftype)
        (rules_at (pair_allow_key src dst port) fs.pair_allow_idx)
      || any (λ (r : PairAllowScanRule net). scan_matches net r src dst port ftype sensor)
          fs.pair_allow_scan

expired_after-expiries :
    (now : ℕ) (m : Suppressions) (ip : Text)
    → expired_after now (lookup_text ip (expiries m)) ≡ is_suppressed now m ip
unfolding expiries is_suppressed lookup_text
expired_after-expiries now [] ip = refl
expired_after-expiries now ((k, e) ∷ m) ip = elim (Bool-cases (text_eq k ip)) [
  | inl p ↦ rw p refl
  | inr p ↦ rw p (expired_after-expiries now m ip)
]

module _ (net : Net) {Float : Type 0} (now : ℕ) (s : Store net Float) where
  -- The snapshot answers as the store does at the time.
  pub snapshot_suppresses-is_suppressed :
      (ip : Text)
      → snapshot_suppresses net (new_filter_snapshot net now s) ip
        ≡ is_suppressed now s.suppressions ip
  unfolding snapshot_suppresses new_filter_snapshot
  snapshot_suppresses-is_suppressed ip = expired_after-expiries now s.suppressions ip

  pub snapshot_allows_pair-is_pair_allowed :
      (src dst port ftype sensor : Text)
      → snapshot_allows_pair net (new_filter_snapshot net now s) src dst port ftype sensor
        ≡ is_pair_allowed net s.pair_idx src dst port ftype sensor
  unfolding snapshot_allows_pair new_filter_snapshot is_pair_allowed
  snapshot_allows_pair-is_pair_allowed src dst port ftype sensor = refl
