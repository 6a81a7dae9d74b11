-- ===== src/Store/Bell.antt =====
-- The state of internal/store/store.go that the bell depends on: the findings, what hides a finding,
-- and the notifications. The writes to the database that no operation waits for are left out;
-- instants are numbers of nanoseconds.
pub mod Honest
pub mod NewOnly
pub mod Orphans
pub mod Suppressed
pub mod Ops
use archer.Prelude.{
  ℕ, zero, suc, ◌+◌, ◌/◌, Bool, true, false, not, ◌&&◌, ◌||◌, Option, none, some, List, [], ◌∷◌,
  ◌++◌, map, Text, codes, leb, ltb, ◌==◌, if◌then◌else◌, text_eq, any, lookup_text, length,
}
use archer.Net.{Net, Times}
use archer.Finding.{Finding}
use archer.Matcher.{Matcher, compile, matches}
use archer.Store.Entries.{sanitize_list_entries}
use archer.Store.Merge.{merge, has_id}
use archer.Store.Pairs.{PairAllowEntry, PairIdx, rebuild_pair_allow_idx, is_pair_allowed}

-- model.Notification
pub record Notification : Type 0 where
  pub id : ℕ
  pub kind : Text
  pub target : Text
  pub detail : Text
  pub finding_id : ℕ
  pub severity : Text
  pub type : Text
  pub src_ip : Text
  pub dst_ip : Text
  pub dst_port : Text
  pub sensor : Text
  pub dismissed : Bool

pub record SuppressionEntry : Type 0 where
  pub expiry : ℕ
  pub detail : Text

abbrev pub Suppressions : Type 0
Suppressions = List (Text × SuppressionEntry)

-- `!now.After(entry.Expiry)` of an entry that is there
abbrev pub unexpired : ℕ → Option SuppressionEntry → Bool
unexpired now none = false
unexpired now (some e) = not (ltb e.expiry now)

-- IsSuppressed
unfoldable pub is_suppressed : ℕ → Suppressions → Text → Bool
is_suppressed now m ip = unexpired now (lookup_text ip m)

-- `delete(m, k)`
unfoldable pub delete_key : Text → Suppressions → Suppressions
delete_key k [] = []
delete_key k ((j, e) ∷ m) = let rest = delete_key k m in if text_eq j k then rest else (j, e) ∷ rest

-- the loop of PruneExpiredSuppressions
unfoldable pub prune_expired : ℕ → Suppressions → Suppressions
prune_expired now [] = []
prune_expired now ((k, e) ∷ m) =
    let rest = prune_expired now m in if ltb e.expiry now then delete_key k rest else (k, e) ∷ rest

-- bellExcludedTypes
abbrev pub bell_excluded_types : List Text
bell_excluded_types =
    codes "Host Risk Score" ∷ codes "Suspicious File Download" ∷ codes "Off-Hours Transfer" ∷ []

-- Kind is "finding", or empty as in old rows.
abbrev pub is_finding_kind : Notification → Bool
is_finding_kind n = text_eq n.kind [] || text_eq n.kind (codes "finding")

abbrev pub is_active : Notification → Bool
is_active n = not n.dismissed && is_finding_kind n

-- dismissed, if the test holds of it
abbrev pub dismiss_if : (Notification → Bool) → Notification → Notification
dismiss_if p n = record n { dismissed = n.dismissed || (is_finding_kind n && p n) }

-- what RemovePairAllow's loop leaves
unfoldable pub remove_rule : ℕ → List PairAllowEntry → List PairAllowEntry
remove_rule id [] = []
remove_rule id (e ∷ es) = let rest = remove_rule id es in if e.id == id then es else e ∷ rest

-- what the database answers to AddPairAllow's insert
pub data Insert : Type 0 where
  failed : Insert
  duplicate : ℕ → Insert
  inserted : ℕ → Insert

module _ (net : Net) (Float : Type 0) where
  -- the fields of Store that the operations below read or change
  pub record Store : Type 0 where
    pub findings : List (Finding Float)
    pub allowlist : List Text
    pub allowlist_m : Option (Matcher net)
    pub suppressions : Suppressions
    pub pair_allow : List PairAllowEntry
    pub pair_idx : PairIdx net
    pub notifications : List Notification
    pub notif_counter : ℕ

  -- isHiddenLocked
  unfoldable pub is_hidden : ℕ → Store → Text → Text → Bool
  is_hidden now s src dst =
      matches net s.allowlist_m src
      || matches net s.allowlist_m dst
      || (is_suppressed now s.suppressions src || is_suppressed now s.suppressions dst)

  unfoldable pub hides : ℕ → Store → Text → Text → Text → Text → Text → Bool
  hides now s src dst port ftype sensor =
      is_hidden now s src dst || is_pair_allowed net s.pair_idx src dst port ftype sensor

  abbrev pub hides_notification : ℕ → Store → Notification → Bool
  hides_notification now s n = hides now s n.src_ip n.dst_ip n.dst_port n.type n.sensor

  -- dismissHiddenFindingNotificationsLocked
  unfoldable pub dismiss_hidden : ℕ → Store → Store
  dismiss_hidden now s = record s {
    notifications = map (dismiss_if (hides_notification now s)) s.notifications;
  }

  -- dismissOrphanedFindingNotificationsLocked
  unfoldable pub dismiss_orphaned : Store → Store
  dismiss_orphaned s = record s {
    notifications = map (dismiss_if (λ n. not (has_id n.finding_id s.findings))) s.notifications;
  }

  unfoldable pub set_allowlist : ℕ → List Text → Store → Store
  set_allowlist now entries s =
      let l = sanitize_list_entries entries in
      dismiss_hidden now (record s { allowlist = l; allowlist_m = some (compile net l) })

  unfoldable pub add_suppression : ℕ → Text → ℕ → Text → Store → Store
  add_suppression now target expiry detail s = dismiss_hidden now (record s {
    suppressions =
        (target, record { expiry = expiry; detail = detail }) ∷ delete_key target s.suppressions;
  })

  unfoldable pub remove_suppression : Text → Store → Store
  remove_suppression target s = record s { suppressions = delete_key target s.suppressions }

  unfoldable pub prune_expired_suppressions : ℕ → Store → Store
  prune_expired_suppressions now s = record s { suppressions = prune_expired now s.suppressions }

  unfoldable pub add_pair_allow : ℕ → PairAllowEntry → Insert → Store → Store
  add_pair_allow now e failed s = s
  add_pair_allow now e (duplicate id) s = s
  add_pair_allow now e (inserted id) s =
      let es = s.pair_allow ++ (record e { id = id } ∷ []) in
      dismiss_hidden now (record s { pair_allow = es; pair_idx = rebuild_pair_allow_idx net es })

  -- RemovePairAllow, with whether the database has deleted the rule
  unfoldable pub remove_pair_allow : ℕ → Bool → Store → Store
  remove_pair_allow id false s = s
  remove_pair_allow id true s =
      let es = remove_rule id s.pair_allow in
      record s { pair_allow = es; pair_idx = rebuild_pair_allow_idx net es }

  unfoldable pub add_alarm : Notification → Store → Store
  add_alarm n s = record s {
    notifications = s.notifications ++ (record n { id = suc s.notif_counter } ∷ []);
    notif_counter = suc s.notif_counter;
  }

  -- the loop of DismissNotification
  unfoldable pub dismiss_first : ℕ → List Notification → List Notification
  dismiss_first id [] = []
  dismiss_first id (n ∷ ns) =
      let rest = dismiss_first id ns in
      if n.id == id then record n { dismissed = true } ∷ ns else n ∷ rest

  unfoldable pub dismiss_notification : ℕ → Store → Store
  dismiss_notification id s = record s { notifications = dismiss_first id s.notifications }

  unfoldable pub dismiss_all_notifications : Store → Store
  dismiss_all_notifications s = record s {
    notifications = map (λ (n : Notification). record n { dismissed = true }) s.notifications;
  }

  -- the findings that ring in setFindingsImpl
  unfoldable pub rings : ℕ → Store → Finding Float → Bool
  rings now s f =
      not (any (text_eq f.type) bell_excluded_types)
      && (f.is_new
          && (leb 95 f.score && not (hides now s f.src_ip f.dst_ip f.dst_port f.type f.sensor)))

  abbrev pub notification_of : ℕ → Finding Float → Notification
  notification_of id f = record {
    id = id;
    kind = codes "finding";
    target = [];
    detail = [];
    finding_id = f.id;
    severity = f.severity;
    type = f.type;
    src_ip = f.src_ip;
    dst_ip = f.dst_ip;
    dst_port = f.dst_port;
    sensor = f.sensor;
    dismissed = false;
  }

  -- the notifications of a run, and the counter after them
  unfoldable pub emit : ℕ → Store → List (Finding Float) → ℕ → ℕ × List Notification
  emit now s [] c = (c, [])
  emit now s (f ∷ fs) c =
      let r = emit now s fs (if rings now s f then suc c else c) in
      if rings now s f then (r.0, notification_of (suc c) f ∷ r.1) else r

  abbrev pub emit_if : Bool → ℕ → Store → ℕ × List Notification
  emit_if false now s = (s.notif_counter, [])
  emit_if true now s = emit now s s.findings s.notif_counter

  -- setFindingsImpl: the store after it, and the new notifications
  unfoldable pub set_findings_impl :
      ℕ → Bool → Bool → List (Finding Float) → Store → Store × List Notification
  set_findings_impl now purge emit_notifications batch s =
      let merged = record s {
        findings = merge (now / 1000000000) purge emit_notifications s.findings batch;
      } in
      let r = emit_if emit_notifications now merged in
      (record merged { notifications = s.notifications ++ r.1; notif_counter = r.0 }, r.1)

  unfoldable pub set_findings : ℕ → List (Finding Float) → Store → Store × List Notification
  set_findings now batch s = set_findings_impl now true true batch s

  unfoldable pub set_findings_incremental :
      ℕ → List (Finding Float) → Store → Store × List Notification
  set_findings_incremental now batch s = set_findings_impl now false true batch s

  unfoldable pub set_findings_for_import : ℕ → List (Finding Float) → Store → Store
  set_findings_for_import now batch s = (set_findings_impl now true false batch s).0

  unfoldable pub clear_findings : Store → ℕ × Store
  clear_findings s = (length s.findings, dismiss_orphaned (record s { findings = [] }))
