-- ===== src/Examples/Bells.antt =====
-- The bell and the pruning of findings at concrete stores.
use archer.Prelude.{
  ℕ, ◌+◌, ◌≡◌, ◌&&◌, refl, true, none, List, [], ◌∷◌, codes, length, ltb, All, arith,
}
use archer.Examples.Instances.{small_net, small_times}
use archer.Examples.Sets.{scan}
use archer.Finding.{Finding}
use archer.Store.Merge.{max_id}
use archer.Store.Pairs.{rebuild_pair_allow_idx}
use archer.Store.Bell.{Store, set_findings_impl}
use archer.Store.Bell.Ops.{Op, run, Honest, run-Honest}
use archer.Store.Bell.NewOnly.{set_findings_impl-new_only}
use archer.Store.Retention.{
  prune_findings_before, count_findings_before, prune_findings_before-Retains, Retains,
}

abbrev pub loud : Finding ℕ
loud = record (scan 1 []) { score = 97 }

abbrev pub fresh_store : Store small_net ℕ
fresh_store = record {
  findings = [];
  allowlist = [];
  allowlist_m = none;
  suppressions = [];
  pair_allow = [];
  pair_idx = rebuild_pair_allow_idx small_net [];
  notifications = [];
  notif_counter = 0;
}

-- A run rings for a finding, then its source is suppressed, and a rule for its pair is added.
abbrev day : List (ℕ × Op ℕ)
day =
    (10, Op.full_run (loud ∷ []))
    ∷ (20, Op.suppress (codes "10.0.0.5") 90 [])
    ∷ (30, Op.unsuppress (codes "10.0.0.5"))
    ∷ (40, Op.incremental_run (loud ∷ []))
    ∷ []

run-Honest_example : Honest small_net 60 (run small_net day fresh_store)
run-Honest_example =
    run-Honest small_net 5 60 day fresh_store
      (omega arith, (omega arith, (omega arith, (omega arith, tt)))) (tt, (tt, (tt, (tt, tt))))
      (record { built = refl; quiet = tt }) (omega arith)

set_findings_impl-new_only_example :
    All
      (λ n. (true && ltb (max_id fresh_store.findings) n.finding_id) ≡ true)
      (set_findings_impl small_net ℕ 10 true true (loud ∷ []) fresh_store).1
set_findings_impl-new_only_example =
    set_findings_impl-new_only small_net 10 true true (loud ∷ []) fresh_store

abbrev two_findings : Store small_net ℕ
two_findings = record fresh_store { findings = loud ∷ record loud { id = 2; timestamp = [] } ∷ [] }

prune_findings_before-Retains_example :
    Retains small_times 5000 two_findings.findings
      (prune_findings_before small_times small_net 5000 two_findings).1.findings
    × ((prune_findings_before small_times small_net 5000 two_findings).0
        ≡ count_findings_before small_times small_net 5000 two_findings)
    × (count_findings_before small_times small_net 5000 two_findings
          + length (prune_findings_before small_times small_net 5000 two_findings).1.findings
        ≡ length two_findings.findings)
    × (count_findings_before small_times small_net 5000
          (prune_findings_before small_times small_net 5000 two_findings).1
        ≡ 0)
prune_findings_before-Retains_example =
    prune_findings_before-Retains small_times small_net 5000 two_findings
