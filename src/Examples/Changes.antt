-- ===== src/Examples/Changes.antt =====
-- The updates of findings at a concrete set.
use archer.Prelude.{
  ℕ, ◌≡◌, ◌&&◌, ◌==◌, refl, true, not, List, [], ◌∷◌, map, any, codes, split, text_eq,
  if◌then◌else◌,
}
use archer.Examples.Sets.{scan}
use archer.Finding.{Finding, Note}
use archer.Finding.Identity.{beacon_history_key, scrub_separator}
use archer.Finding.Identity.HistoryKey.{split-beacon_history_key}
use archer.Store.Updates.{Change, rebuild_findings_idx, changed, bulk_update_status}
use archer.Store.Updates.Bulk.{bulk_update_status-map}

abbrev three : List (Finding ℕ)
three = scan 4 [] ∷ record (scan 9 []) { status = codes "dismissed" } ∷ scan 5 [] ∷ []

abbrev dismissal : Change
dismissal = record { status = codes "dismissed"; analyst = codes "kim"; note = []; status_ts = [] }

bulk_update_status-map_example :
    (bulk_update_status true
      (5 ∷ 9 ∷ 5 ∷ 8 ∷ [])
      dismissal
      (record { findings = three; idx = rebuild_findings_idx three })).0.findings
    ≡ map
        (λ (f : Finding ℕ).
          if true
            && (any (λ k. k == f.id) (5 ∷ 9 ∷ 5 ∷ 8 ∷ [])
                && not (text_eq f.status dismissal.status))
          then changed dismissal f
          else f)
        three
bulk_update_status-map_example =
    bulk_update_status-map dismissal three true (5 ∷ 9 ∷ 5 ∷ 8 ∷ [])
      ((refl, (refl, tt)), ((refl, tt), (tt, tt)))

abbrev early : Note
early = record { author = codes "TI"; text = codes "seen"; timestamp = codes "1" }

abbrev late : Note
late = record early { timestamp = codes "2" }

split-beacon_history_key_example :
    split 31 (beacon_history_key (scan 4 (codes "east")))
    ≡ map scrub_separator (
        codes "Strobe"
        ∷ codes "10.0.0.5"
        ∷ codes "192.0.2.1"
        ∷ codes "443"
        ∷ codes "evil.com"
        ∷ []
        ∷ codes "east"
        ∷ (if text_eq [] [] then [] else [] ∷ []))
split-beacon_history_key_example = split-beacon_history_key (scan 4 (codes "east"))
