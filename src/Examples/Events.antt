-- ===== src/Examples/Events.antt =====
-- The broker and the heartbeat at concrete values.
use archer.Prelude.{ℕ, zero, suc, ◌≡◌, ◌⊎◌, refl, true, false, List, [], ◌∷◌, ◌++◌, map, codes, All}
use archer.Broker.{
  offer, drain_channel, Event, resync_required, Client, deliver, receive, clear_overflow, Label,
  published, written, cleared, on_publish, on_receive, Run, begin, after,
}
use archer.Broker.Invariant.{IsFresh, Ordinary}
use archer.Broker.Delivery.{
  epoch_published, epoch_written, Run-epoch_published, Run-recovers, clear_overflow-deliver,
}
use archer.Sensor.{Tick, Memory, offline_type, rsync_type, heartbeat}
use archer.Sensor.Episodes.{beginnings, total, offline_at, rsync_dead_at, heartbeat-episodes}

abbrev client : Client
client = record { id = 1; buffer = []; overflow = false; clearing = false }

abbrev event : Event
event = record { type = codes "finding"; payload = codes "{}" }

one_written : Run client (written event ∷ published event ∷ []) client
unfolding deliver receive
one_written =
    after (after begin (on_publish {d = record client { buffer = event ∷ [] }} event refl))
      (on_receive event refl)

Run-epoch_published_example :
    epoch_published (written event ∷ published event ∷ [])
    ≡ epoch_written (written event ∷ published event ∷ []) ++ []
Run-epoch_published_example =
    Run-epoch_published (refl, refl, refl) one_written (tt, (refl, tt)) refl

-- The client after n publications that it does not read: in overflow after 33.
unfoldable flood : ℕ → List Label
flood zero = []
flood (suc n) = published event ∷ flood n

unfoldable flooded : ℕ → Client
flooded zero = client
flooded (suc n) = deliver event (flooded n)

flood-Run : (n : ℕ) → Run client (flood n) (flooded n)
unfolding flood flooded
flood-Run zero = begin
flood-Run (suc n) = after (flood-Run n) (on_publish event refl)

flood-Ordinary : (n : ℕ) → All Ordinary (flood n)
unfolding flood
flood-Ordinary zero = tt
flood-Ordinary (suc n) = (refl, flood-Ordinary n)

flooded_overflow : (flooded 33).overflow ≡ true
unfolding flooded deliver offer
flooded_overflow = refl

Run-recovers_example :
    (d : Client) × IsFresh d
    × (Run client (cleared ∷ flood 33) d
        ⊎ Run client (cleared ∷ written resync_required ∷ flood 33) d)
Run-recovers_example =
    Run-recovers (refl, refl, refl) (flood-Run 33) (flood-Ordinary 33) flooded_overflow

abbrev told : Client
told = record client { overflow = true; clearing = true }

told-Run : Run client (written resync_required ∷ flood 33) told
unfolding flooded deliver receive offer drain_channel
told-Run = after (flood-Run 33) (on_receive resync_required refl)

clear_overflow-deliver_example :
    (clear_overflow (deliver event told) ≡ clear_overflow told)
    × IsFresh (clear_overflow (deliver event told))
clear_overflow-deliver_example =
    clear_overflow-deliver event (refl, refl, refl) told-Run (tt, flood-Ordinary 33) refl

abbrev tick : Tick
tick = record {
  config = record { sensor_stale_threshold_hours = 2; rsync_stale_threshold_hours = 0 };
  sensors =
      record { name = codes "lab"; status = codes "enrolled"; last_seen_at = 1000 }
      ∷ record { name = codes "edge"; status = codes "enrolled"; last_seen_at = 99000 }
      ∷ [];
  now = 100000;
  log_mtime = λ name status. 2000;
}

abbrev start : Memory
start = record { active = λ n. false; rsync_active = λ n. false }

heartbeat-episodes_example :
    (total offline_type (codes "lab") (heartbeat start (tick ∷ tick ∷ []))
      ≡ beginnings false (map (offline_at (codes "lab")) (tick ∷ tick ∷ [])))
    × (total rsync_type (codes "lab") (heartbeat start (tick ∷ tick ∷ []))
        ≡ beginnings false (map (rsync_dead_at (codes "lab")) (tick ∷ tick ∷ [])))
heartbeat-episodes_example = heartbeat-episodes start (tick ∷ tick ∷ []) (codes "lab")
