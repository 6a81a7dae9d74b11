-- ===== src/Sensor/Episodes.antt =====
-- The scan raises one alarm for an episode, and the health endpoint agrees with it.
use archer.Prelude.{
  ℕ, ◌+◌, ◌≡◌, refl, sym, ◌∙◌, map, ap, Bool, not, ◌&&◌, List, [], ◌∷◌, Text, if◌then◌else◌,
  text_eq, any, arith,
}
use archer.Sensor.{
  Sensor, Alarm, offline_type, rsync_type, SensorHealth, Tick, Memory, begin_scan,
  scan_sensor_heartbeat, health_rows, heartbeat,
}
use archer.Sensor.Effect.{is_offline, offline_named, rsync_dead_named, count, scan_all-Effect}

-- For every tick, memory and name: after a scan the two maps hold the name exactly if a sensor of
-- that name is offline now, or has logs that have stopped, whatever they held before; and the scan
-- raises one alarm of each type for the name if that is so and it was not so in the memory, and
-- none if not.
pub scan_sensor_heartbeat-episode :
    (t : Tick) (e : Memory) (n : Text)
    → let r = scan_sensor_heartbeat t e in
      let offline = offline_named t n t.sensors in
      let dead = rsync_dead_named t n t.sensors in
      (r.0.active n ≡ offline)
      × (r.0.rsync_active n ≡ dead)
      × (count offline_type n r.1 ≡ (if offline && not (e.active n) then 1 else 0))
      × (count rsync_type n r.1 ≡ (if dead && not (e.rsync_active n) then 1 else 0))
unfolding scan_sensor_heartbeat count
scan_sensor_heartbeat-episode t e n =
    let f = scan_all-Effect t n (begin_scan e) t.sensors in
    (
      ground (arith, f.active_eq, f.still_eq),
      ground (arith, f.rsync_active_eq, f.rsync_still_eq),
      omega (arith, f.count_eq),
      omega (arith, f.rsync_count_eq),
    )

-- How often a condition begins, from whether it held before.
unfoldable pub beginnings : Bool → List Bool → ℕ
beginnings b [] = 0
beginnings b (c ∷ cs) = (if c && not b then 1 else 0) + beginnings c cs

abbrev pub total : Text → Text → List (List Alarm) → ℕ
total k n [] = 0
total k n (r ∷ rs) = count k n r + total k n rs

abbrev pub offline_at : Text → Tick → Bool
offline_at n t = offline_named t n t.sensors

abbrev pub rsync_dead_at : Text → Tick → Bool
rsync_dead_at n t = rsync_dead_named t n t.sensors

-- For every memory at the start, sequence of ticks and name: the number of alarms of each type
-- that the loop raises for the name is the number of ticks at which its condition holds and did
-- not hold before.
pub heartbeat-episodes :
    (e : Memory) (ts : List Tick) (n : Text)
    → (total offline_type n (heartbeat e ts) ≡ beginnings (e.active n) (map (offline_at n) ts))
      × (total rsync_type n (heartbeat e ts)
          ≡ beginnings (e.rsync_active n) (map (rsync_dead_at n) ts))
unfolding heartbeat beginnings
heartbeat-episodes e [] n = (refl, refl)
heartbeat-episodes e (t ∷ ts) n =
    let f = scan_sensor_heartbeat-episode t e n in
    let ih = heartbeat-episodes (scan_sensor_heartbeat t e).0 ts n in
    (
      omega (arith, f.2, ih.0, ap (λ b. beginnings b (map (offline_at n) ts)) f.0),
      omega (arith, f.3, ih.1, ap (λ b. beginnings b (map (rsync_dead_at n) ts)) f.1),
    )

-- The names of the rows that the health endpoint calls stale.
abbrev pub stale_named : Text → List SensorHealth → Bool
stale_named n rows = any (λ h. text_eq h.name n && h.stale) rows

-- The health endpoint and the alarms agree: at any tick, a row of a name is stale exactly if the
-- name is in the map `active` after the scan.
pub health_rows-stale :
    (t : Tick) (e : Memory) (n : Text)
    → stale_named n (health_rows t t.sensors) ≡ (scan_sensor_heartbeat t e).0.active n
unfolding health_rows is_offline
health_rows-stale t e n = rows t.sensors ∙ sym (scan_sensor_heartbeat-episode t e n).0
  where
    rows : (sns : List Sensor) → stale_named n (health_rows t sns) ≡ offline_named t n sns
    rows [] = refl
    rows (sn ∷ sns) = ground (arith, rows sns)
