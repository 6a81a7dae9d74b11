-- ===== src/Sensor.antt =====
-- The sensor heartbeat of internal/server/sensor_heartbeat.go: the scan that raises alarms, and the
-- rows of the health endpoint. Ages are differences of epoch seconds, 0 where the source has a
-- negative one; every threshold is positive, so no comparison tells them apart.
pub mod Effect
pub mod Episodes
use archer.Prelude.{
  ℕ, zero, suc, ◌+◌, ◌-◌, ◌*◌, ◌/◌, ◌%◌, Bool, true, false, not, ◌&&◌, ◌||◌, List, [], ◌∷◌, ◌++◌,
  Text, codes, ltb, leb, ◌==◌, if◌then◌else◌, text_eq, decimal,
}

-- The fields of config.Config that the scan reads.
pub record Config : Type 0 where
  pub sensor_stale_threshold_hours : ℕ
  pub rsync_stale_threshold_hours : ℕ

-- model.Sensor, as far as it is read
pub record Sensor : Type 0 where
  pub name : Text
  pub status : Text
  pub last_seen_at : ℕ

-- model.Notification, as far as the scan sets it
pub record Alarm : Type 0 where
  pub kind : Text
  pub target : Text
  pub severity : Text
  pub type : Text
  pub detail : Text

abbrev pub offline_type : Text
offline_type = codes "Sensor offline"

abbrev pub rsync_type : Text
rsync_type = codes "Sensor rsync stopped"

unfoldable pub sensor_stale_sec : Config → ℕ
sensor_stale_sec cfg =
    if ltb 0 cfg.sensor_stale_threshold_hours then cfg.sensor_stale_threshold_hours * 3600 else 7200

unfoldable pub rsync_stale_sec : Config → ℕ
rsync_stale_sec cfg =
    if ltb 0 cfg.rsync_stale_threshold_hours
    then cfg.rsync_stale_threshold_hours * 3600
    else 4 * 3600

unfoldable pub human_duration : ℕ → Text
human_duration sec =
    let mins = sec / 60 in
    if ltb sec 60
    then codes "less than a minute"
    else if ltb mins 60
    then decimal mins ++ codes "m"
    else if mins % 60 == 0
    then decimal (mins / 60) ++ codes "h"
    else decimal (mins / 60) ++ (codes "h " ++ (decimal (mins % 60) ++ codes "m"))

-- The four maps of a scan, and the alarms that it has handed to AddAlarm and Publish, in order.
pub record Scan : Type 0 where
  pub active : Text → Bool
  pub rsync_active : Text → Bool
  pub still_offline : Text → Bool
  pub still_rsync_dead : Text → Bool
  pub alarms : List Alarm

-- `m[name] = true`
abbrev pub mark : Text → (Text → Bool) → Text → Bool
mark name m k = text_eq name k || m k

abbrev pub offline_alarm : Sensor → ℕ → Alarm
offline_alarm sn age = record {
  kind = codes "sensor";
  target = sn.name;
  severity = codes "HIGH";
  type = offline_type;
  detail = codes "Sensor " ++ (sn.name ++ (codes " hasn't checked in for " ++ human_duration age));
}

abbrev pub rsync_alarm : Sensor → ℕ → Alarm
rsync_alarm sn gap = record {
  kind = codes "sensor";
  target = sn.name;
  severity = codes "HIGH";
  type = rsync_type;
  detail =
      codes "Sensor "
      ++ (sn.name
          ++ (codes " is checking in but rsync has not landed files in " ++ human_duration gap));
}

unfoldable pub raise_offline : Sensor → ℕ → Scan → Scan
raise_offline sn age st =
    if st.active sn.name
    then record st { still_offline = mark sn.name st.still_offline }
    else record st {
      still_offline = mark sn.name st.still_offline;
      alarms = st.alarms ++ (offline_alarm sn age ∷ []);
      active = mark sn.name st.active;
    }

unfoldable pub raise_rsync : Sensor → ℕ → Scan → Scan
raise_rsync sn gap st =
    if st.rsync_active sn.name
    then record st { still_rsync_dead = mark sn.name st.still_rsync_dead }
    else record st {
      still_rsync_dead = mark sn.name st.still_rsync_dead;
      alarms = st.alarms ++ (rsync_alarm sn gap ∷ []);
      rsync_active = mark sn.name st.rsync_active;
    }

-- The later of the last checkin and the last log file.
abbrev pub later : ℕ → ℕ → ℕ
later seen mtime = if ltb seen mtime then mtime else seen

-- What one tick reads: the configuration, the sensors, the time, and the file system as
-- lastLogMTime reads it.
pub record Tick : Type 0 where
  pub config : Config
  pub sensors : List Sensor
  pub now : ℕ
  pub log_mtime : Text → Text → ℕ

-- the body of the loop of scanSensorHeartbeat
unfoldable pub scan_one : Tick → Scan → Sensor → Scan
unfolding sensor_stale_sec rsync_stale_sec raise_offline raise_rsync
scan_one t st sn =
    let mtime = t.log_mtime sn.name sn.status in
    let latest = later sn.last_seen_at mtime in
    if not (text_eq sn.status (codes "enrolled"))
    then st
    else if latest == 0
    then st
    else if leb (sensor_stale_sec t.config) (t.now - latest)
    then raise_offline sn (t.now - latest) st
    else if ltb 0 sn.last_seen_at && ltb 0 mtime
    then if leb (rsync_stale_sec t.config) (sn.last_seen_at - mtime)
      then raise_rsync sn (sn.last_seen_at - mtime) st
      else st
    else st

unfoldable pub scan_all : Tick → Scan → List Sensor → Scan
unfolding scan_one
scan_all t st [] = st
scan_all t st (sn ∷ sns) = scan_all t (scan_one t st sn) sns

-- The maps `active` and `rsyncActive` between two scans.
pub record Memory : Type 0 where
  pub active : Text → Bool
  pub rsync_active : Text → Bool

abbrev pub begin_scan : Memory → Scan
begin_scan e = record {
  active = e.active;
  rsync_active = e.rsync_active;
  still_offline = λ n. false;
  still_rsync_dead = λ n. false;
  alarms = [];
}

-- scanSensorHeartbeat: the maps after it, and the alarms it raised
unfoldable pub scan_sensor_heartbeat : Tick → Memory → Memory × List Alarm
unfolding scan_all
scan_sensor_heartbeat t e =
    let st = scan_all t (begin_scan e) t.sensors in
    (
      record {
        active = λ n. st.active n && st.still_offline n;
        rsync_active = λ n. st.rsync_active n && st.still_rsync_dead n;
      },
      st.alarms,
    )

-- sensorHealth
pub record SensorHealth : Type 0 where
  pub name : Text
  pub status : Text
  pub last_seen_at : ℕ
  pub stale : Bool
  pub stale_for_seconds : ℕ
  pub stale_threshold_sec : ℕ

-- the row of one sensor
unfoldable pub health_row : Tick → Sensor → SensorHealth
unfolding sensor_stale_sec
health_row t sn =
    let latest = later sn.last_seen_at (t.log_mtime sn.name sn.status) in
    let threshold = sensor_stale_sec t.config in
    let stale = ltb 0 latest && leb threshold (t.now - latest) in
    record {
      name = sn.name;
      status = sn.status;
      last_seen_at = latest;
      stale = stale;
      stale_for_seconds = if stale then t.now - latest - threshold else 0;
      stale_threshold_sec = threshold;
    }

-- the rows that handleSensorsHealth writes for a GET request
unfoldable pub health_rows : Tick → List Sensor → List SensorHealth
unfolding health_row
health_rows t [] = []
health_rows t (sn ∷ sns) =
    let rest = health_rows t sns in
    if not (text_eq sn.status (codes "enrolled")) then rest else health_row t sn ∷ rest

-- startSensorHeartbeatLoop: the ticks in order, from empty maps, with the alarms of each
unfoldable pub heartbeat : Memory → List Tick → List (List Alarm)
heartbeat e [] = []
heartbeat e (t ∷ ts) = let r = scan_sensor_heartbeat t e in r.1 ∷ heartbeat r.0 ts
