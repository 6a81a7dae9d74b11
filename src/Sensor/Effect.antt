-- ===== src/Sensor/Effect.antt =====
-- What the scan does to the entries and the alarms of one name.
use archer.Prelude.{
  ℕ, suc, ◌+◌, ◌-◌, ◌≡◌, inl, inr, refl, ap, Bool, true, false, not, ◌&&◌, ◌||◌, List, [], ◌∷◌,
  ◌++◌, Text, codes, ltb, leb, ◌==◌, if◌then◌else◌, text_eq, text_eq_sound, any, arith, Bool-cases,
}
use archer.Sensor.{
  Sensor, Alarm, offline_type, rsync_type, sensor_stale_sec, rsync_stale_sec, Scan, raise_offline,
  raise_rsync, later, offline_alarm, rsync_alarm, Tick, scan_one, scan_all,
}

-- A sensor is offline: it is enrolled, it was seen, and neither its checkins nor its logs are
-- recent.
unfoldable pub is_offline : Tick → Sensor → Bool
unfolding sensor_stale_sec
is_offline t sn =
    let latest = later sn.last_seen_at (t.log_mtime sn.name sn.status) in
    text_eq sn.status (codes "enrolled")
    && (not (latest == 0) && leb (sensor_stale_sec t.config) (t.now - latest))

-- Its logs have stopped: it is enrolled and not offline, it has checked in and has had logs, and the
-- logs are behind the checkin.
unfoldable pub is_rsync_dead : Tick → Sensor → Bool
unfolding is_offline rsync_stale_sec
is_rsync_dead t sn =
    let mtime = t.log_mtime sn.name sn.status in
    (text_eq sn.status (codes "enrolled") && not (is_offline t sn))
    && ((ltb 0 sn.last_seen_at && ltb 0 mtime)
        && leb (rsync_stale_sec t.config) (sn.last_seen_at - mtime))

-- Some sensor of that name is offline, or has no logs coming.
abbrev pub offline_named : Tick → Text → List Sensor → Bool
offline_named t n sns = any (λ sn. text_eq sn.name n && is_offline t sn) sns

abbrev pub rsync_dead_named : Tick → Text → List Sensor → Bool
rsync_dead_named t n sns = any (λ sn. text_eq sn.name n && is_rsync_dead t sn) sns

-- the number of alarms of a type for a name
unfoldable pub count : Text → Text → List Alarm → ℕ
count k n [] = 0
count k n (a ∷ rest_of) =
    let rest = count k n rest_of in
    if text_eq a.type k && text_eq a.target n then suc rest else rest

count-append :
    (k n : Text) (xs ys : List Alarm) → count k n (xs ++ ys) ≡ count k n xs + count k n ys
unfolding count
count-append k n [] ys = omega arith
count-append k n (a ∷ xs) ys = ground (arith, count-append k n xs ys)

latest_pos : (seen mtime : ℕ) → (ltb 0 seen && ltb 0 mtime) ≡ true → (later seen mtime == 0) ≡ false
latest_pos seen mtime h = ground arith

scan_one_offline :
    (t : Tick) (st : Scan) (sn : Sensor)
    → is_offline t sn ≡ true
    → scan_one t st sn
      ≡ raise_offline sn (t.now - later sn.last_seen_at (t.log_mtime sn.name sn.status)) st
unfolding scan_one is_offline
scan_one_offline t st sn h = ground arith

scan_one_rsync :
    (t : Tick) (st : Scan) (sn : Sensor)
    → is_rsync_dead t sn ≡ true
    → scan_one t st sn ≡ raise_rsync sn (sn.last_seen_at - t.log_mtime sn.name sn.status) st
unfolding scan_one is_rsync_dead is_offline
scan_one_rsync t st sn h =
    ground (arith, latest_pos sn.last_seen_at (t.log_mtime sn.name sn.status))

scan_one_healthy :
    (t : Tick) (st : Scan) (sn : Sensor)
    → is_offline t sn ≡ false
    → is_rsync_dead t sn ≡ false
    → scan_one t st sn ≡ st
unfolding scan_one is_rsync_dead is_offline
scan_one_healthy t st sn h k =
    ground (arith, latest_pos sn.last_seen_at (t.log_mtime sn.name sn.status))

-- What one sensor does to the entries of a name, and to the count of its alarms.
pub record Effect (t : Tick) (n : Text) (st su : Scan) (offline dead : Bool) : Type 0 where
  pub active_eq : su.active n ≡ (offline || st.active n)
  pub still_eq : su.still_offline n ≡ (offline || st.still_offline n)
  pub count_eq :
      count offline_type n su.alarms
      ≡ count offline_type n st.alarms + (if offline && not (st.active n) then 1 else 0)
  pub rsync_active_eq : su.rsync_active n ≡ (dead || st.rsync_active n)
  pub rsync_still_eq : su.still_rsync_dead n ≡ (dead || st.still_rsync_dead n)
  pub rsync_count_eq :
      count rsync_type n su.alarms
      ≡ count rsync_type n st.alarms + (if dead && not (st.rsync_active n) then 1 else 0)

count_raised :
    (k n : Text) (xs : List Alarm) (a : Alarm)
    → count k n (xs ++ (a ∷ []))
      ≡ count k n xs + (if text_eq a.type k && text_eq a.target n then 1 else 0)
unfolding count
count_raised k n xs a = ground (arith, count-append k n xs (a ∷ []))

-- a map has one entry for equal names
same_entry : (m : Text → Bool) (a n : Text) → text_eq a n ≡ true → m a ≡ m n
same_entry m a n p = ap m (text_eq_sound a n p)

raise_offline-Effect :
    (t : Tick) (n : Text) (st : Scan) (sn : Sensor) (age : ℕ)
    → Effect t n st (raise_offline sn age st) (text_eq sn.name n) false
unfolding raise_offline count
raise_offline-Effect t n st sn age = elim (Bool-cases (st.active sn.name)) [
  | inl p ↦
      let same = same_entry st.active sn.name n in
      rw p record {
        active_eq = ground (arith, same);
        still_eq = refl;
        count_eq = ground (arith, same);
        rsync_active_eq = refl;
        rsync_still_eq = refl;
        rsync_count_eq = omega arith;
      }
  | inr p ↦
      let same = same_entry st.active sn.name n in
      rw p record {
        active_eq = refl;
        still_eq = refl;
        count_eq =
            ground (arith, same, count_raised offline_type n st.alarms (offline_alarm sn age));
        rsync_active_eq = refl;
        rsync_still_eq = refl;
        rsync_count_eq = ground (arith, count_raised rsync_type n st.alarms (offline_alarm sn age));
      }
]

raise_rsync-Effect :
    (t : Tick) (n : Text) (st : Scan) (sn : Sensor) (gap : ℕ)
    → Effect t n st (raise_rsync sn gap st) false (text_eq sn.name n)
unfolding raise_rsync count
raise_rsync-Effect t n st sn gap = elim (Bool-cases (st.rsync_active sn.name)) [
  | inl p ↦
      let same = same_entry st.rsync_active sn.name n in
      rw p record {
        active_eq = refl;
        still_eq = refl;
        count_eq = omega arith;
        rsync_active_eq = ground (arith, same);
        rsync_still_eq = refl;
        rsync_count_eq = ground (arith, same);
      }
  | inr p ↦
      let same = same_entry st.rsync_active sn.name n in
      rw p record {
        active_eq = refl;
        still_eq = refl;
        count_eq = ground (arith, count_raised offline_type n st.alarms (rsync_alarm sn gap));
        rsync_active_eq = refl;
        rsync_still_eq = refl;
        rsync_count_eq =
            ground (arith, same, count_raised rsync_type n st.alarms (rsync_alarm sn gap));
      }
]

and_true : (b : Bool) → (b && true) ≡ b
and_true b = ground arith

and_false : (b : Bool) → (b && false) ≡ false
and_false b = ground arith

offline_alive : (t : Tick) (sn : Sensor) → is_offline t sn ≡ true → is_rsync_dead t sn ≡ false
unfolding is_rsync_dead
offline_alive t sn p = ground arith

nothing-Effect : (t : Tick) (n : Text) (st : Scan) → Effect t n st st false false
nothing-Effect t n st = record {
  active_eq = refl;
  still_eq = refl;
  count_eq = omega arith;
  rsync_active_eq = refl;
  rsync_still_eq = refl;
  rsync_count_eq = omega arith;
}

scan_one-Effect :
    (t : Tick) (n : Text) (st : Scan) (sn : Sensor)
    → Effect t n st
        (scan_one t st sn)
        (text_eq sn.name n && is_offline t sn)
        (text_eq sn.name n && is_rsync_dead t sn)
scan_one-Effect t n st sn = elim (Bool-cases (is_offline t sn)) [
  | inl p ↦
      rw
        (
          scan_one_offline t st sn p,
          p,
          offline_alive t sn p,
          and_true (text_eq sn.name n),
          and_false (text_eq sn.name n),
        )
        (raise_offline-Effect t n st sn _)
  | inr p ↦ elim (Bool-cases (is_rsync_dead t sn)) [
    | inl q ↦
        rw
          (
            scan_one_rsync t st sn q,
            p,
            q,
            and_true (text_eq sn.name n),
            and_false (text_eq sn.name n),
          )
          (raise_rsync-Effect t n st sn _)
    | inr q ↦
        rw (scan_one_healthy t st sn p q, p, q, and_false (text_eq sn.name n))
          (nothing-Effect t n st)
  ]
]

then-Effect :
    (t : Tick) (n : Text) (st su sv : Scan) (a b a' b' : Bool)
    → Effect t n st su a b
    → Effect t n su sv a' b'
    → Effect t n st sv (a || a') (b || b')
then-Effect t n st su sv a b a' b' e f = record {
  active_eq = ground (arith, e.active_eq, f.active_eq);
  still_eq = ground (arith, e.still_eq, f.still_eq);
  count_eq = ground (arith, e.active_eq, e.count_eq, f.count_eq);
  rsync_active_eq = ground (arith, e.rsync_active_eq, f.rsync_active_eq);
  rsync_still_eq = ground (arith, e.rsync_still_eq, f.rsync_still_eq);
  rsync_count_eq = ground (arith, e.rsync_active_eq, e.rsync_count_eq, f.rsync_count_eq);
}

pub scan_all-Effect :
    (t : Tick) (n : Text) (st : Scan) (sns : List Sensor)
    → Effect t n st (scan_all t st sns) (offline_named t n sns) (rsync_dead_named t n sns)
unfolding scan_all
scan_all-Effect t n st [] = nothing-Effect t n st
scan_all-Effect t n st (sn ∷ sns) =
    then-Effect t n st _ _ _ _ _ _ (scan_one-Effect t n st sn)
      (scan_all-Effect t n (scan_one t st sn) sns)
