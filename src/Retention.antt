-- ===== src/Retention.antt =====
-- `cleanupSessions` of controllers/backupsession_controller_helper.go: which successful backups of a
-- configuration are kept. `sort.Slice` is a parameter: its order of equal elements is not specified.
pub mod Plan
pub mod Bound
pub mod Newest
pub mod Calendar
pub mod Again
pub mod Settled
pub mod Order
use formol.Prelude.{
  ℕ, ◌<◌, ℤ, pos, ltb_ℤ, pred_ℤ, ltb, same_number, length, String, Bool, true, false, not, ◌&&◌,
  Option, none, some, List, [], ◌∷◌, ◌++◌, is_empty, ◌==◌, ◌<>◌, if◌then◌else◌,
}
use formol.Api.Meta.{Weekday, sunday, Time, zero_time}
use formol.Api.Config.{Keep, BackupConfiguration}
use formol.Api.Session.{success, BackupSession}
use formol.Api.Objects
use formol.Api.Objects.{Kind}
use formol.Client.{Client}
use formol.Outcome.{
  Result, ok, err, panic, Action, return, lift, resume, ◌>>=◌, ◌>>◌, ignore, attempt, caught,
}

pub record KeepBackup : Type 0 where
  pub counter : ℤ
  pub last : Time

pub record Buckets : Type 0 where
  pub last : KeepBackup
  pub daily : KeepBackup
  pub weekly : KeepBackup
  pub monthly : KeepBackup
  pub yearly : KeepBackup

-- The counters from the configuration, and no backup kept so far.
unfoldable pub buckets_of : Keep → Buckets
buckets_of keep = record {
  last = record { counter = keep.last; last = zero_time };
  daily = record { counter = keep.daily; last = zero_time };
  weekly = record { counter = keep.weekly; last = zero_time };
  monthly = record { counter = keep.monthly; last = zero_time };
  yearly = record { counter = keep.yearly; last = zero_time };
}

abbrev pub is_sunday : Weekday → Bool
is_sunday sunday = true
is_sunday _ = false

abbrev pub differ : ℕ → ℕ → Bool
differ a b = not (same_number a b)

-- The tests of the five blocks.
unfoldable pub keeps_last : Buckets → Time → Bool
keeps_last b t = ltb_ℤ (pos 0) b.last.counter

unfoldable pub keeps_daily : Buckets → Time → Bool
keeps_daily b t = ltb_ℤ (pos 0) b.daily.counter && differ t.year_day b.daily.last.year_day

unfoldable pub keeps_weekly : Buckets → Time → Bool
keeps_weekly b t =
    ltb_ℤ (pos 0) b.weekly.counter
    && (is_sunday t.weekday && differ t.year_day b.weekly.last.year_day)

unfoldable pub keeps_monthly : Buckets → Time → Bool
keeps_monthly b t =
    ltb_ℤ (pos 0) b.monthly.counter && (same_number t.day 1 && differ t.month b.monthly.last.month)

unfoldable pub keeps_yearly : Buckets → Time → Bool
keeps_yearly b t =
    ltb_ℤ (pos 0) b.yearly.counter && (same_number t.year_day 1 && differ t.year b.yearly.last.year)

-- A backup that is kept is counted, and but for `last` its time is remembered.
abbrev pub counted : Bool → Time → KeepBackup → KeepBackup
counted true t k = record { counter = pred_ℤ k.counter; last = t }
counted false t k = k

abbrev pub count_last : Bool → KeepBackup → KeepBackup
count_last true k = record k { counter = pred_ℤ k.counter }
count_last false k = k

unfoldable pub after_session : Buckets → Time → Buckets
unfolding keeps_last keeps_daily keeps_weekly keeps_monthly keeps_yearly
after_session b t = record {
  last = count_last (keeps_last b t) b.last;
  daily = counted (keeps_daily b t) t b.daily;
  weekly = counted (keeps_weekly b t) t b.weekly;
  monthly = counted (keeps_monthly b t) t b.monthly;
  yearly = counted (keeps_yearly b t) t b.yearly;
}

abbrev pub label : Bool → String → List String
label true name = name ∷ []
label false name = []

-- `keep`: the reasons to keep the session. It is deleted if there is none.
unfoldable pub reasons : Buckets → Time → List String
unfolding keeps_last keeps_daily keeps_weekly keeps_monthly keeps_yearly
reasons b t =
    label (keeps_last b t) "last"
    ++ (label (keeps_daily b t) "daily"
        ++ (label (keeps_weekly b t) "weekly"
            ++ (label (keeps_monthly b t) "monthly" ++ label (keeps_yearly b t) "yearly")))

-- `strings.Join(keep, ",")`
unfoldable pub join : List String → String
join [] = ""
join (s ∷ []) = s
join (s ∷ t ∷ rest) = s <> ("," <> join (t ∷ rest))

-- A session with the time that its `StartTime` points to.
pub record Dated : Type 0 where
  pub session : BackupSession
  pub time : Time

abbrev pub date : BackupSession → Option Time → Result (List Dated) → Result (List Dated)
date s none later = panic
date s (some t) (ok later) = ok (record { session = s; time = t } ∷ later)
date s (some t) (err e) = err e
date s (some t) panic = panic

-- The comparison of the sort reads each start time, and panics on nil.
unfoldable pub dated : List BackupSession → Result (List Dated)
dated [] = ok []
dated (s ∷ rest) = date s s.status.start_time (dated rest)

abbrev pub is_own : String → BackupSession → Bool
is_own name s = s.spec.ref.name == name

module _ (C : Client) where
  -- What is done to a session of the configuration: errors are logged.
  unfoldable pub settle : BackupSession → List String → Action C.World (Unit {0})
  unfolding join
  settle s [] = ignore (C.delete Kind.backup_session s)
  settle s (r ∷ rest) = ignore (
      C.update_status Kind.backup_session
        (record s { status = record s.status { keep = join (r ∷ rest) } }))

  unfoldable pub cleanup_loop : String → Buckets → List Dated → Action C.World (Unit {0})
  unfolding settle reasons after_session
  cleanup_loop name b [] = return tt
  cleanup_loop name b (d ∷ rest) =
      let own = is_own name d.session in
      let later = cleanup_loop name (if own then after_session b d.time else b) rest in
      if own then settle d.session (reasons b d.time) >> later else later

  module _ (newest_first : List Dated → List Dated) where
    unfoldable pub cleanup_listed :
        BackupConfiguration → List BackupSession → Action C.World (Unit {0})
    unfolding cleanup_loop buckets_of dated
    cleanup_listed conf items = if ltb (length items) 2 then return tt else do
      all ← lift (dated items)
      cleanup_loop conf.metadata.name (buckets_of conf.spec.keep) (newest_first all)

    -- `cleanupSessions`
    unfoldable pub cleanup_sessions : BackupConfiguration → Action C.World (Unit {0})
    unfolding cleanup_listed
    cleanup_sessions conf w = elim (C.list_backup_sessions conf.metadata.namespace success w) [
      | ok items ↦ cleanup_listed conf items w
      | err _ ↦ (ok tt, w)
      | panic ↦ (panic, w)
    ]
