-- ===== src/Discovery/TimeRange.antt =====
-- api/v1alpha1/types/time.go, and parseTimeRange of
-- internal/controller/virtualmachinebackupsdiscovery_controller.go. The layouts of Go's package
-- time are the parameter `TimeFormats`.
pub mod Laws
use oadp_vm_file_restore.Prelude.{
  ℕ, ◌+◌, ◌-◌, ◌*◌, ◌/◌, ◌%◌, ◌≡◌, ◌≢◌, String, ◌<>◌, str_eq, Option, none, some, Bool, ◌&&◌, ◌==◌,
  if◌then◌else◌,
}
use oadp_vm_file_restore.Api.{DiscoverySpec}
use oadp_vm_file_restore.Discovery.Cluster.{Error, other, Result, ok, err}

-- time.Time: the instant, in nanoseconds since the zero time, and what the clock on the wall shows
-- there in the location of the value, which equals the instant in UTC.
pub record GoTime : Type 0 where
  pub instant : ℕ
  pub wall : ℕ

abbrev pub utc : ℕ → GoTime
utc t = record { instant = t; wall = t }

abbrev pub second : ℕ
second = 1_000_000_000

abbrev pub day : ℕ
day = 86_400 * second

-- time.Parse with the layouts RFC3339 and 2006-01-02, and Format with RFC3339, which drops the
-- fraction of the second.
pub record TimeFormats : Type 0 where
  pub parse_rfc3339 : String → Option GoTime
  pub parse_date : String → Option GoTime
  pub format_rfc3339 : GoTime → String

pub record IsTimeFormats (f : TimeFormats) : Type 0 where
  pub parse-format :
      (t : ℕ) → f.parse_rfc3339 (f.format_rfc3339 (utc t)) ≡ some (utc (t / second * second))
  pub format-ne-nil : (t : ℕ) → f.format_rfc3339 (utc t) ≢ ""

infixl 5 ◌>>=◌
abbrev ◌>>=◌ {ℓ κ} : {A : Type ℓ} {B : Type κ} → Result A → (A → Result B) → Result B
ok a >>= f = f a
err e >>= f = err e

-- fmt.Errorf("…: %w", err)
abbrev wrap {ℓ} : {A : Type ℓ} → String → Result A → Result A
wrap message (ok a) = ok a
wrap message (err (other s)) = err (other (message <> s))
wrap message (err e) = err e

-- The hour, minute, second and nanosecond are all zero, and the instant is that of midnight UTC.
abbrev pub is_midnight_utc : GoTime → Bool
is_midnight_utc t = (t.wall % day == 0) && (t.instant == t.wall / day * day)

module _ (f : TimeFormats) where
  -- FlexibleTime.Time
  unfoldable pub time : String → Result GoTime
  time str = if str_eq str "" then ok (utc 0) else elim (f.parse_rfc3339 str) [
    | some t ↦ ok t
    | none ↦ elim (f.parse_date str) [
      | some t ↦ ok (utc t.instant)
      | none ↦ err (other ("unable to parse time " <> str))
    ]
  ]

  -- FlexibleTime.GetEndOfDay: 23:59:59.999999999 of the day on the wall, formatted
  unfoldable pub get_end_of_day : String → Result String
  unfolding time
  get_end_of_day str =
      time str >>= λ t. ok (f.format_rfc3339 (utc (t.wall / day * day + (day - 1))))

  end_of_day : String → Result GoTime
  end_of_day str = do
    end_of_day_time ← wrap "failed to convert endTime to end of day: " (get_end_of_day str)
    wrap "failed to parse end of day time: " (time end_of_day_time)

  -- parseTimeRange, the clock's reading given
  unfoldable pub parse_time_range : ℕ → DiscoverySpec → Result (ℕ × ℕ)
  unfolding time get_end_of_day end_of_day
  parse_time_range now spec = do
    start ← elim spec.start_time [
      | none ↦ ok (utc 0)
      | some str ↦ wrap "invalid startTime format: " (time str)
    ]
    end ← elim spec.end_time [
      | none ↦ ok (utc now)
      | some str ↦ do
        t ← wrap "invalid endTime format: " (time str)
        if is_midnight_utc t then end_of_day str else ok t
    ]
    ok (start.instant, end.instant)
