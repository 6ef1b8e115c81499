-- ===== src/Discovery/TimeRange/Laws.antt =====
-- The end of the range that parseTimeRange computes.
use text.Mathlib.TextEquality.{eq_iff}
use oadp_vm_file_restore.Prelude.{
  ℕ, ◌+◌, ◌-◌, ◌*◌, ◌/◌, ◌≡◌, ap, arith, String, some, true, Bool-cases, inl, inr, if◌then◌else◌,
}
use oadp_vm_file_restore.Api.{DiscoverySpec}
use oadp_vm_file_restore.Discovery.Cluster.{ok}
use oadp_vm_file_restore.Discovery.TimeRange.{
  GoTime, utc, second, day, TimeFormats, IsTimeFormats, time, get_end_of_day, is_midnight_utc,
  end_of_day, parse_time_range,
}

midnight_instant : (t : GoTime) → is_midnight_utc t ≡ true → t.instant ≡ t.wall / day * day
midnight_instant t h = ground arith

module _ (f : TimeFormats) (laws : IsTimeFormats f) where
  last_second : (d : ℕ) → (d * day + (day - 1)) / second * second ≡ d * day + 86_399 * second
  last_second d = omega arith

  time-format :
      (d : ℕ)
      → time f (f.format_rfc3339 (utc (d * day + (day - 1)))) ≡ ok (utc (d * day + 86_399 * second))
  unfolding time
  time-format d = ground (
    arith,
    laws.parse-format (d * day + (day - 1)),
    laws.format-ne-nil (d * day + (day - 1)),
    eq_iff (f.format_rfc3339 (utc (d * day + (day - 1)))) "",
    last_second d,
  )

  -- If the spec gives both ends and both can be read, the range is the two instants, but that an
  -- end at midnight UTC, be it written as a date or as a full time, is moved to the last whole
  -- second of its day.
  pub parse_time_range_lem :
      (now : ℕ) (spec : DiscoverySpec) (from to : String) (start t : GoTime)
      → spec.start_time ≡ some from
      → spec.end_time ≡ some to
      → time f from ≡ ok start
      → time f to ≡ ok t
      → parse_time_range f now spec
        ≡ ok (start.instant, if is_midnight_utc t then t.instant + 86_399 * second else t.instant)
  unfolding parse_time_range end_of_day get_end_of_day
  parse_time_range_lem now spec from to start t hs he hf ht =
      rw (hs, he, hf, ht)
        (elim (Bool-cases (is_midnight_utc t)) [
          | inl midnight ↦ rw midnight (
              rw (time-format (t.wall / day))
                (ap (λ x. ok (start.instant, x)) (omega (arith, midnight_instant t midnight))))
          | inr later ↦ rw later
        ])
