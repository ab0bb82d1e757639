-- ===== src/Tests/Logins.antt =====
-- Runs of the login limiter.
use librsswitch.Base.{
  ◌≤◌, ◌<◌, ◌≡◌, refl, Bool, true, false, List, [], ◌∷◌, none, some, length, arith,
}
use librsswitch.Base.Text.{Text, ◌==◌}
use librsswitch.Auth.{
  default_limits, Entries, lookup, assign, expire, is_over, count, count_known, failed_entry,
  failed, wait_seconds, retry_locked, retry_entry, retry_after,
}
use librsswitch.Auth.Bounds.{failed-bounded}
use librsswitch.Auth.Lockout.{failures_at, failures_at-locks}
use librsswitch.Auth.Lockout.Lasts.{asks, fails, logs_in, Call, after_calls, lockout_lasts}

abbrev phone : Text
phone = b'1' ∷ b'0' ∷ []

-- Four failures since the time 100.
abbrev almost : Entries
almost = (phone, record { failures = 4; first = 100; until = none }) ∷ []

abbrev locked : Entries
locked = (phone, record { failures = 0; first = 100; until = some 60000200 }) ∷ []

failures_at-locks_example :
    (es' : Entries) × (failures_at default_limits phone (200 ∷ []) (false, almost)
      ≡ some (true, es'))
unfolding lookup ◌==◌
failures_at-locks_example =
    failures_at-locks default_limits phone (200 ∷ []) 4 100 almost refl (omega arith, tt)
      (omega arith) (omega arith)

failed-bounded_example :
    (r : Bool × Entries) × (failed default_limits phone 200 almost ≡ some r)
    × (length r.1 ≤ default_limits.max_tracked)
failed-bounded_example = failed-bounded default_limits phone 200 almost (omega arith) (omega arith)

-- The phone asks and fails again, and another address fails.
abbrev meanwhile : List Call
meanwhile = asks phone 300 ∷ fails (b'2' ∷ []) 400 ∷ fails phone 500 ∷ logs_in (b'3' ∷ []) ∷ []

lockout_lasts_example :
    (after : Entries) × (after_calls default_limits meanwhile locked ≡ some after)
    × (0 < (retry_after phone 60000199 after).0)
unfolding failed failed_entry count_known count expire is_over lookup assign ◌==◌
lockout_lasts_example =
    lockout_lasts default_limits phone 200 60000199 almost locked meanwhile refl
      (omega arith, (omega arith, (omega arith, ((λ h. ground arith), tt)))) (omega arith)
      (omega arith)

wait_of_locked : (retry_after phone 200 locked).0 ≡ 60
unfolding retry_after retry_entry retry_locked wait_seconds lookup ◌==◌
wait_of_locked = refl
