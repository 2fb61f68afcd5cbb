-- ===== src/RuntimeHealth/Records.antt =====
-- The health records and what the service writes to them,
-- apps/sp-api/src/runtime-health/runtime-health.service.ts. `new Date()` is the argument `now`.
-- Prisma's `RuntimeHealthServiceKey`.
use stasharr_portal.Prelude.Text.{Text, text, text_eq, eq_text, trim, is_empty}
use stasharr_portal.Prelude.{
  ℕ, ◌+◌, ◌≡◌, ◌↔◌, Bool, true, false, not, ◌&&◌, Option, none, some, arith, ltb, leb, ◌==◌,
  if◌then◌else◌, Eq,
}

pub data ServiceKey : Type 0 where
  catalog stash whisparr : ServiceKey

unfoldable pub service_eq : ServiceKey → ServiceKey → Bool
service_eq catalog catalog = true
service_eq stash stash = true
service_eq whisparr whisparr = true
service_eq _ _ = false

pub service_eq_iff : (a b : ServiceKey) → (service_eq a b ≡ true) ↔ (a ≡ b)
unfolding service_eq
service_eq_iff a b = ground arith

instance abbrev pub eq_service : Eq ServiceKey
eq_service = record { beq = service_eq; beq_iff = service_eq_iff }

-- Prisma's `RuntimeHealthStatus`.
pub data HealthStatus : Type 0 where
  healthy degraded : HealthStatus

pub record HealthRecord : Type 0 where
  pub status : HealthStatus
  pub consecutive_failures : ℕ
  pub last_healthy_at : Option ℕ
  pub last_failure_at : Option ℕ
  pub last_error_message : Option Text
  pub degraded_at : Option ℕ

abbrev pub failure_threshold : ℕ
failure_threshold = 2

abbrev pub throttle_ms : ℕ
throttle_ms = 30000

-- `buildDefaultRecord`.
abbrev pub default_record : HealthRecord
default_record = record {
  status = healthy;
  consecutive_failures = 0;
  last_healthy_at = none;
  last_failure_at = none;
  last_error_message = none;
  degraded_at = none;
}

-- What a caller reports: a string, an object by its `message` where that is a string, or anything
-- else.
pub data Reported : Type 0 where
  a_string : Text → Reported
  with_message : Text → Reported
  other : Reported

abbrev pub no_message : Text
no_message = text "Runtime provider request failed."

unfoldable pub resolve_error_message : Reported → Text
unfolding trim
resolve_error_message (a_string s) = if is_empty (trim s) then no_message else trim s
resolve_error_message (with_message s) = if is_empty (trim s) then no_message else trim s
resolve_error_message other = no_message

abbrev pub is_degraded : HealthStatus → Bool
is_degraded degraded = true
is_degraded healthy = false

abbrev pub same_message : Option Text → Text → Bool
same_message none message = false
same_message (some s) message = text_eq s message

-- `now - lastFailureAt < DEGRADED_FAILURE_THROTTLE_MS`, false without a last failure.
abbrev pub recent : Option ℕ → ℕ → Bool
recent none now = false
recent (some t) now = ltb now (t + throttle_ms)

-- The test by which `recordFailure` drops a repeated report.
unfoldable pub throttled : HealthRecord → Text → ℕ → Bool
throttled r message now =
    is_degraded r.status
    && same_message r.last_error_message message
    && recent r.last_failure_at now

abbrev pub or_now : Option ℕ → ℕ → ℕ
or_now none now = now
or_now (some t) now = t

-- What `recordFailure` computes from the record it read.
abbrev pub failures_after : HealthRecord → ℕ
failures_after current = current.consecutive_failures + 1

abbrev pub status_after : HealthRecord → HealthStatus
status_after current = if leb failure_threshold (failures_after current) then degraded else healthy

-- The row that `recordFailure` creates, and its change of a row that is there.
abbrev pub created_failure : HealthRecord → Text → ℕ → HealthRecord
created_failure current message now = record {
  status = status_after current;
  consecutive_failures = failures_after current;
  last_healthy_at = none;
  last_failure_at = some now;
  last_error_message = some message;
  degraded_at = if is_degraded (status_after current) then some now else none;
}

abbrev pub changed_failure : HealthRecord → Text → ℕ → HealthRecord → HealthRecord
changed_failure current message now row = record row {
  status = status_after current;
  consecutive_failures = failures_after current;
  last_failure_at = some now;
  last_error_message = some message;
  degraded_at =
      if is_degraded (status_after current) then some (or_now current.degraded_at now) else none;
}

-- The change of a row by `recordSuccess`.
abbrev pub recovered : ℕ → HealthRecord → HealthRecord
recovered now row = record row {
  status = healthy;
  consecutive_failures = 0;
  last_healthy_at = some now;
  degraded_at = none;
}

-- The row that `recordManualRecovery` creates, and its change of a row that is there.
abbrev pub created_recovery : ℕ → HealthRecord
created_recovery now = record default_record { last_healthy_at = some now }

abbrev pub changed_recovery : HealthRecord → ℕ → HealthRecord → HealthRecord
changed_recovery current now row = record row {
  status = healthy;
  consecutive_failures = 0;
  last_healthy_at = some now;
  last_failure_at = current.last_failure_at;
  last_error_message = current.last_error_message;
  degraded_at = none;
}

-- `recordSuccess` writes nothing over such a record.
abbrev pub is_clean : HealthRecord → Bool
is_clean r = not (is_degraded r.status) && r.consecutive_failures == 0

abbrev pub record_or_default : Option HealthRecord → HealthRecord
record_or_default none = default_record
record_or_default (some r) = r

-- A summary of one service, `toSummary`.
pub record ServiceSummary : Type 0 where
  pub service : ServiceKey
  pub is_degraded : Bool
  pub shown : HealthRecord
