-- ===== src/Plans.antt =====
-- Per-plan upload limits (app/config/plans.py).
use tools_backend.Base.{
  ℕ, ◌*◌, Text, codes, Option, none, some, if◌then◌else◌, text_eq, lower, is_empty,
}

pub record PlanLimits : Type 0 where
  pub max_files : ℕ
  pub max_file_size_mb : ℕ
  pub max_total_size_mb : ℕ

abbrev pub mb : ℕ
mb = 1048576

abbrev pub max_file_size_bytes : PlanLimits → ℕ
max_file_size_bytes l = l.max_file_size_mb * mb

abbrev pub max_total_size_bytes : PlanLimits → ℕ
max_total_size_bytes l = l.max_total_size_mb * mb

abbrev pub free : PlanLimits
free = record { max_files = 20; max_file_size_mb = 50; max_total_size_mb = 50 }

abbrev pub basic : PlanLimits
basic = record { max_files = 50; max_file_size_mb = 500; max_total_size_mb = 500 }

abbrev pub pro : PlanLimits
pro = record { max_files = 100; max_file_size_mb = 1024; max_total_size_mb = 1024 }

abbrev pub enterprise : PlanLimits
enterprise = record { max_files = 100; max_file_size_mb = 1024; max_total_size_mb = 1024 }

-- `PLAN_LIMITS.get(key, PLAN_LIMITS["free"])`
plan_limits : Text → PlanLimits
plan_limits key =
    if text_eq key (codes "free")
    then free
    else if text_eq key (codes "basic")
    then basic
    else if text_eq key (codes "pro")
    then pro
    else if text_eq key (codes "enterprise")
    then enterprise
    else free

-- `plan or "free"`: a missing and an empty name are the free tier
abbrev plan_name : Option Text → Text
plan_name none = codes "free"
plan_name (some p) = if is_empty p then codes "free" else p

unfoldable pub limits_for_plan : Option Text → PlanLimits
unfolding plan_limits
limits_for_plan plan = plan_limits (lower (plan_name plan))
