-- ===== src/Stress/Tests.antt =====
-- Runs of the stress profiles of cnserverops/stress_profiles.py.
use cnserver_ops.Prelude.{
  ℕ, ◌+◌, ◌*◌, ◌/◌, ◌≤◌, ◌<◌, max, true, false, none, some, Result, ok, err, ◌≡◌, ◌⊎◌, refl, arith,
}
use cnserver_ops.Stress.{
  StressProfileError, StressProfile, WorkingSet, bad_hours, total_seconds, resolve_profile, mib,
  reserve, memory_working_set, working_set, production_resource_plan, is_burn_in, cyclic_phases,
}
use cnserver_ops.Stress.Duration.{Runs, tail_seconds, cyclic_phases-Runs}
use cnserver_ops.Stress.Budget.{
  IsWithin, IsFloor, memory_working_set-IsWithin, production_resource_plan-bounds,
}

abbrev part : ℕ → ℕ → ℕ
part n percent = n * percent / 100

abbrev seconds_of : Result StressProfileError StressProfile → ℕ
seconds_of (ok p) = total_seconds p
seconds_of (err e) = 0

quick_sample : seconds_of (resolve_profile "quick" none) ≡ 210
unfolding resolve_profile
quick_sample = refl

overnight_sample : seconds_of (resolve_profile "OVERNIGHT" none) ≡ 28800
unfolding resolve_profile
overnight_sample = refl

-- An hour and 36 seconds: the second cycle takes 210 seconds.
custom_sample :
    seconds_of (resolve_profile " custom" (some (record { in_range = true; seconds = 3636 })))
    ≡ 3810
unfolding resolve_profile
custom_sample = refl

no_hours_sample : resolve_profile "CUSTOM" none ≡ err bad_hours
unfolding resolve_profile
no_hours_sample = refl

cyclic_phases-Runs_example : Runs (cyclic_phases (3600 * 2 + 36)) (3600 * 2 + tail_seconds 36)
cyclic_phases-Runs_example = cyclic_phases-Runs 2 36 (omega arith)

-- 64 GiB with 60 GiB available, on 32 workers.
abbrev large : WorkingSet
large = working_set part (65536 * mib) (61440 * mib) 32 50

large_sample : memory_working_set part (65536 * mib) (61440 * mib) 32 50 ≡ ok large
unfolding memory_working_set
large_sample = refl

memory_working_set-IsWithin_example :
    (large.total_bytes ≡ 65536 * mib)
    × (large.available_bytes ≡ 61440 * mib)
    × (large.worker_count ≡ 32)
    × (large.reserved_bytes ≡ reserve part (65536 * mib) (61440 * mib))
    × (IsWithin part large ⊎ IsFloor large)
memory_working_set-IsWithin_example =
    memory_working_set-IsWithin part (65536 * mib) (61440 * mib) 32 50 large large_sample

-- 128 workers on a host with 4 GiB available: 8 GiB are asked for.
abbrev small : WorkingSet
small = working_set part (8192 * mib) (4096 * mib) 128 70

small_sample : memory_working_set part (8192 * mib) (4096 * mib) 128 70 ≡ ok small
unfolding memory_working_set
small_sample = refl

small_takes : small.target_bytes ≡ 8192 * mib
small_takes = refl

-- 100 GiB with 90 GiB available: 20 GiB stay outside, which is less than a quarter of 90.
quarter_sample : (working_set part (102400 * mib) (92160 * mib) 10 70).reserved_bytes ≡ 20480 * mib
quarter_sample = refl

production_resource_plan-bounds_example :
    let p = production_resource_plan "STANDARD" 256 in
    (p.cpu_count ≡ max 1 256)
    × (p.cpu_workers + p.reserved_cpu_count ≡ p.cpu_count)
    × (1 ≤ p.cpu_workers)
    × (p.cpu_workers ≤ 256)
    × (1 < 256 → 1 ≤ p.reserved_cpu_count)
    × (is_burn_in "STANDARD" ≡ false
        → (p.cpu_workers ≤ 128) × (1 < 256 → p.cpu_count ≤ 4 * p.reserved_cpu_count))
production_resource_plan-bounds_example = production_resource_plan-bounds "STANDARD" 256

standard_sample : (production_resource_plan "STANDARD" 256).cpu_workers ≡ 128
unfolding production_resource_plan cnserver_ops.Text.upper cnserver_ops.Text.strip
standard_sample = refl
