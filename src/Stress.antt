-- ===== src/Stress.antt =====
-- cnserverops/stress_profiles.py: the profiles, the memory that a stress phase may take and the budget
-- of its workers. `int(n * fraction)` of a float is a parameter `part` of a number and of hundredths.
mod Cycles
pub mod Duration
pub mod Budget
mod Tests
use cnserver_ops.Prelude.{
  String, ℕ, zero, suc, ◌+◌, ◌-◌, ◌*◌, ◌/◌, ◌%◌, min, max, Bool, true, false, not, ◌||◌, ◌&&◌, List,
  [], ◌∷◌, ◌++◌, Option, none, some, ◌==◌, truthy, contains, Result, ok, err, raise_if,
  if◌then◌else◌, ltb, leb, eqb, ◌>>=◌, ◌>>◌,
}
use cnserver_ops.Text.{upper, strip}
pub use Cycles.{PhaseName, plain, cycle_cpu, cycle_memory, cycle_combined, cycle_cooldown}
pub use Cycles.{StressPhase, phase, total, four_phases, round_quarter, round_8_percent}
unfoldable pub use Cycles.{cycle_phases, cyclic_from, cyclic_phases}

pub data StressProfileError : Type 0 where
  bad_hours unknown_profile bad_sizes bad_fraction insufficient_memory : StressProfileError

pub record StressProfile : Type 0 where
  pub profile_id : String
  pub phases : List StressPhase

abbrev pub total_seconds : StressProfile → ℕ
total_seconds p = total p.phases

abbrev quick_phases : ℕ → ℕ → ℕ → ℕ → List StressPhase
quick_phases cpu memory combined cooldown =
    phase (plain "CPU") cpu true false false
    ∷ phase (plain "MEMORY") memory false true false
    ∷ phase (plain "COMBINED") combined true true false
    ∷ phase (plain "COOLDOWN_SANITY") cooldown false false true
    ∷ []

-- `PROFILES`; the fourth one is cyclic.
static_phases : String → Option (List StressPhase)
unfolding cyclic_phases
static_phases id =
    if id == "QUICK"
    then some (quick_phases 60 60 60 30)
    else if id == "STANDARD"
    then some (quick_phases 120 120 120 60)
    else if id == "EXTENDED"
    then some (quick_phases 1800 1800 3000 600)
    else if id == "OVERNIGHT"
    then cyclic_phases (8 * 3600)
    else none

-- `custom_hours`, where it is given: is it from 1 to 18, and `int(round(hours * 3600))`.
pub record Hours : Type 0 where
  pub in_range : Bool
  pub seconds : ℕ

unfoldable pub resolve_profile : String → Option Hours → Result StressProfileError StressProfile
unfolding static_phases upper strip
resolve_profile profile_id custom_hours =
    let normalized = upper (strip profile_id) in
    if normalized == "CUSTOM"
    then custom custom_hours
    else known normalized (static_phases normalized)
  where
    known : String → Option (List StressPhase) → Result StressProfileError StressProfile
    known id none = err unknown_profile
    known id (some phases) = ok (record { profile_id = id; phases = phases })

    custom : Option Hours → Result StressProfileError StressProfile
    custom none = err bad_hours
    custom (some h) =
        if not h.in_range then err bad_hours else known "CUSTOM" (cyclic_phases h.seconds)

abbrev pub mib : ℕ
mib = 1024 * 1024

pub record WorkingSet : Type 0 where
  pub total_bytes : ℕ
  pub available_bytes : ℕ
  pub reserved_bytes : ℕ
  pub target_bytes : ℕ
  pub worker_count : ℕ
  pub per_worker_mib : ℕ
  pub max_total_fraction : ℕ

abbrev pub minimum : ℕ → ℕ
minimum available = min (256 * mib) (max (64 * mib) (available / 8))

abbrev pub per_worker : ℕ → ℕ → ℕ
per_worker zero target = 64 * mib
per_worker (suc n) target = max (64 * mib) (target / suc n)

module _ (part : ℕ → ℕ → ℕ) where
  abbrev pub reserve : ℕ → ℕ → ℕ
  reserve total available =
      min (max (2048 * mib) (part total 20)) (max (512 * mib) (part available 75))

  -- The target before it is given to whole workers; `usable` is not below 0.
  abbrev pub first_target : ℕ → ℕ → ℕ → ℕ
  first_target total available fraction =
      min (part total fraction) (available - reserve total available)

  abbrev pub working_set : ℕ → ℕ → ℕ → ℕ → WorkingSet
  working_set total available workers fraction =
      let target = max (minimum available) (first_target total available fraction) in
      record {
        total_bytes = total;
        available_bytes = available;
        reserved_bytes = reserve total available;
        target_bytes = per_worker workers target * workers;
        worker_count = workers;
        per_worker_mib = max 64 (per_worker workers target / mib);
        max_total_fraction = fraction;
      }

  unfoldable pub memory_working_set : ℕ → ℕ → ℕ → ℕ → Result StressProfileError WorkingSet
  memory_working_set total available workers fraction = do
    raise_if (eqb total 0 || eqb available 0 || eqb workers 0) bad_sizes
    raise_if (not (leb 10 fraction) || not (leb fraction 70)) bad_fraction
    raise_if (ltb (first_target total available fraction) (minimum available)) insufficient_memory
    ok (working_set total available workers fraction)

pub record ResourcePlan : Type 0 where
  pub cpu_count : ℕ
  pub cpu_workers : ℕ
  pub reserved_cpu_count : ℕ
  pub cpu_policy : String
  pub memory_max_total_fraction : ℕ

abbrev pub is_burn_in : String → Bool
is_burn_in id = contains (upper (strip id)) ("EXTENDED" ∷ "OVERNIGHT" ∷ "CUSTOM" ∷ [])

abbrev pub burn_in_workers : ℕ → ℕ
burn_in_workers detected = max 1 (min 256 (if ltb 1 detected then detected - 1 else 1))

abbrev pub standard_workers : ℕ → ℕ
standard_workers detected = max 1 (min 128 (max 1 (detected - max 1 ((detected + 3) / 4))))

abbrev plan_of : ℕ → ℕ → String → ℕ → ResourcePlan
plan_of detected workers policy fraction = record {
  cpu_count = detected;
  cpu_workers = workers;
  reserved_cpu_count = detected - workers;
  cpu_policy = policy;
  memory_max_total_fraction = fraction;
}

unfoldable pub production_resource_plan : String → ℕ → ResourcePlan
production_resource_plan profile_id cpu_count =
    let detected = max 1 cpu_count in
    if is_burn_in profile_id
    then plan_of detected (burn_in_workers detected) "BURN_IN_MAXIMUM_WITH_ONE_SCHEDULER_RESERVE" 70
    else plan_of detected (standard_workers detected) "STANDARD_RESPONSIVE_RESERVE" 50
