-- ===== src/Stress/Cycles.antt =====
-- The phases of a cyclic profile, of cnserverops/stress_profiles.py.
use cnserver_ops.Prelude.{
  String, ℕ, zero, suc, ◌+◌, ◌-◌, ◌*◌, ◌/◌, ◌%◌, min, max, Bool, true, false, List, [], ◌∷◌, ◌++◌,
  Option, none, some, if◌then◌else◌, ltb, eqb, ◌||◌, ◌&&◌,
}

-- A name that is written out, or that has the number of its cycle.
pub data PhaseName : Type 0 where
  plain : String → PhaseName
  cycle_cpu cycle_memory cycle_combined cycle_cooldown : ℕ → PhaseName

pub record StressPhase : Type 0 where
  pub name : PhaseName
  pub duration_seconds : ℕ
  pub cpu : Bool
  pub memory : Bool
  pub cooldown : Bool

abbrev pub phase : PhaseName → ℕ → Bool → Bool → Bool → StressPhase
phase name seconds cpu memory cooldown = record {
  name = name;
  duration_seconds = seconds;
  cpu = cpu;
  memory = memory;
  cooldown = cooldown;
}

abbrev pub total : List StressPhase → ℕ
total [] = 0
total (p ∷ ps) = p.duration_seconds + total ps

-- `round(duration * 0.25)`: a tie goes to the even neighbour.
abbrev pub round_quarter : ℕ → ℕ
round_quarter d = if ltb (d % 4) 2 || (eqb (d % 4) 2 && eqb (d / 4 % 2) 0) then d / 4 else d / 4 + 1

-- `round(duration * 0.08)`, which has no ties at whole seconds.
abbrev pub round_8_percent : ℕ → ℕ
round_8_percent d = (8 * d + 50) / 100

abbrev pub four_phases : ℕ → ℕ → ℕ → ℕ → ℕ → List StressPhase
four_phases cycle cpu memory combined cooldown =
    phase (cycle_cpu cycle) cpu true false false
    ∷ phase (cycle_memory cycle) memory false true false
    ∷ phase (cycle_combined cycle) combined true true false
    ∷ phase (cycle_cooldown cycle) cooldown false false true
    ∷ []

-- One cycle. A difference below 0 is below 60 too.
unfoldable pub cycle_phases : ℕ → ℕ → List StressPhase
cycle_phases cycle duration =
    let quarter = max 60 (round_quarter duration) in
    let cooldown = max 30 (round_8_percent duration) in
    let combined = duration - quarter - quarter - cooldown in
    let cpu = max 60 (quarter - 30) in
    if ltb combined 60
    then four_phases cycle cpu (max 60 (duration - 60 - cooldown - cpu)) 60 cooldown
    else four_phases cycle quarter quarter combined cooldown

-- `while remaining`, on fuel; none where the fuel does not suffice.
unfoldable pub cyclic_from : ℕ → ℕ → ℕ → Option (List StressPhase)
unfolding cycle_phases
cyclic_from fuel cycle zero = some []
cyclic_from zero cycle (suc n) = none
cyclic_from (suc fuel) cycle (suc n) =
    let duration = min 3600 (suc n) in
    joined (cycle_phases cycle duration) (cyclic_from fuel (cycle + 1) (suc n - duration))
  where
    joined : List StressPhase → Option (List StressPhase) → Option (List StressPhase)
    joined first none = none
    joined first (some rest) = some (first ++ rest)

-- A cycle takes at least a second.
unfoldable pub cyclic_phases : ℕ → Option (List StressPhase)
unfolding cyclic_from
cyclic_phases total_seconds = cyclic_from total_seconds 1 total_seconds
