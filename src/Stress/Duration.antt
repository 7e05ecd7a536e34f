-- ===== src/Stress/Duration.antt =====
-- How long the cyclic profiles of cnserverops/stress_profiles.py run.
use cnserver_ops.Prelude.{
  ℕ, zero, suc, ◌+◌, ◌-◌, ◌*◌, ◌/◌, ◌≤◌, ◌<◌, min, max, Bool, true, false, List, [], ◌∷◌, ◌++◌,
  Option, some, if◌then◌else◌, ltb, eqb, ◌≡◌, refl, ◌∙◌, arith,
}
use cnserver_ops.Stress.{
  StressPhase, total, four_phases, round_quarter, round_8_percent, cycle_phases, cyclic_from,
  cyclic_phases,
}

total-append : (ps qs : List StressPhase) → total (ps ++ qs) ≡ total ps + total qs
total-append [] qs = omega arith
total-append (p ∷ ps) qs = let rest = total-append ps qs in omega arith

choose-total :
    (b : Bool) (ps qs : List StressPhase) (n : ℕ)
    → (b ≡ true → total ps ≡ n)
    → (b ≡ false → total qs ≡ n)
    → total (if b then ps else qs) ≡ n
choose-total true ps qs n f g = f refl
choose-total false ps qs n f g = g refl

total-four : (c a b x y : ℕ) → total (four_phases c a b x y) ≡ a + b + x + y
total-four c a b x y = omega arith

-- The four numbers of a cycle, by what is known of its quarter and its cooldown.
short_sum :
    (d q w : ℕ)
    → 60 ≤ q
    → 30 ≤ w
    → 4 * q ≤ max 240 (d + 3)
    → w ≤ max 30 ((8 * d + 50) / 100)
    → d - q - q - w < 60
    → max 60 (q - 30) + max 60 (d - 60 - w - max 60 (q - 30)) + 60 + w ≡ max 210 d
short_sum d q w lo lo' hi hi' short = omega arith

long_sum :
    (d q w : ℕ) → 60 ≤ q → 30 ≤ w → 60 ≤ d - q - q - w → q + q + (d - q - q - w) + w ≡ max 210 d
long_sum d q w lo lo' long = omega arith

quarter_bound : (d : ℕ) → 4 * round_quarter d ≤ d + 3
quarter_bound d = ground arith

-- A cycle takes its duration, and never less than 210 seconds.
cycle_phases-total : (cycle d : ℕ) → total (cycle_phases cycle d) ≡ max 210 d
unfolding cycle_phases
cycle_phases-total cycle d =
    let quarter = max 60 (round_quarter d) in
    let cooldown = max 30 (round_8_percent d) in
    let hi = quarter_bound d in
    choose-total (ltb (d - quarter - quarter - cooldown) 60) _ _ (max 210 d)
      (λ e.
        total-four cycle _ _ 60 cooldown
        ∙ short_sum d quarter cooldown (omega arith) (omega arith) (omega arith) (omega arith)
            (ground arith))
      (λ e.
        total-four cycle quarter quarter _ cooldown
        ∙ long_sum d quarter cooldown (omega arith) (omega arith) (ground arith))

-- The last cycle of a profile, for what is left of an hour.
abbrev pub tail_seconds : ℕ → ℕ
tail_seconds r = if eqb r 0 then 0 else max 210 r

-- The loop ended, after so many seconds of phases.
abbrev pub Runs : Option (List StressPhase) → ℕ → Type 0
Runs phases seconds = (ps : List StressPhase) × (phases ≡ some ps) × (total ps ≡ seconds)

cyclic_from-step :
    (fuel cycle n seconds : ℕ)
    → Runs (cyclic_from fuel (cycle + 1) (suc n - min 3600 (suc n))) seconds
    → Runs (cyclic_from (suc fuel) cycle (suc n)) (max 210 (min 3600 (suc n)) + seconds)
unfolding cyclic_from
cyclic_from-step fuel cycle n seconds (ps, rest, sum) = (
  cycle_phases cycle (min 3600 (suc n)) ++ ps,
  rw rest refl,
  let first = cycle_phases-total cycle (min 3600 (suc n)) in
      let both = total-append (cycle_phases cycle (min 3600 (suc n))) ps in omega arith,
)

cyclic_from-Runs :
    (fuel cycle n q r : ℕ)
    → n ≡ 3600 * q + r
    → r < 3600
    → n ≤ fuel
    → Runs (cyclic_from fuel cycle n) (3600 * q + tail_seconds r)
unfolding cyclic_from
cyclic_from-Runs fuel cycle zero q r e small enough = ([], refl, ground arith)
cyclic_from-Runs zero cycle (suc n) q r e small enough = absurd (omega arith)
cyclic_from-Runs (suc fuel) cycle (suc n) zero r e small enough =
    let (ps, ended, sum) = cyclic_from-step fuel cycle n 0 (
      cyclic_from-Runs fuel (cycle + 1) (suc n - min 3600 (suc n)) 0 0 (omega arith) (omega arith)
        (omega arith)) in
    (ps, ended, ground arith)
cyclic_from-Runs (suc fuel) cycle (suc n) (suc q) r e small enough =
    let (ps, ended, sum) = cyclic_from-step fuel cycle n (3600 * q + tail_seconds r) (
      cyclic_from-Runs fuel (cycle + 1) (suc n - min 3600 (suc n)) q r (omega arith) small
        (omega arith)) in
    (ps, ended, ground arith)

-- the loop that builds a cyclic profile ends for every duration, and the phases of a profile of q whole
-- hours and r seconds, r less than an hour, take those q hours and, where r is not 0, r seconds more,
-- but at least 210. So a profile takes exactly what was asked for where r is 0 or at least 210.
pub cyclic_phases-Runs :
    (q r : ℕ) → r < 3600 → Runs (cyclic_phases (3600 * q + r)) (3600 * q + tail_seconds r)
unfolding cyclic_phases
cyclic_phases-Runs q r small =
    cyclic_from-Runs (3600 * q + r) 1 (3600 * q + r) q r refl small (omega arith)
