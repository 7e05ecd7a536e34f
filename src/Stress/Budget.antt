-- ===== src/Stress/Budget.antt =====
-- How much memory and how many workers the stress phases of cnserverops/stress_profiles.py take.
use native.Mathlib.Nat.{div-mul-le_self, div-lt_iff_lt-mul}
use cnserver_ops.Prelude.{
  String, ℕ, zero, suc, ◌+◌, ◌-◌, ◌*◌, ◌/◌, ◌≤◌, ◌<◌, max, false, not, ◌||◌, ok, ltb, leb, eqb, ◌≡◌,
  refl, arith, ◌⊎◌, inl, inr, Bool-cases, >>=-eq-ok, ok_injective, raise_if, raise_if-ok,
}
use cnserver_ops.Stress.{
  WorkingSet, mib, reserve, first_target, minimum, per_worker, memory_working_set,
  production_resource_plan, is_burn_in, bad_sizes, bad_fraction, insufficient_memory,
}

-- A target that was given to the workers: it holds them, or each of them has the least share.
per_worker-total :
    (workers target : ℕ)
    → 1 ≤ workers
    → (per_worker workers target * workers ≤ target)
      ⊎ ((per_worker workers target ≡ 64 * mib) × (target < 64 * mib * workers))
per_worker-total zero target h = absurd (omega arith)
per_worker-total (suc n) target h =
    let share = div-mul-le_self target (suc n) in
    elim (Bool-cases (leb (64 * mib) (target / suc n))) [
      | inl enough ↦
          let same : max (64 * mib) (target / suc n) ≡ target / suc n = ground arith in
          inl (rw same share)
      | inr little ↦
          let same : max (64 * mib) (target / suc n) ≡ 64 * mib = ground arith in
          inr (same, (div-lt_iff_lt-mul (omega arith)).0 (ground arith))
    ]

-- What a working set takes, against what was found on the host.
abbrev pub IsWithin : (ℕ → ℕ → ℕ) → WorkingSet → Type 0
IsWithin part w =
    (w.target_bytes ≤ w.available_bytes - w.reserved_bytes)
    × (w.target_bytes ≤ part w.total_bytes w.max_total_fraction)

abbrev pub IsFloor : WorkingSet → Type 0
IsFloor w = w.target_bytes ≡ 64 * mib * w.worker_count

-- a working set that memory_working_set returns reports the sizes that it was given, and either it
-- stays within the memory that is left outside the reserve and within the fraction of the total, or it
-- is the least share of 64 MiB for each of the workers.
pub memory_working_set-IsWithin :
    (part : ℕ → ℕ → ℕ) (total available workers fraction : ℕ) (w : WorkingSet)
    → memory_working_set part total available workers fraction ≡ ok w
    → (w.total_bytes ≡ total)
      × (w.available_bytes ≡ available)
      × (w.worker_count ≡ workers)
      × (w.reserved_bytes ≡ reserve part total available)
      × (IsWithin part w ⊎ IsFloor w)
unfolding memory_working_set
memory_working_set-IsWithin part total available workers fraction w h =
    let (u, sizes, h1) =
      >>=-eq-ok (raise_if (eqb total 0 || eqb available 0 || eqb workers 0) bad_sizes) _ h in
    let (v, range, h2) =
      >>=-eq-ok (raise_if (not (leb 10 fraction) || not (leb fraction 70)) bad_fraction) _ h1 in
    let (x, enough, h3) =
      >>=-eq-ok
        (raise_if (ltb (first_target part total available fraction) (minimum available))
          insufficient_memory)
        _ h2 in
    let no_zero = raise_if-ok _ bad_sizes sizes in
    let not_less = raise_if-ok _ insufficient_memory enough in
    let some_worker : 1 ≤ workers = ground arith in
    rw (← ok_injective h3) (
      refl,
      refl,
      refl,
      refl,
      elim (per_worker-total workers
          (max (minimum available) (first_target part total available fraction)) some_worker) [
            | inl fits ↦ inl (ground arith, ground arith)
            | inr (floor, few) ↦ inr (rw floor refl)
          ],
    )

-- a resource plan counts every processor once, as a worker or as reserved; it has at least one worker
-- and at most 256, on more than one processor it keeps one in reserve, and where the profile is not a
-- burn-in it has at most 128 workers and keeps a quarter of the processors in reserve.
pub production_resource_plan-bounds :
    (profile_id : String) (cpu_count : ℕ)
    → let p = production_resource_plan profile_id cpu_count in
      (p.cpu_count ≡ max 1 cpu_count)
      × (p.cpu_workers + p.reserved_cpu_count ≡ p.cpu_count)
      × (1 ≤ p.cpu_workers)
      × (p.cpu_workers ≤ 256)
      × (1 < cpu_count → 1 ≤ p.reserved_cpu_count)
      × (is_burn_in profile_id ≡ false
          → (p.cpu_workers ≤ 128) × (1 < cpu_count → p.cpu_count ≤ 4 * p.reserved_cpu_count))
unfolding production_resource_plan
production_resource_plan-bounds profile_id cpu_count = elim (Bool-cases (is_burn_in profile_id)) [
  | inl burn_in ↦
      rw burn_in (refl, ground arith, ground arith, ground arith, (λ many. ground arith), (λ e. cc))
  | inr standard ↦ rw standard (
    refl,
    ground arith,
    ground arith,
    ground arith,
    (λ many. ground arith),
    (λ e. (ground arith, λ many. ground arith)),
  )
]
