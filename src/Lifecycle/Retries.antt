-- ===== src/Lifecycle/Retries.antt =====
-- Repeated calls of `request_controlled_reboot`.
use cnserver_ops.Prelude.{
  String, ℕ, ◌+◌, ◌-◌, ◌≤◌, ◌<◌, not, List, [], ◌∷◌, leb, ◌≡◌, ◌⊎◌, inl, inr, ok, arith, Bool-cases,
  >>=-eq-ok, ok_injective, raise_if, ap, sym,
}
use cnserver_ops.Lifecycle.Checkpoint.{Pending, CommandResult, is_run_id, run_id_invalid}
use cnserver_ops.Lifecycle.{
  Effect, saved, ran, Requested, announced, answered, request_controlled_reboot,
}

-- The runs of the command among the effects.
abbrev pub runs : List Effect → ℕ
runs [] = 0
runs (ran ∷ es) = 1 + runs es
runs (saved _ ∷ es) = runs es

-- Requests one after the other, each on the checkpoint that the one before it returned, with the
-- number of commands that were run.
pub data Requests : Pending → ℕ → Type 0 where
  done : (p : Pending) → Requests p 0
  next :
      {p : Pending} {n : ℕ} (q : Requested) (run : Pending → CommandResult) (now later : String)
      → request_controlled_reboot run p now later ≡ ok q
      → Requests q.pending n
      → Requests p (runs q.effects + n)

abbrev Spends : Pending → Requested → Type 0
Spends p q =
    ((runs q.effects ≡ 0) × (q.pending.reboot.retry_count ≡ p.reboot.retry_count))
    ⊎ ((runs q.effects ≡ 1)
        × (q.pending.reboot.retry_count ≡ p.reboot.retry_count + 1)
        × (p.reboot.retry_count < 3))

request-Spends :
    (run : Pending → CommandResult) (p : Pending) (now later : String) (q : Requested)
    → request_controlled_reboot run p now later ≡ ok q
    → Spends p q
unfolding request_controlled_reboot announced answered
request-Spends run p now later q h =
    let (u, h1, h2) = >>=-eq-ok (raise_if (not (is_run_id p.run_id)) run_id_invalid) _ h in
    elim (Bool-cases (leb 3 p.reboot.retry_count)) [
      | inl spent ↦
          let same = ok_injective (rw spent at h2) in
          inl (
            ap (λ (q : Requested). runs q.effects) (sym same),
            ap (λ (q : Requested). q.pending.reboot.retry_count) (sym same),
          )
      | inr left ↦
          let same = ok_injective (rw left at h2) in
          inr (
            ap (λ (q : Requested). runs q.effects) (sym same),
            ap (λ (q : Requested). q.pending.reboot.retry_count) (sym same),
            ground arith,
          )
    ]

-- However often a reboot is requested for a checkpoint, each request that returned on the checkpoint
-- that the one before it returned, and whatever the command answers, the command
-- is run at most as often as the retries that the checkpoint has left of three.
pub Requests_bounded : {p : Pending} {n : ℕ} → Requests p n → n ≤ 3 - p.reboot.retry_count
Requests_bounded (done p) = omega arith
Requests_bounded (next {p} {n} q run now later e rest) =
    let bound = Requests_bounded rest in
    elim (request-Spends run p now later q e) [
      | inl (a, b) ↦ omega arith
      | inr (a, b, c) ↦ omega arith
    ]
