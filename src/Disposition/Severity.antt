-- ===== src/Disposition/Severity.antt =====
-- The disposition against the severities of the reasons (cnserverops/disposition.py).
use Prim.Native.Nat.{max}
use mathlib.Core.List.{Perm, Permᴰ}
use mathlib.Core.Logic.{∥∥₁_elim}
use native.Mathlib.Nat.{ℕ_set}
use cnserver_ops.Prelude.{ℕ, List, [], ◌∷◌, ◌≡◌, refl, ap, sym, ◌∙◌, arith}
use cnserver_ops.Disposition.{
  FinalDisposition, ReasonSeverity, Reason, has_severity, worst, decide_final_disposition,
}

-- The order of the dispositions and of the severities: PASS 0, WARNING 1, REVIEW 2, FAIL 3, BLOCKED 4.
abbrev pub rank : FinalDisposition → ℕ
rank FinalDisposition.pass = 0
rank FinalDisposition.pass_with_warnings = 1
rank FinalDisposition.review = 2
rank FinalDisposition.fail = 3
rank FinalDisposition.blocked = 4

abbrev pub weight : ReasonSeverity → ℕ
weight ReasonSeverity.warning = 1
weight ReasonSeverity.review = 2
weight ReasonSeverity.fail = 3
weight ReasonSeverity.blocked = 4

abbrev pub max_weight : List Reason → ℕ
max_weight [] = 0
max_weight (r ∷ rs) = max (weight r.severity) (max_weight rs)

rank-worst-cons :
    (r : Reason) (rs : List Reason)
    → rank (worst (r ∷ rs)) ≡ max (weight r.severity) (rank (worst rs))
unfolding worst has_severity
rank-worst-cons r rs = ground arith

rank-worst : (rs : List Reason) → rank (worst rs) ≡ max_weight rs
rank-worst [] = unfold worst has_severity in refl
rank-worst (r ∷ rs) = rank-worst-cons r rs ∙ ap (max (weight r.severity)) (rank-worst rs)

rank_injective : (a b : FinalDisposition) → rank a ≡ rank b → a ≡ b
rank_injective FinalDisposition.pass b h = ground arith
rank_injective a b h = ground arith

-- The disposition of a run is as bad as its worst reason, and PASS if there is none.
pub decide_is_worst :
    (reasons : List Reason)
    → rank (decide_final_disposition reasons).disposition ≡ max_weight reasons
unfolding decide_final_disposition
decide_is_worst reasons = rank-worst reasons

max_weight-permᴰ : {rs ss : List Reason} → Permᴰ rs ss → max_weight rs ≡ max_weight ss
max_weight-permᴰ Permᴰ.nil = refl
max_weight-permᴰ (Permᴰ.cons e p) = rw e (ap (max _) (max_weight-permᴰ p))
max_weight-permᴰ (Permᴰ.swap e f) = rw (e, f) (omega arith)
max_weight-permᴰ (Permᴰ.trans p q) = max_weight-permᴰ p ∙ max_weight-permᴰ q

max_weight-perm : (rs ss : List Reason) → Perm rs ss → max_weight rs ≡ max_weight ss
max_weight-perm rs ss p = ∥∥₁_elim p (ℕ_set _ _) max_weight-permᴰ

-- The order in which reasons were collected does not change the disposition.
pub decide-perm :
    (rs ss : List Reason)
    → Perm rs ss
    → (decide_final_disposition rs).disposition ≡ (decide_final_disposition ss).disposition
decide-perm rs ss p =
    rank_injective _ _ (decide_is_worst rs ∙ max_weight-perm rs ss p ∙ sym (decide_is_worst ss))
