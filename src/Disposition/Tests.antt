-- ===== src/Disposition/Tests.antt =====
-- Decisions on sample reasons.
use mathlib.Core.List.{Permᴰ}
use cnserver_ops.Prelude.{[], ◌∷◌, ◌≡◌, refl}
use cnserver_ops.Disposition.{FinalDisposition, ReasonSeverity, Reason, decide_final_disposition}
use cnserver_ops.Disposition.Severity.{rank, max_weight, decide_is_worst, decide-perm}

abbrev sensor : Reason
sensor = record { code = "SENSOR_CRITICAL"; severity = ReasonSeverity.fail; detail = "" }

abbrev offline : Reason
offline = record { code = "CENTRAL_SYNC_PENDING"; severity = ReasonSeverity.warning; detail = "" }

fails : (decide_final_disposition (offline ∷ sensor ∷ [])).disposition ≡ FinalDisposition.fail
unfolding decide_final_disposition
fails = refl

decide_is_worst_example :
    rank (decide_final_disposition (offline ∷ sensor ∷ [])).disposition
    ≡ max_weight (offline ∷ sensor ∷ [])
decide_is_worst_example = decide_is_worst (offline ∷ sensor ∷ [])

decide-perm_example :
    (decide_final_disposition (offline ∷ sensor ∷ [])).disposition
    ≡ (decide_final_disposition (sensor ∷ offline ∷ [])).disposition
decide-perm_example =
    decide-perm (offline ∷ sensor ∷ []) (sensor ∷ offline ∷ []) ∣ Permᴰ.swap refl refl ∣₁
