-- ===== src/Orchestrator/Stages.antt =====
-- The stages of a production run, their texts and the transitions between them.
use cnserver_ops.Prelude.{
  String, Bool, false, ◌||◌, List, [], ◌∷◌, Option, none, some, ◌==◌, if◌then◌else◌, ◌≡◌, refl, sym,
  ap, ◌∙◌,
}

pub data Stage : Type 0 where
  identity capability_discovery inventory firmware_plan firmware_apply reboot_pending : Stage
  post_update_verify hardware_tests diagnostics pre_clean_logs log_clean final_sanity : Stage
  finalize complete blocked : Stage

unfoldable pub stage_value : Stage → String
stage_value identity = "IDENTITY"
stage_value capability_discovery = "CAPABILITY_DISCOVERY"
stage_value inventory = "INVENTORY"
stage_value firmware_plan = "FIRMWARE_PLAN"
stage_value firmware_apply = "FIRMWARE_APPLY"
stage_value reboot_pending = "REBOOT_PENDING"
stage_value post_update_verify = "POST_UPDATE_VERIFY"
stage_value hardware_tests = "HARDWARE_TESTS"
stage_value diagnostics = "DIAGNOSTICS"
stage_value pre_clean_logs = "PRE_CLEAN_LOGS"
stage_value log_clean = "LOG_CLEAN"
stage_value final_sanity = "FINAL_SANITY"
stage_value finalize = "FINALIZE"
stage_value complete = "COMPLETE"
stage_value blocked = "BLOCKED"

abbrev stages : List Stage
stages =
    identity ∷ capability_discovery ∷ inventory ∷ firmware_plan ∷ firmware_apply ∷ reboot_pending
    ∷ post_update_verify ∷ hardware_tests ∷ diagnostics ∷ pre_clean_logs ∷ log_clean ∷ final_sanity
    ∷ finalize ∷ complete ∷ blocked ∷ []

find_stage : String → List Stage → Option Stage
find_stage s [] = none
find_stage s (t ∷ ts) = if s == stage_value t then some t else find_stage s ts

-- `WorkflowStage(value)`: a ValueError for any other text.
unfoldable pub workflow_stage : String → Option Stage
unfolding find_stage stage_value
workflow_stage s = find_stage s stages

-- `_TRANSITIONS`.
unfoldable pub transitions : Stage → List Stage
transitions identity = capability_discovery ∷ blocked ∷ []
transitions capability_discovery = inventory ∷ blocked ∷ []
transitions inventory = firmware_plan ∷ blocked ∷ []
transitions firmware_plan =
    firmware_apply ∷ post_update_verify ∷ hardware_tests ∷ finalize ∷ blocked ∷ []
transitions firmware_apply = reboot_pending ∷ post_update_verify ∷ blocked ∷ []
transitions reboot_pending = capability_discovery ∷ post_update_verify ∷ blocked ∷ []
transitions post_update_verify = hardware_tests ∷ finalize ∷ blocked ∷ []
transitions hardware_tests = diagnostics ∷ blocked ∷ []
transitions diagnostics = pre_clean_logs ∷ blocked ∷ []
transitions pre_clean_logs = log_clean ∷ final_sanity ∷ blocked ∷ []
transitions log_clean = final_sanity ∷ blocked ∷ []
transitions final_sanity = finalize ∷ blocked ∷ []
transitions finalize = complete ∷ blocked ∷ []
transitions complete = []
transitions blocked = []

-- The stages are texts (`str, Enum`), so they are compared as texts.
abbrev pub same_stage : Stage → Stage → Bool
same_stage a b = stage_value a == stage_value b

unfoldable pub contains_stage : Stage → List Stage → Bool
unfolding stage_value
contains_stage a [] = false
contains_stage a (b ∷ bs) = same_stage a b || contains_stage a bs

-- `_MUTATION_ACTION.get(stage)`.
unfoldable pub mutation_action : Stage → Option String
mutation_action firmware_apply = some "FIRMWARE_APPLY"
mutation_action log_clean = some "LOG_CLEAR"
mutation_action _ = none

without_blocked : List Stage → List Stage
unfolding stage_value
without_blocked [] = []
without_blocked (s ∷ ss) =
    let rest = without_blocked ss in if same_stage s blocked then rest else s ∷ rest

only : List Stage → Option Stage
only (s ∷ []) = some s
only _ = none

unfoldable pub default_next : Stage → Option Stage
unfolding without_blocked only transitions
default_next stage = only (without_blocked (transitions stage))

-- Every stage is read back from its text.
pub workflow_stage-value : (s : Stage) → workflow_stage (stage_value s) ≡ some s
unfolding workflow_stage
workflow_stage-value identity = refl
workflow_stage-value _ = refl

some_injective : {a b : Stage} → Path (Option Stage) (some a) (some b) → a ≡ b
some_injective h = cc

pub stage_value_injective : (a b : Stage) → stage_value a ≡ stage_value b → a ≡ b
stage_value_injective a b h =
    some_injective (sym (workflow_stage-value a) ∙ ap workflow_stage h ∙ workflow_stage-value b)
