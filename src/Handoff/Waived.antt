-- ===== src/Handoff/Waived.antt =====
-- What the lists of findings in cnserverops/handoff.py say of the statuses that they are made from.
use cnserver_ops.Prelude.{
  String, true, false, not, ◌||◌, List, [], ◌∷◌, ◌++◌, is_empty, Option, none, some, ◌==◌, ◌≡◌,
  refl, ◌⊎◌, inl, inr, arith, All, contains, lookup, get_or, eq_iff, Bool-cases,
}
use cnserver_ops.Handoff.Policy.{
  HandoffPolicy, Finding, normalized_status, is_pass, is_fail, is_review, is_derived,
}
use cnserver_ops.Handoff.{
  StatusValue, text, other, read_statuses, failures_of, reviews_of, without_capability, board_of,
  with_bmc_handoff, board, add_reviews, all_optional,
}

-- The policy lets this state of this capability pass.
abbrev pub IsWaived : HandoffPolicy → Finding → Type 0
IsWaived policy f =
    (policy.allow_optional_review_for_ready ≡ true)
    × (contains f.1 (get_or (lookup f.0 policy.optional_review_states) []) ≡ true)

-- The state of the changed BMC authentication stands in for this one, and passes.
abbrev pub IsReplaced : Option String → Finding → Type 0
IsReplaced bmc f =
    (f.0 ≡ "bmc_auth_handoff")
    × (b : String) × (bmc ≡ some b)
    × (is_pass (normalized_status b) ≡ true)

-- The state does not fail, and it passes, is waived or is replaced.
abbrev pub IsClear : HandoffPolicy → Option String → Finding → Type 0
IsClear policy bmc f =
    (is_fail f.1 ≡ false) × ((is_pass f.1 ≡ true) ⊎ (IsWaived policy f ⊎ IsReplaced bmc f))

-- The same of an argument: report data and the summary keys are not read.
abbrev pub IsAcceptable : HandoffPolicy → Option String → String × StatusValue → Type 0
IsAcceptable policy bmc (key, other) = Unit {0}
IsAcceptable policy bmc (key, text value) =
    (is_derived key ≡ true) ⊎ IsClear policy bmc (key, normalized_status value)

pub read-IsAcceptable :
    (policy : HandoffPolicy) (bmc : Option String) (cs : List (String × StatusValue))
    → All (IsClear policy bmc) (read_statuses cs)
    → All (IsAcceptable policy bmc) cs
unfolding read_statuses
read-IsAcceptable policy bmc [] h = tt
read-IsAcceptable policy bmc ((key, other) ∷ cs) h = (tt, read-IsAcceptable policy bmc cs h)
read-IsAcceptable policy bmc ((key, text value) ∷ cs) h = elim (Bool-cases (is_derived key)) [
  | inl derived ↦ (inl derived, read-IsAcceptable policy bmc cs (rw derived at h))
  | inr given ↦ let h1 = rw given at h in (inr h1.0, read-IsAcceptable policy bmc cs h1.1)
]

-- Where no finding fails and every review is as `V` says, every other finding passes.
pub clear_reviews :
    (V : Finding → Type 0) (fs : List Finding)
    → is_empty (failures_of fs) ≡ true
    → All V (reviews_of fs)
    → All (λ f. (is_fail f.1 ≡ false) × ((is_pass f.1 ≡ true) ⊎ V f)) fs
unfolding failures_of reviews_of
clear_reviews V [] h k = tt
clear_reviews V (f ∷ fs) h k = elim (Bool-cases (is_fail f.1)) [
  | inl fails ↦ cc (rw fails at h)
  | inr sound ↦
      let h1 = rw sound at h in
      let k1 = rw sound at k in
      elim (Bool-cases (is_review f.1 || not (is_pass f.1))) [
        | inl review ↦ let k2 = rw review at k1 in ((sound, inr k2.0), clear_reviews V fs h1 k2.1)
        | inr passes ↦
            let k2 = rw passes at k1 in ((sound, inl (ground arith)), clear_reviews V fs h1 k2)
      ]
]

without-All :
    (V : Finding → Type 0) (name : String) (fs : List Finding)
    → All V (without_capability name fs)
    → All (λ f. V f ⊎ (f.0 ≡ name)) fs
unfolding without_capability
without-All V name [] h = tt
without-All V name (f ∷ fs) h = elim (Bool-cases (f.0 == name)) [
  | inl same ↦ (inr ((eq_iff f.0 name).0 same), without-All V name fs (rw same at h))
  | inr apart ↦ let h1 = rw apart at h in (inl h1.0, without-All V name fs h1.1)
]

pub weaken :
    (V W : Finding → Type 0) (fs : List Finding) → ((f : Finding) → V f → W f) → All V fs → All W fs
weaken V W [] step h = tt
weaken V W (f ∷ fs) step h = (step f h.0, weaken V W fs step h.1)

appended-All :
    (V : Finding → Type 0) (fs : List Finding) (g : Finding)
    → All V (fs ++ (g ∷ []))
    → All V fs × V g
appended-All V [] g h = (tt, h.0)
appended-All V (f ∷ fs) g h = let rest = appended-All V fs g h.1 in ((h.0, rest.0), rest.1)

appended-empty : (fs : List Finding) (g : Finding) → is_empty (fs ++ (g ∷ [])) ≡ true → ⊥
appended-empty [] g h = cc
appended-empty (f ∷ fs) g h = cc

pub optional-All :
    (policy : HandoffPolicy) (reviews : List Finding)
    → (is_empty reviews ≡ true)
      ⊎ ((policy.allow_optional_review_for_ready ≡ true) × (all_optional policy reviews ≡ true))
    → All (IsWaived policy) reviews
unfolding all_optional
optional-All policy [] h = tt
optional-All policy (f ∷ fs) (inl h) = cc
optional-All policy (f ∷ fs) (inr (allowed, h)) =
    elim (Bool-cases (contains f.1 (get_or (lookup f.0 policy.optional_review_states) []))) [
      | inl named ↦ ((allowed, named), optional-All policy fs (inr (allowed, rw named at h)))
      | inr strange ↦ cc (rw strange at h)
    ]

pub reviews_before :
    (V : Finding → Type 0) (missing failures reviews : List Finding)
    → is_empty missing ≡ true
    → All V (add_reviews missing failures reviews)
    → All V reviews
unfolding add_reviews
reviews_before V [] failures reviews e h = h
reviews_before V (m ∷ ms) failures reviews e h = cc

-- The state of the BMC authentication, where it was changed: it passes, or it does not fail and is waived.
abbrev pub IsHandedOver : HandoffPolicy → Option String → Type 0
IsHandedOver policy none = Unit {0}
IsHandedOver policy (some b) =
    (is_pass (normalized_status b) ≡ true)
    ⊎ ((is_fail (normalized_status b) ≡ false)
        × IsWaived policy ("bmc_auth_handoff", normalized_status b))

-- What a board with no failure, and only waived reviews, says of the statuses.
pub board-IsClear :
    (policy : HandoffPolicy) (fs : List Finding) (bmc : Option String)
    → is_empty (board fs bmc).failures ≡ true
    → All (IsWaived policy) (board fs bmc).reviews
    → All (IsClear policy bmc) fs × IsHandedOver policy bmc
unfolding board_of with_bmc_handoff
board-IsClear policy fs none h k = (
  clear_reviews (λ f. IsWaived policy f ⊎ IsReplaced none f) fs h
      (weaken (IsWaived policy) (λ f. IsWaived policy f ⊎ IsReplaced none f) (reviews_of fs)
        (λ f w. inl w) k),
  tt,
)
board-IsClear policy fs (some b) h k = elim (Bool-cases (is_pass (normalized_status b))) [
  | inl passes ↦ (
    clear_reviews (λ f. IsWaived policy f ⊎ IsReplaced (some b) f) fs (rw passes at h)
        (weaken (λ f. IsWaived policy f ⊎ (f.0 ≡ "bmc_auth_handoff"))
          (λ f. IsWaived policy f ⊎ IsReplaced (some b) f) (reviews_of fs)
          (λ f w. elim w [ inl v ↦ inl v | inr same ↦ inr (same, b, refl, passes) ])
          (without-All (IsWaived policy) "bmc_auth_handoff" (reviews_of fs) (rw passes at k))),
    inl passes,
  )
  | inr unready ↦
      let h1 = rw unready at h in
      let k1 = rw unready at k in
      elim (Bool-cases (is_fail (normalized_status b))) [
        | inl fails ↦ absurd (
            appended-empty (failures_of fs) ("bmc_auth_handoff", normalized_status b)
              (rw fails at h1))
        | inr sound ↦
            let (waived, here) =
              appended-All (IsWaived policy) (reviews_of fs)
                ("bmc_auth_handoff", normalized_status b) (rw sound at k1) in
            (
              clear_reviews (λ f. IsWaived policy f ⊎ IsReplaced (some b) f) fs (rw sound at h1)
                  (weaken (IsWaived policy) (λ f. IsWaived policy f ⊎ IsReplaced (some b) f)
                    (reviews_of fs) (λ f w. inl w) waived),
              inr (sound, here),
            )
      ]
]
