-- ===== src/Logs/Sound.antt =====
-- LocalIpmiSelCleanupAdapter.verify_empty of cnserverops/logs.py: what the verification that it returns
-- rests on.
use cnserver_ops.Prelude.{
  String, ℕ, zero, suc, ◌+◌, ◌≤◌, Bool, true, false, List, [], ◌∷◌, ◌++◌, Option, Result, ok, ◌≡◌,
  refl, ◌⊎◌, inl, inr, arith, length, length-append, Bool-cases, Result-cases, ok_injective, eqb,
  none, some, eq_iff, Option-cases,
}
use mathlib.Core.Path.{subst}
use Prim.Native.Char.{Char}
use cnserver_ops.Text.{drop_prefix}
use cnserver_ops.Logs.Parse.{content_lines, split_lines, has_text, marker, is_expected_clear_record}
use cnserver_ops.Logs.{
  Completed, Machine, LogCleanupError, Verification, info_command, elist_command, observed,
  is_marker, last_or, found, listed, counted, attempt, verify_from, verify_empty,
}

-- A text has this one as a part.
pub data IsIn (part : String) : String → Type 0 where
  here : (s rest : String) → drop_prefix part s ≡ some rest → IsIn part s
  later : (c : Char) (s : String) → IsIn part s → IsIn part (String.◌∷◌ c s)

-- The listing was made, and its only line that is not blank says that the log was cleared.
pub record ShowsMark (answer : Option Completed) : Type 0 where
  pub listing : Completed
  pub answer_is : answer ≡ some listing
  pub returned : listing.returncode ≡ 0
  pub line : String
  pub only_line : content_lines (split_lines listing.stdout) ≡ line ∷ []
  pub says_so : IsIn "log area reset/cleared" line ⊎ IsIn "log area reset / cleared" line

has_text-IsIn : (part s : String) → has_text part s ≡ true → IsIn part s
unfolding has_text
has_text-IsIn part String.[] h = here "" "" (rw ((eq_iff part "").0 h) (unfold drop_prefix in refl))
has_text-IsIn part (String.◌∷◌ c s) h = elim (Option-cases (drop_prefix part (String.◌∷◌ c s))) [
  | inr (rest, found_here) ↦ here (String.◌∷◌ c s) rest found_here
  | inl missing ↦ later c s (has_text-IsIn part s (rw missing at h))
]

marker-line :
    (ls : List String)
    → marker ls ≡ true
    → (line : String) × (ls ≡ line ∷ [])
      × (IsIn "log area reset/cleared" line ⊎ IsIn "log area reset / cleared" line)
unfolding marker
marker-line [] h = cc
marker-line (l ∷ k ∷ ls) h = cc
marker-line (l ∷ []) h = elim (Bool-cases (has_text "log area reset/cleared" l)) [
  | inl first ↦ (l, refl, inl (has_text-IsIn "log area reset/cleared" l first))
  | inr no_first ↦ (l, refl, inr (has_text-IsIn "log area reset / cleared" l (rw no_first at h)))
]

is_marker-ShowsMark : (answer : Option Completed) → is_marker answer ≡ ok true → ShowsMark answer
unfolding is_marker is_expected_clear_record
is_marker-ShowsMark none h = cc
is_marker-ShowsMark (some c) h =
    let both = ok_injective h in
    let (line, only, says) =
      marker-line (content_lines (split_lines c.stdout)) (ground (arith, both)) in
    record {
      listing = c;
      answer_is = refl;
      returned = ground (arith, both);
      line = line;
      only_line = only;
      says_so = says;
    }

-- The last command counted no record.
pub record CountsNone {M : Type 0} (run : Machine M) (v : Verification) (final : M) : Type 0 where
  pub before : M
  pub count_is : v.entry_count ≡ 0
  pub counted_none : observed (run info_command before).0 ≡ ok 0
  pub final_is : final ≡ (run info_command before).1

-- The last two commands counted one record and listed it, as the mark of the clear.
pub record CountsMark {M : Type 0} (run : Machine M) (v : Verification) (final : M) : Type 0 where
  pub before : M
  pub count_is : v.entry_count ≡ 1
  pub expected_is : v.expected_clear_record ≡ true
  pub counted_one : observed (run info_command before).0 ≡ ok 1
  pub shown : ShowsMark (run elist_command (run info_command before).1).0
  pub final_is : final ≡ (run elist_command (run info_command before).1).1

-- What a verification says, after `n` attempts at most, by a machine that is left as `final`.
pub record IsSound {M : Type 0} (run : Machine M) (n : ℕ) (v : Verification) (final : M)
    : Type 0 where
  pub all_counted : length v.observed_counts ≡ v.attempts
  pub within : v.attempts ≤ n
  pub last_is : last_or 0 v.observed_counts ≡ v.entry_count
  pub empty_is : v.empty ≡ true → CountsNone run v final ⊎ CountsMark run v final
  pub else_all : v.empty ≡ false → v.attempts ≡ n

last-append : (d : ℕ) (xs : List ℕ) (x : ℕ) → last_or d (xs ++ (x ∷ [])) ≡ x
last-append d [] x = refl
last-append d (y ∷ xs) x = last-append y xs x

found-IsSound :
    {M : Type 0} (run : Machine M) (n count : ℕ) (seen : List ℕ) (marker_only : Bool) (final : M)
    → length seen + 1 ≤ n
    → CountsNone run (found (seen ++ (count ∷ [])) count marker_only) final
      ⊎ CountsMark run (found (seen ++ (count ∷ [])) count marker_only) final
    → IsSound run n (found (seen ++ (count ∷ [])) count marker_only) final
unfolding found
found-IsSound run n count seen marker_only final h c = record {
  all_counted = refl;
  within = let l = length-append seen (count ∷ []) in omega arith;
  last_is = last-append 0 seen count;
  empty_is = λ e. c;
  else_all = λ e. cc;
}

module _ {M : Type 0} (run : Machine M) where
  abbrev Sound : ℕ → Result LogCleanupError Verification × M → Type 0
  Sound n r = (v : Verification) → r.0 ≡ ok v → IsSound run n v r.1

  listed-Sound :
      (next : M → Result LogCleanupError Verification × M) (n : ℕ) (seen : List ℕ) (before : M)
      → observed (run info_command before).0 ≡ ok 1
      → length seen + 1 ≤ n
      → ((t : M) → Sound n (next t))
      → Sound n (listed run next (seen ++ (1 ∷ [])) (run elist_command (run info_command before).1))
  unfolding listed found
  listed-Sound next n seen before one few h =
      let answer = (run elist_command (run info_command before).1).0 in
      let final = (run elist_command (run info_command before).1).1 in
      elim (Result-cases (is_marker answer)) [
        | inr (e, failed) ↦ rw failed (λ v returned. cc)
        | inl (true, e) ↦ rw e (λ v returned. rw (← ok_injective returned) (
            found-IsSound run n 1 seen true final few (
              inr (record {
                before = before;
                count_is = refl;
                expected_is = refl;
                counted_one = one;
                shown = is_marker-ShowsMark answer e;
                final_is = refl;
              }))))
        | inl (false, e) ↦ rw e (h final)
      ]

  counted-Sound :
      (next : M → Result LogCleanupError Verification × M) (n : ℕ) (seen : List ℕ) (count : ℕ)
      (before : M)
      → observed (run info_command before).0 ≡ ok count
      → length seen + 1 ≤ n
      → ((t : M) → Sound n (next t))
      → Sound n (counted run next (seen ++ (count ∷ [])) count (run info_command before).1)
  unfolding counted found
  counted-Sound next n seen zero before e few h = λ v returned. rw (← ok_injective returned) (
      found-IsSound run n 0 seen false (run info_command before).1 few
        (inl (record { before = before; count_is = refl; counted_none = e; final_is = refl })))
  counted-Sound next n seen (suc zero) before e few h = listed-Sound next n seen before e few h
  counted-Sound next n seen (suc (suc k)) before e few h =
      let not_zero : eqb (suc (suc k)) 0 ≡ false = ground arith in
      let not_one : eqb (suc (suc k)) 1 ≡ false = ground arith in
      rw (not_zero, not_one) (h (run info_command before).1)

  attempt-Sound :
      (next : List ℕ → M → Result LogCleanupError Verification × M) (n : ℕ) (seen : List ℕ)
      (before : M)
      → length seen + 1 ≤ n
      → ((seen' : List ℕ) (t : M) → length seen' ≡ length seen + 1 → Sound n (next seen' t))
      → Sound n (attempt run next seen (run info_command before))
  unfolding attempt
  attempt-Sound next n seen before few h =
      elim (Result-cases (observed (run info_command before).0)) [
        | inr (e, failed) ↦ rw failed (λ v returned. cc)
        | inl (count, e) ↦ rw e (
            counted-Sound (next (seen ++ (count ∷ []))) n seen count before e few
              (λ t. h (seen ++ (count ∷ [])) t (length-append seen (count ∷ []))))
      ]

  verify_from-Sound :
      (left : ℕ) (seen : List ℕ) (m : M) → Sound (length seen + left) (verify_from run left seen m)
  unfolding verify_from
  verify_from-Sound zero seen m v returned = rw (← ok_injective returned) (record {
    all_counted = refl;
    within = omega arith;
    last_is = refl;
    empty_is = λ e. cc;
    else_all = λ e. omega arith;
  })
  verify_from-Sound (suc left) seen m v returned =
      attempt-Sound (λ seen' t. verify_from run left seen' t) (length seen + suc left) seen m
        (omega arith)
        (λ seen' t longer.
          carried seen' (verify_from run left seen' t) longer (verify_from-Sound left seen' t))
        v returned
    where
      carried :
          (seen' : List ℕ) (r : Result LogCleanupError Verification × M)
          → length seen' ≡ length seen + 1
          → Sound (length seen' + left) r
          → Sound (length seen + suc left) r
      carried seen' r longer h v returned =
          let same : length seen' + left ≡ length seen + suc left = omega arith in
          rw (← same) (h v returned)

  -- a verification that verify_empty returns counts one observation for each attempt, at most as many
  -- as it is allowed, and the last one is the count that it reports. It says that the log is empty
  -- only where its last command counted no record, or where its last two commands counted one record
  -- and made a listing whose only line that is not blank says that the log area was cleared; it says
  -- that the log is not empty only after every attempt.
  pub verify_empty-IsSound :
      (attempts : ℕ) (m : M) (v : Verification)
      → (verify_empty run attempts m).0 ≡ ok v
      → IsSound run attempts v (verify_empty run attempts m).1
  unfolding verify_empty
  verify_empty-IsSound attempts m v returned =
      let none_before : 0 + attempts ≡ attempts = omega arith in
      subst (λ k. IsSound run k v (verify_from run attempts [] m).1) none_before
        (verify_from-Sound attempts [] m v returned)
