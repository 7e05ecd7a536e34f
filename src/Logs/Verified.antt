-- ===== src/Logs/Verified.antt =====
-- LocalIpmiSelCleanupAdapter.verify_empty of cnserverops/logs.py: what its loop runs and reports.
use cnserver_ops.Prelude.{
  String, ℕ, zero, suc, ◌+◌, ◌*◌, ◌≤◌, true, false, List, [], ◌∷◌, ◌++◌, Option, Result, ◌≡◌, refl,
  ◌⊎◌, inl, inr, ◌∙◌, arith, All, length, length-append, Bool-cases, Result-cases, eqb,
}
use cnserver_ops.Logs.{
  Completed, Machine, LogCleanupError, Verification, info_command, elist_command, observed,
  is_marker, listed, counted, attempt, verify_from, verify_empty,
}

-- A machine whose commands are noted, the last one first.
abbrev pub traced : {M : Type 0} → Machine M → Machine (M × List (List String))
traced run command (m, log) = let (answer, m') = run command m in (answer, (m', command ∷ log))

abbrev pub Reads : List String → Type 0
Reads command = (command ≡ info_command) ⊎ (command ≡ elist_command)

-- A log got at most `n` more commands, which only read.
pub record Extends (n : ℕ) (log log' : List (List String)) : Type 0 where
  pub commands : List (List String)
  pub log_is : log' ≡ commands ++ log
  pub few : length commands ≤ n
  pub reads : All Reads commands

append_assoc : (xs ys zs : List (List String)) → xs ++ (ys ++ zs) ≡ (xs ++ ys) ++ zs
append_assoc [] ys zs = refl
append_assoc (x ∷ xs) ys zs = rw (append_assoc xs ys zs)

Extends-none : (n : ℕ) (log : List (List String)) → Extends n log log
Extends-none n log = record { commands = []; log_is = refl; few = omega arith; reads = tt }

All-append : (xs ys : List (List String)) → All Reads xs → All Reads ys → All Reads (xs ++ ys)
All-append [] ys h k = k
All-append (x ∷ xs) ys h k = (h.0, All-append xs ys h.1 k)

Extends-after :
    (n : ℕ) (command : List String) (log log' : List (List String))
    → Reads command
    → Extends n (command ∷ log) log'
    → Extends (n + 1) log log'
Extends-after n command log log' reads_it e = record {
  commands = e.commands ++ (command ∷ []);
  log_is = e.log_is ∙ append_assoc e.commands (command ∷ []) log;
  few = let l = length-append e.commands (command ∷ []) in let f = e.few in omega arith;
  reads = All-append e.commands (command ∷ []) e.reads (reads_it, tt);
}

Extends-more :
    (n k : ℕ) (log log' : List (List String)) → n ≤ k → Extends n log log' → Extends k log log'
Extends-more n k log log' h e = record {
  commands = e.commands;
  log_is = e.log_is;
  few = let f = e.few in omega arith;
  reads = e.reads;
}

module _ {M : Type 0} (run : Machine M) where
  listed-Extends :
      (next : M × List (List String)
        → Result LogCleanupError Verification × (M × List (List String)))
      (n : ℕ) (seen : List ℕ) (answer : Option Completed) (s : M × List (List String))
      → ((t : M × List (List String)) → Extends n t.1 (next t).1.1)
      → Extends n s.1 (listed (traced run) next seen (answer, s)).1.1
  unfolding listed
  listed-Extends next n seen answer s h = elim (Result-cases (is_marker answer)) [
    | inr (e, failed) ↦ rw failed (Extends-none n s.1)
    | inl (true, e) ↦ rw e (Extends-none n s.1)
    | inl (false, e) ↦ rw e (h s)
  ]

  counted-Extends :
      (next : M × List (List String)
        → Result LogCleanupError Verification × (M × List (List String)))
      (n : ℕ) (seen : List ℕ) (count : ℕ) (s : M × List (List String))
      → ((t : M × List (List String)) → Extends n t.1 (next t).1.1)
      → Extends (n + 1) s.1 (counted (traced run) next seen count s).1.1
  unfolding counted
  counted-Extends next n seen count s h = elim (Bool-cases (eqb count 0)) [
    | inl none_left ↦ rw none_left (Extends-none (n + 1) s.1)
    | inr some_left ↦ rw some_left (elim (Bool-cases (eqb count 1)) [
      | inl one ↦ rw one (
          Extends-after n elist_command s.1 _ (inr refl) (
            listed-Extends next n seen (run elist_command s.0).0
              ((run elist_command s.0).1, elist_command ∷ s.1) h))
      | inr more ↦ rw more (Extends-more n (n + 1) s.1 _ (omega arith) (h s))
    ])
  ]

  attempt-Extends :
      (next : List ℕ
        → M × List (List String)
        → Result LogCleanupError Verification × (M × List (List String)))
      (n : ℕ) (seen : List ℕ) (answer : Option Completed) (s : M × List (List String))
      → ((seen' : List ℕ) (t : M × List (List String)) → Extends n t.1 (next seen' t).1.1)
      → Extends (n + 1) s.1 (attempt (traced run) next seen (answer, s)).1.1
  unfolding attempt
  attempt-Extends next n seen answer s h = elim (Result-cases (observed answer)) [
    | inr (e, failed) ↦ rw failed (Extends-none (n + 1) s.1)
    | inl (count, e) ↦ rw e (
        counted-Extends (next (seen ++ (count ∷ []))) n (seen ++ (count ∷ [])) count s
          (h (seen ++ (count ∷ []))))
  ]

  verify_from-Extends :
      (left : ℕ) (seen : List ℕ) (s : M × List (List String))
      → Extends (2 * left) s.1 (verify_from (traced run) left seen s).1.1
  unfolding verify_from
  verify_from-Extends zero seen s = Extends-none 0 s.1
  verify_from-Extends (suc left) seen s =
      Extends-more (2 * left + 1 + 1) (2 * suc left) s.1 _ (omega arith) (
        Extends-after (2 * left + 1) info_command s.1 _ (inl refl) (
          attempt-Extends (λ seen' t. verify_from (traced run) left seen' t) (2 * left) seen
            (run info_command s.0).0 ((run info_command s.0).1, info_command ∷ s.1)
            (λ seen' t. verify_from-Extends left seen' t)))

-- however the machine answers, verify_empty runs at most two commands for each attempt, and each of
-- them only reads the event log: none is the command that clears it.
pub verify_empty-Extends :
    {M : Type 0} (run : Machine M) (attempts : ℕ) (m : M) (log : List (List String))
    → Extends (2 * attempts) log (verify_empty (traced run) attempts (m, log)).1.1
unfolding verify_empty
verify_empty-Extends run attempts m log = verify_from-Extends run attempts [] (m, log)
