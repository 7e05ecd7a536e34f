-- ===== src/Logs/Parse.antt =====
-- The patterns that cnserverops/logs.py reads command outputs with, over ASCII.
use Prim.Native.Char.{Char, code}
use cnserver_ops.Prelude.{
  String, ℕ, ◌+◌, ◌-◌, ◌*◌, Bool, true, false, ◌||◌, ◌&&◌, List, [], ◌∷◌, Option, none, some, ◌==◌,
  truthy, if◌then◌else◌, eqb, leb,
}
use cnserver_ops.Text.{strip, lower, drop_prefix, is_digit_code}

-- `\s`.
is_blank : ℕ → Bool
is_blank n = eqb n 32 || (leb 9 n && leb n 13) || (leb 28 n && leb n 31)

skip_blanks : String → String
unfolding is_blank
skip_blanks String.[] = ""
skip_blanks (String.◌∷◌ c s) =
    let rest = skip_blanks s in if is_blank (code c) then rest else String.◌∷◌ c s

-- `\s*$`: blanks up to a line break or the end of the text.
ends_line : String → Bool
unfolding is_blank
ends_line String.[] = true
ends_line (String.◌∷◌ c s) = eqb (code c) 10 || (is_blank (code c) && ends_line s)

-- `(\d+)\s*$`, with the digits read so far.
digits : Option ℕ → String → Option ℕ
unfolding ends_line
digits none String.[] = none
digits (some n) String.[] = some n
digits none (String.◌∷◌ c s) =
    if is_digit_code (code c) then digits (some (code c - b'0')) s else none
digits (some n) (String.◌∷◌ c s) =
    if is_digit_code (code c)
    then digits (some (10 * n + (code c - b'0'))) s
    else if ends_line (String.◌∷◌ c s)
    then some n
    else none

-- `Entries\s*:\s*(\d+)\s*$` at the start of a line.
entries_here : String → Option ℕ
unfolding digits skip_blanks drop_prefix
entries_here s = named (drop_prefix "Entries" s)
  where
    colon : Option String → Option ℕ
    colon none = none
    colon (some rest) = digits none (skip_blanks rest)

    named : Option String → Option ℕ
    named none = none
    named (some rest) = colon (drop_prefix ":" (skip_blanks rest))

first_of : Option ℕ → Option ℕ → Option ℕ
first_of none b = b
first_of (some n) b = some n

search_lines : Bool → String → Option ℕ
unfolding entries_here first_of
search_lines at_start String.[] = none
search_lines at_start (String.◌∷◌ c s) =
    let later = search_lines (eqb (code c) 10) s in
    if at_start then first_of (entries_here (String.◌∷◌ c s)) later else later

-- `re.search(r"^Entries\s*:\s*(\d+)\s*$", text, re.MULTILINE)`, as a number.
unfoldable pub entry_count : String → Option ℕ
unfolding search_lines
entry_count text = search_lines true text

-- `text.splitlines()`, up to empty lines.
is_break : ℕ → Bool
is_break n = (leb 10 n && leb n 13) || (leb 28 n && leb n 30)

add_char : Char → List String → List String
add_char c [] = String.◌∷◌ c "" ∷ []
add_char c (l ∷ ls) = String.◌∷◌ c l ∷ ls

unfoldable pub split_lines : String → List String
unfolding is_break add_char
split_lines String.[] = "" ∷ []
split_lines (String.◌∷◌ c s) =
    let rest = split_lines s in if is_break (code c) then "" ∷ rest else add_char c rest

-- The stripped lines in lower case that are not empty.
unfoldable pub content_lines : List String → List String
unfolding strip lower
content_lines [] = []
content_lines (l ∷ ls) =
    let rest = content_lines ls in
    let line = lower (strip l) in if truthy line then line ∷ rest else rest

is_prefix : Option String → Bool
is_prefix none = false
is_prefix (some rest) = true

-- `part in text`.
unfoldable pub has_text : String → String → Bool
unfolding is_prefix drop_prefix
has_text part String.[] = part == ""
has_text part (String.◌∷◌ c s) = is_prefix (drop_prefix part (String.◌∷◌ c s)) || has_text part s

unfoldable pub marker : List String → Bool
unfolding has_text
marker (l ∷ []) = has_text "log area reset/cleared" l || has_text "log area reset / cleared" l
marker _ = false

unfoldable pub is_expected_clear_record : String → Bool
unfolding split_lines content_lines marker
is_expected_clear_record text = marker (content_lines (split_lines text))
