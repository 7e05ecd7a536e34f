-- ===== src/Derivation/Words.antt =====
-- The texts of cnserverops/identity.py: `_clean`, `_serial` and the pattern of a management module,
-- over ASCII.
use Prim.Native.Char.{Char, code}
use cnserver_ops.Prelude.{
  String, ℕ, Bool, false, ◌||◌, List, [], ◌∷◌, Option, none, some, ◌==◌, ◌<>◌, contains,
  if◌then◌else◌, eqb,
}
use cnserver_ops.Text.{
  upper, strip, squeeze, drop_prefix, all_chars, is_upper_code, is_digit_code, is_lower_code,
}

placeholders : List String
placeholders =
    "" ∷ "0" ∷ "NONE" ∷ "N A" ∷ "NA" ∷ "NOT APPLICABLE" ∷ "NOT SPECIFIED" ∷ "SYSTEM SERIAL NUMBER"
    ∷ "TO BE FILLED BY O E M" ∷ "TO BE FILLED BY OEM" ∷ "UNKNOWN" ∷ []

-- `_clean`.
unfoldable pub clean : String → String
unfolding squeeze strip
clean value = squeeze (strip value)

-- `re.sub(r"[^A-Z0-9]+", " ", text)`, but for the number of blanks.
letters_and_digits : String → String
letters_and_digits String.[] = ""
letters_and_digits (String.◌∷◌ c s) =
    let rest = letters_and_digits s in
    if is_upper_code (code c) || is_digit_code (code c) then String.◌∷◌ c rest else " " <> rest

-- `_serial`: the runs that the pattern replaces by one blank are squeezed to one.
unfoldable pub serial : String → String
unfolding clean letters_and_digits placeholders upper squeeze
serial value =
    let cleaned = clean value in
    if contains (squeeze (letters_and_digits (upper cleaned))) placeholders then "" else cleaned

-- The words between the characters that `\b` separates.
is_word_code : ℕ → Bool
is_word_code n = is_upper_code n || is_lower_code n || is_digit_code n || eqb n b'_'

add_char : Char → List String → List String
add_char c [] = String.◌∷◌ c "" ∷ []
add_char c (w ∷ ws) = String.◌∷◌ c w ∷ ws

words : String → List String
unfolding is_word_code add_char
words String.[] = "" ∷ []
words (String.◌∷◌ c s) =
    let rest = words s in if is_word_code (code c) then add_char c rest else "" ∷ rest

all_digits : Option String → Bool
all_digits none = false
all_digits (some s) = all_chars is_digit_code s

any_module : List String → Bool
unfolding all_digits
any_module [] = false
any_module (w ∷ ws) = w == "SCM" || all_digits (drop_prefix "ASMB" w) || any_module ws

-- `re.search(r"\bASMB\d*\b|\bSCM\b", f"{product} {manufacturer}", re.IGNORECASE)`.
unfoldable pub is_management_module : String → String → Bool
unfolding words any_module upper
is_management_module product manufacturer =
    any_module (words (upper (product <> " " <> manufacturer)))
