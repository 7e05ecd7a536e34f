-- ===== src/Text.antt =====
-- The text operations of the source's language: `upper`, `lower`, `strip`, `replace`, and the
-- character classes of its regular expressions, over ASCII (other characters are left as they are).
use Prim.Native.Char.{Char, code}
use Prim.Native.String.{char_at}
use cnserver_ops.Prelude.{
  String, ℕ, suc, ◌-◌, leb, eqb, Bool, true, false, ◌&&◌, ◌||◌, if◌then◌else◌, ◌≡◌, refl, Option,
  none, some, ◌==◌, ◌<>◌,
}

upper_char : Char → Char
upper_char c =
    if leb b'a' (code c) && leb (code c) b'z'
    then char_at "ABCDEFGHIJKLMNOPQRSTUVWXYZ" (code c - b'a')
    else c

lower_char : Char → Char
lower_char c =
    if leb b'A' (code c) && leb (code c) b'Z'
    then char_at "abcdefghijklmnopqrstuvwxyz" (code c - b'A')
    else c

unfoldable pub upper : String → String
unfolding upper_char
upper String.[] = ""
upper (String.◌∷◌ c s) = String.◌∷◌ (upper_char c) (upper s)

unfoldable pub lower : String → String
unfolding lower_char
lower String.[] = ""
lower (String.◌∷◌ c s) = String.◌∷◌ (lower_char c) (lower s)

is_space : Char → Bool
is_space c = let n = code c in eqb n 32 || (leb 9 n && leb n 13) || (leb 28 n && leb n 31)

strip_left : String → String
unfolding is_space
strip_left String.[] = ""
strip_left (String.◌∷◌ c s) = let rest = strip_left s in if is_space c then rest else String.◌∷◌ c s

strip_right : String → String
unfolding is_space
strip_right String.[] = ""
strip_right (String.◌∷◌ c s) =
    let rest = strip_right s in if is_space c && rest == "" then "" else String.◌∷◌ c rest

-- `s.strip()`.
unfoldable pub strip : String → String
unfolding strip_left strip_right
strip s = strip_right (strip_left s)

-- `s.replace(" ", "_")`.
unfoldable pub spaces_to_underscores : String → String
spaces_to_underscores String.[] = ""
spaces_to_underscores (String.◌∷◌ c s) =
    String.◌∷◌ (if eqb (code c) 32 then "_" else c) (spaces_to_underscores s)

-- `all(test(c) for c in s)`.
unfoldable pub all_chars : (ℕ → Bool) → String → Bool
all_chars test String.[] = true
all_chars test (String.◌∷◌ c s) = test (code c) && all_chars test s

unfoldable pub count_chars : String → ℕ
count_chars String.[] = 0
count_chars (String.◌∷◌ c s) = suc (count_chars s)

-- What follows a prefix.
unfoldable pub drop_prefix : String → String → Option String
drop_prefix String.[] s = some s
drop_prefix (String.◌∷◌ c p) String.[] = none
drop_prefix (String.◌∷◌ c p) (String.◌∷◌ d s) =
    let rest = drop_prefix p s in if eqb (code c) (code d) then rest else none

-- `"…" in s`, for a text of one or two characters.
unfoldable pub has_char : ℕ → String → Bool
has_char n String.[] = false
has_char n (String.◌∷◌ c s) = eqb (code c) n || has_char n s

abbrev pub is_upper_code : ℕ → Bool
is_upper_code n = leb b'A' n && leb n b'Z'

abbrev pub is_digit_code : ℕ → Bool
is_digit_code n = leb b'0' n && leb n b'9'

abbrev pub is_lower_code : ℕ → Bool
is_lower_code n = leb b'a' n && leb n b'z'

abbrev pub is_lower_hex_code : ℕ → Bool
is_lower_hex_code n = is_digit_code n || (leb b'a' n && leb n b'f')

upper_sample : upper "Asus b-1" ≡ "ASUS B-1"
unfolding upper
upper_sample = refl

strip_sample : strip "  a b " ≡ "a b"
unfolding strip
strip_sample = refl

drop_prefix_sample : drop_prefix "RUN-" "RUN-X" ≡ some "X"
unfolding drop_prefix
drop_prefix_sample = refl

-- `s.replace("Z", "+00:00")`.
unfoldable pub z_to_offset : String → String
z_to_offset String.[] = ""
z_to_offset (String.◌∷◌ c s) =
    let rest = z_to_offset s in if eqb (code c) b'Z' then "+00:00" <> rest else String.◌∷◌ c rest

z_to_offset_sample : z_to_offset "2026Z" ≡ "2026+00:00"
unfolding z_to_offset
z_to_offset_sample = refl

-- `" ".join(s.split())`, with whether a blank is to be written before the next word.
squeeze_from : Bool → Bool → String → String
unfolding is_space
squeeze_from begun gap String.[] = ""
squeeze_from begun gap (String.◌∷◌ c s) =
    if is_space c
    then squeeze_from begun true s
    else if begun && gap
    then " " <> String.◌∷◌ c (squeeze_from true false s)
    else String.◌∷◌ c (squeeze_from true false s)

unfoldable pub squeeze : String → String
unfolding squeeze_from
squeeze s = squeeze_from false false s

squeeze_sample : squeeze "  a  b c " ≡ "a b c"
unfolding squeeze
squeeze_sample = refl
