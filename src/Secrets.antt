-- ===== src/Secrets.antt =====
-- cnserverops/secrets.py: the boundary that keeps credentials out of the evidence. The search for
-- `_SENSITIVE_KEY` is written out over the ASCII letters.
pub mod Redacted
mod Tests
use Prim.Native.Char.{code}
use cnserver_ops.Prelude.{
  String, ℕ, Bool, true, false, ◌||◌, ◌&&◌, List, [], ◌∷◌, Option, none, some, Result, ok, err,
  if◌then◌else◌, eqb, raise_if, ◌>>=◌, ◌>>◌,
}
use cnserver_ops.Text.{lower, drop_prefix}
use cnserver_ops.Json.{
  Json, null, boolean, number, string, array, object, Items, nil, item, Fields, end, field,
}

sensitive_words : List String
sensitive_words =
    "password" ∷ "passwd" ∷ "credential" ∷ "secret" ∷ "token" ∷ "authorization" ∷ "cookie"
    ∷ "private_key" ∷ "private key" ∷ "private-key" ∷ "privatekey" ∷ "api_key" ∷ "api key"
    ∷ "api-key" ∷ "apikey" ∷ "community_string" ∷ "community string" ∷ "community-string"
    ∷ "communitystring" ∷ []

-- `[_ .-]`.
is_separator : ℕ → Bool
is_separator n = eqb n b'_' || eqb n b' ' || eqb n b'.' || eqb n b'-'

-- `($|[_ .-])`: `$` also stands before a last line break.
ends_word : String → Bool
unfolding is_separator
ends_word String.[] = true
ends_word (String.◌∷◌ c String.[]) = is_separator (code c) || eqb (code c) 10
ends_word (String.◌∷◌ c s) = is_separator (code c)

begins_word : String → List String → Bool
unfolding ends_word
begins_word s [] = false
begins_word s (w ∷ ws) = word (drop_prefix w s) || begins_word s ws
  where
    word : Option String → Bool
    word none = false
    word (some rest) = ends_word rest

-- `fresh` at the start of the text and behind a separator.
search_key : Bool → String → Bool
unfolding begins_word sensitive_words is_separator
search_key fresh String.[] = false
search_key fresh (String.◌∷◌ c s) =
    (fresh && begins_word (String.◌∷◌ c s) sensitive_words) || search_key (is_separator (code c)) s

-- `_SENSITIVE_KEY.search(name)`.
unfoldable pub is_sensitive : String → Bool
unfolding search_key begins_word ends_word sensitive_words is_separator lower drop_prefix
is_sensitive name = search_key true (lower name)

unfoldable mutual
  pub sanitize_evidence : Json → Json
  sanitize_evidence null = null
  sanitize_evidence (boolean b) = boolean b
  sanitize_evidence (number n) = number n
  sanitize_evidence (string s) = string s
  sanitize_evidence (array js) = array (sanitize_items js)
  sanitize_evidence (object fs) = object (sanitize_fields fs)

  pub sanitize_items : Items → Items
  sanitize_items nil = nil
  sanitize_items (item j js) = item (sanitize_evidence j) (sanitize_items js)

  pub sanitize_fields : Fields → Fields
  sanitize_fields end = end
  sanitize_fields (field k j fs) =
      let clean = sanitize_evidence j in
      field k (if is_sensitive k then string "<REDACTED>" else clean) (sanitize_fields fs)

pub data SensitiveEvidenceError : Type 0 where
  sensitive_field : String → SensitiveEvidenceError

unfoldable mutual
  pub assert_no_sensitive_fields : Json → Result SensitiveEvidenceError (Unit {0})
  assert_no_sensitive_fields null = ok tt
  assert_no_sensitive_fields (boolean b) = ok tt
  assert_no_sensitive_fields (number n) = ok tt
  assert_no_sensitive_fields (string s) = ok tt
  assert_no_sensitive_fields (array js) = assert_items js
  assert_no_sensitive_fields (object fs) = assert_fields fs

  pub assert_items : Items → Result SensitiveEvidenceError (Unit {0})
  assert_items nil = ok tt
  assert_items (item j js) = assert_no_sensitive_fields j >> assert_items js

  pub assert_fields : Fields → Result SensitiveEvidenceError (Unit {0})
  assert_fields end = ok tt
  assert_fields (field k j fs) =
      raise_if (is_sensitive k) (sensitive_field k)
      >> assert_no_sensitive_fields j
      >> assert_fields fs
