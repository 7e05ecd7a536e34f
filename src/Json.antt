-- ===== src/Json.antt =====
-- The JSON values that the source passes around as `Mapping[str, Any]`, with the parts of Python that
-- read them. What `json`, `hashlib` and `repr` return is a parameter.
use cnserver_ops.Prelude.{
  String, Bool, true, false, not, ◌||◌, Option, none, some, ◌==◌, truthy, if◌then◌else◌,
}

-- A number is kept as the text that `str` gives it.
mutual
  pub data Json : Type 0 where
    null : Json
    boolean : Bool → Json
    number : String → Json
    string : String → Json
    array : Items → Json
    object : Fields → Json

  pub data Items : Type 0 where
    nil : Items
    item : Json → Items → Items

  pub data Fields : Type 0 where
    end : Fields
    field : String → Json → Fields → Fields

-- `json.dumps` as `_canonical` calls it, and with an indent; `json.loads`, where it does not raise;
-- the SHA-256 of a text; and `str` of a list or dict.
pub record Python : Type 0 where
  pub dumps : Json → String
  pub dumps_indented : Json → String
  pub loads : String → Option Json
  pub sha256 : String → String
  pub repr : Json → String
  pub int : Json → Option String

pub is_truthy : Json → Bool
is_truthy null = false
is_truthy (boolean b) = b
is_truthy (number n) = not (n == "0" || n == "0.0" || n == "-0.0")
is_truthy (string s) = truthy s
is_truthy (array nil) = false
is_truthy (array (item j js)) = true
is_truthy (object end) = false
is_truthy (object (field k j js)) = true

-- `str(value)`.
unfoldable pub str : Python → Json → String
str py null = "None"
str py (boolean true) = "True"
str py (boolean false) = "False"
str py (number n) = n
str py (string s) = s
str py (array js) = py.repr (array js)
str py (object js) = py.repr (object js)

-- `str(value or default)`.
unfoldable pub str_or : Python → Json → String → String
unfolding is_truthy
str_or py j d = if is_truthy j then str py j else d

pub find : String → Fields → Option Json
find k end = none
find k (field j v fs) = let rest = find k fs in if j == k then some v else rest

-- `value.get(key)` of a mapping, None where there is no such key.
unfoldable pub get : String → Json → Json
unfolding find
get k (object fs) = found (find k fs)
  where
    found : Option Json → Json
    found none = null
    found (some j) = j
get k _ = null

-- `value[key]`.
unfoldable pub subscript : String → Json → Option Json
unfolding find
subscript k (object fs) = find k fs
subscript k _ = none

-- `isinstance(value, Mapping)`.
abbrev pub is_mapping : Json → Bool
is_mapping (object fs) = true
is_mapping _ = false

-- `value[key] = v`.
pub assign : String → Json → Fields → Fields
assign k v end = field k v end
assign k v (field j w fs) =
    let rest = assign k v fs in if j == k then field j v fs else field j w rest

unfoldable pub set : String → Json → Json → Json
unfolding assign
set k v (object fs) = object (assign k v fs)
set k v j = j

-- `value or default`.
unfoldable pub json_or : Json → Json → Json
unfolding is_truthy
json_or j d = if is_truthy j then j else d

-- `value.update(patch)`.
unfoldable pub patched : Json → Fields → Json
unfolding set
patched j end = j
patched j (field k v fs) = patched (set k v j) fs
