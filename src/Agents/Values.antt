-- ===== src/Agents/Values.antt =====
-- The accessors of decoded JSON in internal/compat/codex/jsonl.go and
-- internal/adapters/agent/claudecli/stream_json.go. A key that is missing reads as nil.
use lark_bridge_agent_sdk.Base.{
  ℕ, String, Bool, true, false, Option, none, some, List, [], ◌∷◌, ◌==◌, if◌then◌else◌, ltb,
}
use lark_bridge_agent_sdk.Base.Json.{
  Json, null, bool, num, str, arr, obj, Items, Fields, no_fields, field,
}
use lark_bridge_agent_sdk.Agents.{Library, Whole, natural}

unfoldable pub get : String → Fields → Json
get key no_fields = null
get key (field k v fs) = let rest = get key fs in if k == key then v else rest

-- A key that is there with nil differs from one that is not.
unfoldable pub has_key : String → Fields → Bool
has_key key no_fields = false
has_key key (field k v fs) = let rest = has_key key fs in if k == key then true else rest

abbrev pub record_value : Json → Option Fields
record_value (obj fs) = some fs
record_value _ = none

abbrev pub array_value : Json → Option Items
array_value (arr items) = some items
array_value _ = none

abbrev pub string_value : Json → Option String
string_value (str s) = some s
string_value _ = none

abbrev pub is_true : Json → Bool
is_true (bool b) = b
is_true _ = false

-- `item["type"] == text` of an `any`.
abbrev pub is_string : Json → String → Bool
is_string (str s) t = s == t
is_string _ t = false

unfoldable pub first_string : List Json → Option String
first_string [] = none
first_string (str s ∷ vs) = some s
first_string (_ ∷ vs) = first_string vs

-- `numberValue` and `intValue`: `json.Unmarshal` makes every number a float.
abbrev pub number_value : Library → Json → Option Whole
number_value lib (num n) = lib.whole n
number_value lib _ = none

-- A count of tokens. No agent reports a negative one, and it is dropped here.
abbrev pub count_of : Option Whole → Option ℕ
count_of (some (natural n)) = some n
count_of _ = none

-- `truncate`.
abbrev pub truncate : Library → String → ℕ → String
truncate lib value max =
    if ltb max (lib.byte_length value) then lib.byte_prefix max value else value
