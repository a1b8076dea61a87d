-- ===== src/RunPolicy/Canonical.antt =====
-- internal/domain/runpolicy/jcs.go: JSON with sorted keys and no spaces. `quote` is the standard
-- library's encoding of a string, and a number comes as its text.
use Prim.Native.String
use lark_bridge_agent_sdk.Base.{String, Bool, true, false, List, [], ◌∷◌, if◌then◌else◌}
use lark_bridge_agent_sdk.Base.Json.{
  Json, Items, Fields, null, bool, num, str, arr, obj, no_items, item, no_fields, field,
}
use Prim.Native.Nat.{Ordering}

-- The order of `sort.Strings`: by bytes.
unfoldable pub not_after : String → String → Bool
not_after s t = elim (String.compare s t) [ Ordering.gt ↦ false | _ ↦ true ]

unfoldable pub insert_sorted : String → List String → List String
insert_sorted s [] = s ∷ []
insert_sorted s (t ∷ ts) =
    let rest = insert_sorted s ts in if not_after s t then s ∷ t ∷ ts else t ∷ rest

unfoldable pub sorted_strings : List String → List String
sorted_strings [] = []
sorted_strings (s ∷ ss) = insert_sorted s (sorted_strings ss)

-- The keys of an object, in their order, with the texts of their values.
unfoldable pub insert_entry : String × String → List (String × String) → List (String × String)
insert_entry e [] = e ∷ []
insert_entry e (f ∷ fs) =
    let rest = insert_entry e fs in if not_after e.0 f.0 then e ∷ f ∷ fs else f ∷ rest

unfoldable pub sorted_entries : List (String × String) → List (String × String)
sorted_entries [] = []
sorted_entries (e ∷ es) = insert_entry e (sorted_entries es)

abbrev pub glue : String → String → String
glue s t = String.◌++◌ s t

module _ (quote : String → String) where
  -- `strings.Join(entries, ",")`, where an entry is a key and the text of its value.
  abbrev joined_fields : List (String × String) → String
  joined_fields [] = ""
  joined_fields ((key, text) ∷ []) = glue (quote key) (glue ":" text)
  joined_fields ((key, text) ∷ other ∷ entries) =
      glue (quote key) (glue ":" (glue text (glue "," (joined_fields (other ∷ entries)))))

  abbrev joined_items : List String → String
  joined_items [] = ""
  joined_items (text ∷ []) = text
  joined_items (text ∷ other ∷ texts) = glue text (glue "," (joined_items (other ∷ texts)))

  unfoldable mutual
    pub canonicalize_jcs : Json → String
    canonicalize_jcs null = "null"
    canonicalize_jcs (bool true) = "true"
    canonicalize_jcs (bool false) = "false"
    canonicalize_jcs (num text) = text
    canonicalize_jcs (str s) = quote s
    canonicalize_jcs (arr items) = glue "[" (glue (joined_items (item_texts items)) "]")
    canonicalize_jcs (obj fields) =
        glue "{" (glue (joined_fields (sorted_entries (field_texts fields))) "}")

    pub item_texts : Items → List String
    item_texts no_items = []
    item_texts (item value items) = canonicalize_jcs value ∷ item_texts items

    pub field_texts : Fields → List (String × String)
    field_texts no_fields = []
    field_texts (field key value fields) = (key, canonicalize_jcs value) ∷ field_texts fields
