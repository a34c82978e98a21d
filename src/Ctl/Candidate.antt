-- ===== src/Ctl/Candidate.antt =====
-- cmd/clawgressctl/main.go: setByPath and getByPath. The maps of a configuration are a tree, as json.Unmarshal
-- builds it, so that a write through a map is the tree with that map replaced.
pub mod Laws
use crispy_garbanzo.Base.{
  String, Bool, true, false, Option, none, some, List, [], ◌∷◌, ◌==◌, if◌then◌else◌, split,
}
use crispy_garbanzo.Base.Value.{
  Value, null, flag, number, array, object, Items, no_items, item, Fields, no_fields, field,
  field_at,
}

-- `m[k] = v`
unfoldable pub put : String → Value → Fields → Fields
put k v no_fields = field k v no_fields
put k v (field j w fs) = if j == k then field k v fs else field j w (put k v fs)

-- `append(cur, v)`
unfoldable pub append_item : Value → Items → Items
append_item v no_items = item v no_items
append_item v (item w xs) = item w (append_item v xs)

-- the map under a key, a new one if there is none
unfoldable pub child_of : Option Value → Fields
child_of none = no_fields
child_of (some (object fs)) = fs
child_of (some null) = no_fields
child_of (some (flag b)) = no_fields
child_of (some (number n)) = no_fields
child_of (some (Value.string s)) = no_fields
child_of (some (array xs)) = no_fields

-- what stands under the last key after a value was added in append mode
unfoldable pub added : Option Value → Value → Value
unfolding append_item
added none v = array (item v no_items)
added (some (array xs)) v = array (append_item v xs)
added (some null) v = array (item null (item v no_items))
added (some (flag b)) v = array (item (flag b) (item v no_items))
added (some (number n)) v = array (item (number n) (item v no_items))
added (some (Value.string s)) v = array (item (Value.string s) (item v no_items))
added (some (object fs)) v = array (item (object fs) (item v no_items))

unfoldable pub new_leaf : Bool → Option Value → Value → Value
unfolding added
new_leaf append_mode existing v = if append_mode then added existing v else v

-- the loop over the parts; Split gives at least one
unfoldable pub set_parts : List String → Value → Bool → Fields → Fields
unfolding put child_of new_leaf field_at
set_parts [] v append_mode m = m
set_parts (leaf ∷ []) v append_mode m = put leaf (new_leaf append_mode (field_at leaf m) v) m
set_parts (key ∷ part ∷ parts) v append_mode m =
    put key (object (set_parts (part ∷ parts) v append_mode (child_of (field_at key m)))) m

unfoldable pub set_by_path : Fields → String → Value → Bool → Fields
unfolding set_parts split
set_by_path root path v append_mode = set_parts (split b'.' path) v append_mode root

unfoldable pub get_parts : List String → Value → Option Value
unfolding field_at
get_parts [] cur = some cur
get_parts (part ∷ parts) (object m) = elim (field_at part m) [
  | none ↦ none
  | some next ↦ get_parts parts next
]
get_parts (part ∷ parts) null = none
get_parts (part ∷ parts) (flag b) = none
get_parts (part ∷ parts) (number n) = none
get_parts (part ∷ parts) (Value.string s) = none
get_parts (part ∷ parts) (array xs) = none

unfoldable pub get_by_path : Fields → String → Option Value
unfolding get_parts split
get_by_path root path = get_parts (split b'.' path) (object root)
