-- ===== src/Enforcer/Tree.antt =====
-- internal/enforcer/nftables.go and opsplan.go: the readers of the tree of changes.
use crispy_garbanzo.Base.{
  String, Bool, true, false, ◌||◌, Option, none, some, List, [], ◌∷◌, ◌++◌, ◌==◌, if◌then◌else◌,
  trim_space, to_lower,
}
use crispy_garbanzo.Base.Value.{
  Value, null, flag, number, array, object, Items, no_items, item, Fields, no_fields, field,
  field_at,
}

-- the value at a path, for `getAt`; a missing one is Go's nil
unfoldable pub get_at : Value → List String → Value
unfolding field_at
get_at v [] = v
get_at (object fs) (p ∷ path) = elim (field_at p fs) [ none ↦ null | some v ↦ get_at v path ]
get_at null (p ∷ path) = null
get_at (Value.string s) (p ∷ path) = null
get_at (flag b) (p ∷ path) = null
get_at (number n) (p ∷ path) = null
get_at (array xs) (p ∷ path) = null

-- `toString`
unfoldable pub to_string : Value → String
to_string (Value.string s) = s
to_string null = ""
to_string (flag b) = ""
to_string (number n) = ""
to_string (array xs) = ""
to_string (object fs) = ""

unfoldable pub get_string : Fields → List String → String
unfolding get_at to_string
get_string root path = to_string (get_at (object root) path)

unfoldable pub to_bool : Value → Bool
to_bool (flag b) = b
to_bool null = false
to_bool (Value.string s) = false
to_bool (number n) = false
to_bool (array xs) = false
to_bool (object fs) = false

unfoldable pub get_bool : Fields → List String → Bool
unfolding get_at to_bool
get_bool root path = to_bool (get_at (object root) path)

-- the map that a value is, if it is one
unfoldable pub as_map : Value → Option Fields
as_map (object fs) = some fs
as_map null = none
as_map (Value.string s) = none
as_map (flag b) = none
as_map (number n) = none
as_map (array xs) = none

-- a nil map has no entries
unfoldable pub or_nil : Option Fields → Fields
or_nil none = no_fields
or_nil (some fs) = fs

unfoldable pub map_at : Fields → List String → Fields
unfolding get_at as_map or_nil
map_at root path = or_nil (as_map (get_at (object root) path))

-- `len(m) == 0`
unfoldable pub is_empty : Fields → Bool
is_empty no_fields = true
is_empty (field k v fs) = false

unfoldable pub entries : Fields → List (String × Value)
entries no_fields = []
entries (field k v fs) = (k, v) ∷ entries fs

-- `m[k]` of a key that may be missing
unfoldable pub value_of : Fields → String → Value
unfolding field_at
value_of fs k = elim (field_at k fs) [ none ↦ null | some v ↦ v ]

-- `strings.EqualFold`
unfoldable pub equal_fold : String → String → Bool
unfolding to_lower
equal_fold s t = to_lower s == to_lower t

unfoldable pub says_dhcp : Value → Bool
unfolding equal_fold
says_dhcp (Value.string s) = equal_fold (trim_space s) "dhcp"
says_dhcp null = false
says_dhcp (flag b) = false
says_dhcp (number n) = false
says_dhcp (array xs) = false
says_dhcp (object fs) = false

unfoldable pub any_dhcp : Items → Bool
unfolding says_dhcp
any_dhcp no_items = false
any_dhcp (item v xs) = says_dhcp v || any_dhcp xs

unfoldable pub has_dhcp_address : Value → Bool
unfolding says_dhcp any_dhcp
has_dhcp_address (array xs) = any_dhcp xs
has_dhcp_address (Value.string s) = says_dhcp (Value.string s)
has_dhcp_address null = false
has_dhcp_address (flag b) = false
has_dhcp_address (number n) = false
has_dhcp_address (object fs) = false

-- a text without its spaces, if any is left
unfoldable pub unless_blank : String → List String
unless_blank s = if trim_space s == "" then [] else trim_space s ∷ []

-- the addresses of a value that is not an array
unfoldable pub address_of : Value → List String
unfolding unless_blank
address_of (Value.string s) = unless_blank s
address_of null = []
address_of (flag b) = []
address_of (number n) = []
address_of (array xs) = []
address_of (object fs) = []

unfoldable pub item_addresses : Items → List String
unfolding address_of
item_addresses no_items = []
item_addresses (item v xs) = address_of v ++ item_addresses xs

unfoldable pub collect_addresses : Value → List String
unfolding address_of item_addresses
collect_addresses (array xs) = item_addresses xs
collect_addresses (Value.string s) = address_of (Value.string s)
collect_addresses null = []
collect_addresses (flag b) = []
collect_addresses (number n) = []
collect_addresses (object fs) = []
