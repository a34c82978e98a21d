-- ===== src/Enforcer/Plan.antt =====
-- internal/enforcer/opsplan.go: the plan of operations for a tree of changes. The entries of a map are
-- met in the order in which they stand, for Go's unspecified one.
pub mod Order
pub mod Builders
use crispy_garbanzo.Base.{
  String, Bool, true, false, ◌&&◌, ◌||◌, not, Option, none, some, List, [], ◌∷◌, ◌++◌, ◌==◌,
  if◌then◌else◌, any, map, trim_space, replace_char, join, print, flatten,
}
use crispy_garbanzo.Enforcer.Interfaces.{Operation, build_interface_ops}
use crispy_garbanzo.Enforcer.Families.{
  build_system_ops, build_service_ops, build_firewall_nat_ops, build_policy_ops,
  build_family_fallback_ops,
}
use crispy_garbanzo.Base.Sort.{sort, text_before}
use crispy_garbanzo.Base.Value
use crispy_garbanzo.Base.Value.{Value, null, flag, number, array, object, Fields}
use crispy_garbanzo.Enforcer.Tree.{
  get_at, to_string, get_string, as_map, map_at, is_empty, entries, value_of, has_dhcp_address,
  collect_addresses, or_nil,
}

-- the key of an operation in `seen`
unfoldable pub key_of : Operation → String
key_of op = print (op.backend ∷ "|" ∷ op.scope ∷ [])

-- the loop of `dedupeOps`, with the keys that are in `seen`
unfoldable pub first_ops : List String → List Operation → List Operation
unfolding key_of
first_ops seen [] = []
first_ops seen (op ∷ ops) =
    let key = key_of op in
    let skipped = first_ops seen ops in
    let kept = op ∷ first_ops (key ∷ seen) ops in
    if op.backend == "" || op.scope == ""
    then skipped
    else if any (λ k. k == key) seen
    then skipped
    else kept

unfoldable pub op_before : Operation → Operation → Bool
unfolding text_before
op_before a b =
    if not (a.backend == b.backend)
    then text_before a.backend b.backend
    else text_before a.scope b.scope

unfoldable pub dedupe_ops : List Operation → List Operation
unfolding first_ops sort op_before
dedupe_ops ops = sort op_before (first_ops [] ops)

unfoldable pub build_ops_plan : Fields → List Operation
unfolding flatten dedupe_ops build_interface_ops build_system_ops build_service_ops
    build_firewall_nat_ops build_policy_ops build_family_fallback_ops
build_ops_plan changes = dedupe_ops (
    flatten (
      build_interface_ops changes
      ∷ build_system_ops changes
      ∷ build_service_ops changes
      ∷ build_firewall_nat_ops changes
      ∷ build_policy_ops changes
      ∷ build_family_fallback_ops changes
      ∷ []))
