-- ===== src/Enforcer/Nftables.antt =====
-- internal/enforcer/nftables.go: the rules of nftables that a revision asks for, and their application.
pub mod Rendered
pub mod Loaded
mod Tests
use crispy_garbanzo.Base.{
  String, Bool, true, false, ◌&&◌, ◌||◌, not, Option, none, some, List, [], ◌∷◌, ◌++◌, ◌==◌,
  if◌then◌else◌, map, trim_space, to_lower, join, print, flatten,
}
use crispy_garbanzo.Base.Sort.{text_before, sort}
use crispy_garbanzo.Base.Value.{Value, object, Fields, field_at}
use crispy_garbanzo.Enforcer.Tree.{
  get_string, get_bool, as_map, map_at, entries, value_of, to_string, equal_fold,
}

unfoldable pub nft_policy_of : String → String → String
nft_policy_of v fallback = if v == "accept" || v == "drop" then v else fallback

unfoldable pub to_nft_policy : String → String → String
unfolding nft_policy_of to_lower trim_space
to_nft_policy v fallback = nft_policy_of (to_lower (trim_space v)) fallback

-- the name of an interface whose role is "wan"
unfoldable pub wan_name : String × Value → List String
unfolding as_map equal_fold to_string value_of
wan_name (ifn, raw) = elim (as_map raw) [
  | none ↦ []
  | some m ↦ if equal_fold (to_string (value_of m "role")) "wan" then ifn ∷ [] else []
]

unfoldable pub get_wan_ifaces : Fields → List String
unfolding map_at entries wan_name flatten text_before sort
get_wan_ifaces changes =
    sort text_before
      (flatten (map wan_name (entries (map_at changes ("interfaces" ∷ "ethernet" ∷ [])))))

unfoldable pub masquerade_line : String → String → String → List String
unfolding to_lower print
masquerade_line oif src xlat =
    if oif == "" || src == "" || not (to_lower xlat == "masquerade")
    then []
    else print ("oifname \"" ∷ oif ∷ "\" ip saddr " ∷ src ∷ " masquerade" ∷ []) ∷ []

-- the line of one rule, if it is a map
unfoldable pub source_nat_rule : Option Fields → List String
unfolding masquerade_line to_string value_of get_string
source_nat_rule none = []
source_nat_rule (some rule) =
    masquerade_line (to_string (value_of rule "outbound_interface"))
      (get_string rule ("source" ∷ "address" ∷ []))
      (get_string rule ("translation" ∷ "address" ∷ []))

-- `rulesMap[id].(map[string]any)`
unfoldable pub rule_at : Fields → String → Option Fields
unfolding as_map value_of
rule_at rules id = as_map (value_of rules id)

unfoldable pub render_source_nat_rules : Fields → List String
unfolding map_at entries text_before sort flatten source_nat_rule rule_at
render_source_nat_rules changes =
    let rules = map_at changes ("nat" ∷ "source" ∷ "rule" ∷ []) in
    flatten (
      map (λ id. source_nat_rule (rule_at rules id))
        (sort text_before (map (λ (id, v). id) (entries rules))))

unfoldable pub quoted : String → String
unfolding print
quoted s = print ("\"" ∷ s ∷ "\"" ∷ [])

-- the set of the interfaces to the outside, where they are blocked
unfoldable pub wan_set : Bool → List String → List String
unfolding join quoted
wan_set wan_block [] = []
wan_set wan_block (i ∷ ifaces) =
    if wan_block
    then "  set wan_ifaces {\n"
      ∷ "    type ifname\n"
      ∷ "    elements = { "
      ∷ join ", " (map quoted (i ∷ ifaces))
      ∷ " }\n"
      ∷ "  }\n\n"
      ∷ []
    else []

unfoldable pub wan_drop : Bool → List String → List String
wan_drop wan_block [] = []
wan_drop wan_block (i ∷ ifaces) = if wan_block then "    iifname @wan_ifaces drop\n" ∷ [] else []

unfoldable pub nat_table : List String → List String
unfolding flatten
nat_table [] = []
nat_table (r ∷ rules) =
    ("\n" ∷ "table ip clawgress_dynamic_nat {\n" ∷ "  chain postrouting {\n"
      ∷ "    type nat hook postrouting priority srcnat; policy accept;\n" ∷ [])
    ++ (flatten (map (λ line. "    " ∷ line ∷ "\n" ∷ []) (r ∷ rules)) ++ "  }\n" ∷ "}\n" ∷ [])

unfoldable pub chain_policy : Fields → String → String → String
unfolding to_nft_policy get_string
chain_policy changes chain fallback =
    to_nft_policy (get_string changes ("firewall" ∷ "nftables" ∷ chain ∷ "default_action" ∷ []))
      fallback

unfoldable pub input_chain : String → List String → List String
input_chain policy drop_wan =
    ("  chain input {\n    type filter hook input priority 0; policy " ∷ policy ∷ ";\n"
      ∷ "    iif lo accept\n" ∷ "    ct state established,related accept\n" ∷ [])
    ++ (drop_wan
        ++ "    tcp dport { 22, 53, 80, 443, 8404 } accept\n" ∷ "    udp dport { 53 } accept\n"
          ∷ "  }\n\n" ∷ [])

unfoldable pub forward_chain : String → List String
forward_chain policy =
    "  chain forward {\n    type filter hook forward priority 0; policy " ∷ policy ∷ ";\n"
    ∷ "    ct state established,related accept\n" ∷ "  }\n\n" ∷ []

unfoldable pub output_chain : String → List String
output_chain policy =
    "  chain output {\n    type filter hook output priority 0; policy " ∷ policy ∷ ";\n  }\n"
    ∷ "}\n" ∷ []

-- what the buffer is given, piece by piece
unfoldable pub rule_pieces : Fields → List String
unfolding flatten wan_set wan_drop nat_table chain_policy input_chain forward_chain output_chain
    get_bool get_wan_ifaces render_source_nat_rules
rule_pieces changes =
    let wan_block = get_bool changes ("firewall" ∷ "nftables" ∷ "wan_block" ∷ []) in
    let ifaces = get_wan_ifaces changes in
    flatten (
      ("#!/usr/sbin/nft -f\n\n" ∷ "table inet clawgress_dynamic {\n" ∷ [])
      ∷ wan_set wan_block ifaces
      ∷ input_chain (chain_policy changes "input" "drop") (wan_drop wan_block ifaces)
      ∷ forward_chain (chain_policy changes "forward" "drop")
      ∷ output_chain (chain_policy changes "output" "accept")
      ∷ nat_table (render_source_nat_rules changes)
      ∷ [])

unfoldable pub render_rules : Fields → String
unfolding rule_pieces print
render_rules changes = print (rule_pieces changes)

-- the file of rules, and for each of the two tables the files that nft loaded since the table was deleted,
-- whose rules add up
pub record Kernel : Type 0 where
  pub rules_file : Option String
  pub inet_files : List String
  pub nat_files : List String

-- what the system answers: whether the directory is made, the file is written (and what a failed write leaves),
-- nft deletes the table clawgress_dynamic and the table clawgress_dynamic_nat, and nft accepts the file
pub record System : Type 0 where
  pub directory_made : Bool
  pub write_ok : Bool
  pub left_behind : Option String
  pub inet_deleted : Bool
  pub nat_deleted : Bool
  pub nft_accepts : Bool

pub data ApplyResult : Type 0 where
  no_directory not_written : ApplyResult
  -- the rules are on file, and whether they were loaded
  rendered applied nft_refused : ApplyResult

-- a delete that fails leaves the table as it is
unfoldable pub delete_table : Bool → List String → List String
delete_table deleted files = if deleted then [] else files

-- the two deletes, whose errors are ignored, and then the load of the file
unfoldable pub load_rules : System → String → Kernel → Kernel × ApplyResult
unfolding delete_table
load_rules sys rules k =
    let inet = delete_table sys.inet_deleted k.inet_files in
    let nat = delete_table sys.nat_deleted k.nat_files in
    if sys.nft_accepts
    then (record k { inet_files = inet ++ rules ∷ []; nat_files = nat ++ rules ∷ [] }, applied)
    else (record k { inet_files = inet; nat_files = nat }, nft_refused)

unfoldable pub apply_nftables : System → Fields → Bool → Kernel → Kernel × ApplyResult
unfolding render_rules load_rules
apply_nftables sys changes execute k =
    if not sys.directory_made
    then (k, no_directory)
    else if not sys.write_ok
    then (record k { rules_file = sys.left_behind }, not_written)
    else if not execute
    then (record k { rules_file = some (render_rules changes) }, rendered)
    else load_rules sys (render_rules changes)
        (record k { rules_file = some (render_rules changes) })
