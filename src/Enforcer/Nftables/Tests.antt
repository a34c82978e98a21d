-- ===== src/Enforcer/Nftables/Tests.antt =====
-- The theorems on the rules of nftables, at a configuration with two interfaces and a translation.
use crispy_garbanzo.Base.{String, true, false, none, some, [], ◌∷◌, ◌≡◌, ◌↔◌, refl, Any}
use crispy_garbanzo.Base.Value.{Value, object, Fields, field, no_fields}
use crispy_garbanzo.Enforcer.Tree.{map_at, entries}
use crispy_garbanzo.Enforcer.Nftables.{
  get_wan_ifaces, render_source_nat_rules, render_rules, Kernel, System, nft_refused,
  apply_nftables,
}
use crispy_garbanzo.Enforcer.Nftables.Rendered.{RuleLine, render_source_nat_rules_lem}
use crispy_garbanzo.Enforcer.Nftables.Loaded.{Application, apply_nftables-Application}

abbrev with_role : String → Value
with_role r = object (field "role" (Value.string r) no_fields)

abbrev nat_rule : Value
nat_rule = object (
    field "outbound_interface" (Value.string "eth1") (
      field "source" (object (field "address" (Value.string "10.0.0.0/24") no_fields)) (
        field "translation" (object (field "address" (Value.string "Masquerade") no_fields))
          no_fields)))

abbrev changes : Fields
changes =
    field "interfaces"
      (object (
        field "ethernet"
          (object (field "eth1" (with_role "WAN") (field "eth0" (with_role "lan") no_fields)))
          no_fields))
      (field "nat"
        (object (
          field "source" (object (field "rule" (object (field "100" nat_rule no_fields)) no_fields))
            no_fields))
        no_fields)

one_wan : get_wan_ifaces changes ≡ "eth1" ∷ []
unfolding get_wan_ifaces
one_wan = refl

one_line : render_source_nat_rules changes ≡ "oifname \"eth1\" ip saddr 10.0.0.0/24 masquerade" ∷ []
unfolding render_source_nat_rules
one_line = refl

render_source_nat_rules_lem_example :
    Any (λ s. s ≡ "x") (render_source_nat_rules changes)
    ↔ Any
        (RuleLine (map_at changes ("nat" ∷ "source" ∷ "rule" ∷ [])) "x")
        (entries (map_at changes ("nat" ∷ "source" ∷ "rule" ∷ [])))
render_source_nat_rules_lem_example = render_source_nat_rules_lem changes "x"

abbrev refusing : System
refusing = record {
  directory_made = true;
  write_ok = true;
  left_behind = none;
  inet_deleted = true;
  nat_deleted = false;
  nft_accepts = false;
}

abbrev filtering : Kernel
filtering = record { rules_file = some "old"; inet_files = "old" ∷ []; nat_files = "old" ∷ [] }

left_open : apply_nftables refusing changes true filtering ≡ (
  record { rules_file = some (render_rules changes); inet_files = []; nat_files = "old" ∷ [] },
  nft_refused,
)
unfolding apply_nftables
left_open = refl

apply_nftables-Application_example : Application refusing changes true filtering
apply_nftables-Application_example = apply_nftables-Application refusing changes true filtering
