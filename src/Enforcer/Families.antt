-- ===== src/Enforcer/Families.antt =====
-- internal/enforcer/opsplan.go: the operations of the other families of the configuration.
use crispy_garbanzo.Base.{
  String, ◌||◌, none, some, List, [], ◌∷◌, ◌++◌, ◌==◌, if◌then◌else◌, replace_char, join, print,
  flatten,
}
use crispy_garbanzo.Base.Value.{Value, object, Fields}
use crispy_garbanzo.Enforcer.Tree.{
  get_at, get_string, as_map, map_at, is_empty, entries, collect_addresses,
}
use crispy_garbanzo.Enforcer.Interfaces.{Operation}

unfoldable pub host_name_ops : String → List Operation
host_name_ops h =
    if h == ""
    then []
    else (record {
      backend = "hostnamectl";
      scope = "system host-name";
      actions = print ("hostnamectl set-hostname " ∷ h ∷ []) ∷ [];
    }
        ∷ [])

unfoldable pub name_server_ops : List String → List Operation
name_server_ops [] = []
name_server_ops (s ∷ servers) =
    record {
      backend = "systemd-resolved";
      scope = "system name-server";
      actions =
          print (
            "write /etc/systemd/resolved.conf.d/90-clawgress.conf (DNS="
            ∷ join " " (s ∷ servers)
            ∷ ")"
            ∷ [])
          ∷ "systemctl restart systemd-resolved"
          ∷ [];
    }
    ∷ []

unfoldable pub ntp_server_ops : List String → List Operation
ntp_server_ops [] = []
ntp_server_ops (s ∷ servers) =
    record {
      backend = "chrony";
      scope = "system ntp server";
      actions =
          print
            ("write /etc/chrony/sources.d/clawgress.sources (" ∷ join "," (s ∷ servers) ∷ ")" ∷ [])
          ∷ "systemctl restart chrony"
          ∷ [];
    }
    ∷ []

unfoldable pub build_system_ops : Fields → List Operation
unfolding flatten host_name_ops name_server_ops ntp_server_ops get_string get_at collect_addresses
build_system_ops changes = flatten (
    host_name_ops (get_string changes ("system" ∷ "host_name" ∷ []))
    ∷ name_server_ops (collect_addresses (get_at (object changes) ("system" ∷ "name_server" ∷ [])))
    ∷ ntp_server_ops
        (collect_addresses (get_at (object changes) ("system" ∷ "ntp" ∷ "server" ∷ [])))
    ∷ [])

-- an operation for a map that has entries
unfoldable pub unless_empty : Fields → Operation → List Operation
unfolding is_empty
unless_empty m op = if is_empty m then [] else op ∷ []

unfoldable pub unit_operation : String → Operation
unfolding replace_char
unit_operation name = record {
  backend = "systemd-unit";
  scope = print ("service " ∷ replace_char b'_' "-" name ∷ []);
  actions =
      print ("write /etc/clawgress/services/" ∷ name ∷ ".json" ∷ [])
      ∷ print ("systemctl reload-or-restart " ∷ replace_char b'_' "-" name ∷ [])
      ∷ [];
}

-- the services that have no operation of their own
unfoldable pub other_services : List (String × Value) → List Operation
unfolding as_map unit_operation
other_services [] = []
other_services ((name, raw) ∷ service) =
    (if name == "dns" || name == "haproxy" || name == "ssh"
      then []
      else elim (as_map raw) [ none ↦ [] | some m ↦ unit_operation name ∷ [] ])
    ++ other_services service

unfoldable pub dns_operation : Operation
dns_operation = record {
  backend = "bind9";
  scope = "service dns forwarding";
  actions = "write /etc/bind/named.conf.options" ∷ "systemctl restart bind9" ∷ [];
}

unfoldable pub haproxy_operation : Operation
haproxy_operation = record {
  backend = "haproxy";
  scope = "service haproxy";
  actions = "write /etc/haproxy/haproxy.cfg" ∷ "systemctl restart haproxy" ∷ [];
}

unfoldable pub ssh_operation : Operation
ssh_operation = record {
  backend = "openssh-server";
  scope = "service ssh";
  actions = "write /etc/ssh/sshd_config.d/90-clawgress.conf" ∷ "systemctl restart ssh" ∷ [];
}

unfoldable pub build_service_ops : Fields → List Operation
unfolding map_at entries unless_empty other_services dns_operation haproxy_operation ssh_operation
    flatten
build_service_ops changes = flatten (
    unless_empty (map_at changes ("service" ∷ "dns" ∷ "forwarding" ∷ [])) dns_operation
    ∷ unless_empty (map_at changes ("service" ∷ "haproxy" ∷ [])) haproxy_operation
    ∷ unless_empty (map_at changes ("service" ∷ "ssh" ∷ [])) ssh_operation
    ∷ other_services (entries (map_at changes ("service" ∷ [])))
    ∷ [])

unfoldable pub firewall_operation : Operation
firewall_operation = record {
  backend = "nftables";
  scope = "firewall";
  actions =
      "write /etc/nftables.d/40-clawgress-firewall.nft"
      ∷ "nft -c -f /etc/nftables.d/40-clawgress-firewall.nft"
      ∷ "nft -f /etc/nftables.d/40-clawgress-firewall.nft" ∷ [];
}

unfoldable pub nat_operation : Operation
nat_operation = record {
  backend = "nftables";
  scope = "nat";
  actions =
      "write /etc/nftables.d/50-clawgress-nat.nft"
      ∷ "nft -c -f /etc/nftables.d/50-clawgress-nat.nft"
      ∷ "nft -f /etc/nftables.d/50-clawgress-nat.nft" ∷ [];
}

unfoldable pub policy_operation : Operation
policy_operation = record {
  backend = "clawgress-policyd";
  scope = "policy";
  actions =
      "write /etc/clawgress/policy/policy.json" ∷ "systemctl reload-or-restart clawgress-policyd"
      ∷ [];
}

unfoldable pub build_firewall_nat_ops : Fields → List Operation
unfolding map_at unless_empty firewall_operation nat_operation flatten
build_firewall_nat_ops changes = flatten (
    unless_empty (map_at changes ("firewall" ∷ [])) firewall_operation
    ∷ unless_empty (map_at changes ("nat" ∷ [])) nat_operation
    ∷ [])

unfoldable pub build_policy_ops : Fields → List Operation
unfolding map_at unless_empty policy_operation
build_policy_ops changes = unless_empty (map_at changes ("policy" ∷ [])) policy_operation

unfoldable pub family_operation : String → Operation
family_operation root = record {
  backend = "control-daemon";
  scope = root;
  actions =
      print ("write /etc/clawgress/rendered/" ∷ root ∷ ".json" ∷ [])
      ∷ "systemctl reload-or-restart clawgress-configd"
      ∷ [];
}

unfoldable pub family_ops : Fields → List String → List Operation
unfolding map_at unless_empty family_operation
family_ops changes [] = []
family_ops changes (root ∷ roots) =
    unless_empty (map_at changes (root ∷ [])) (family_operation root) ++ family_ops changes roots

unfoldable pub build_family_fallback_ops : Fields → List Operation
unfolding family_ops
build_family_fallback_ops changes =
    family_ops changes ("system" ∷ "interfaces" ∷ "service" ∷ "firewall" ∷ "nat" ∷ "policy" ∷ [])
