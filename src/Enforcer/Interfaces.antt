-- ===== src/Enforcer/Interfaces.antt =====
-- internal/enforcer/opsplan.go: an operation of a plan, and the operations of the Ethernet interfaces. The entries
-- of a map are met in the order in which they stand, for Go's unspecified one.
pub mod Accepted
use crispy_garbanzo.Base.{
  String, Bool, true, false, ◌&&◌, ◌||◌, not, Option, none, some, List, [], ◌∷◌, ◌++◌, ◌==◌,
  if◌then◌else◌, any, map, trim_space, replace_char, join, print, flatten,
}
use crispy_garbanzo.Base.Sort.{sort, text_before}
use crispy_garbanzo.Base.Value
use crispy_garbanzo.Base.Value.{Value, null, flag, number, array, object, Fields}
use crispy_garbanzo.Enforcer.Tree.{
  get_at, to_string, get_string, as_map, map_at, is_empty, entries, value_of, has_dhcp_address,
  collect_addresses, or_nil,
}

pub record Operation : Type 0 where
  pub backend : String
  pub scope : String
  pub actions : List String

-- `%d` of a number, and a text that is not blank
unfoldable pub mtu_actions : String → Value → List String
mtu_actions ifname (number n) = print ("ip link set dev " ∷ ifname ∷ " mtu " ∷ n ∷ []) ∷ []
mtu_actions ifname (Value.string s) =
    if trim_space s == "" then [] else print ("ip link set dev " ∷ ifname ∷ " mtu " ∷ s ∷ []) ∷ []
mtu_actions ifname null = []
mtu_actions ifname (flag b) = []
mtu_actions ifname (array xs) = []
mtu_actions ifname (object fs) = []

unfoldable pub disable_actions : String → Value → List String
disable_actions ifname (flag true) = print ("ip link set dev " ∷ ifname ∷ " down" ∷ []) ∷ []
disable_actions ifname (flag false) = []
disable_actions ifname null = []
disable_actions ifname (Value.string s) = []
disable_actions ifname (number n) = []
disable_actions ifname (array xs) = []
disable_actions ifname (object fs) = []

unfoldable pub description_actions : String → String → List String
description_actions ifname desc =
    if desc == ""
    then []
    else print ("write /run/systemd/network/10-" ∷ ifname ∷ ".link (Description=" ∷ desc ∷ ")" ∷ [])
      ∷ []

unfoldable pub role_actions : String → String → List String
role_actions ifname role =
    if role == ""
    then []
    else print ("write /etc/clawgress/interface-role.d/" ∷ ifname ∷ ".role (" ∷ role ∷ ")" ∷ [])
      ∷ []

unfoldable pub interface_state_actions : String → Fields → List String
unfolding value_of flatten to_string description_actions mtu_actions role_actions disable_actions
interface_state_actions ifname m = flatten (
    description_actions ifname (to_string (value_of m "description"))
    ∷ mtu_actions ifname (value_of m "mtu")
    ∷ role_actions ifname (to_string (value_of m "role"))
    ∷ disable_actions ifname (value_of m "disable")
    ∷ [])

unfoldable pub dhcp_operation : String → Fields → Operation
unfolding interface_state_actions
dhcp_operation ifname m = record {
  backend = "dhclient+systemd";
  scope = print ("interfaces ethernet " ∷ ifname ∷ " address dhcp" ∷ []);
  actions =
      print ("write /run/dhclient/dhclient_" ∷ ifname ∷ ".conf" ∷ [])
      ∷ print ("write /run/systemd/system/dhclient@" ∷ ifname ∷ ".service.d/10-override.conf" ∷ [])
      ∷ "systemctl daemon-reload"
      ∷ print ("systemctl restart dhclient@" ∷ ifname ∷ ".service" ∷ [])
      ∷ interface_state_actions ifname m;
}

unfoldable pub address_actions : String → List String → List String
address_actions ifname [] = []
address_actions ifname (a ∷ addrs) =
    print (
      "write /etc/systemd/network/10-"
      ∷ ifname
      ∷ ".network (Address="
      ∷ join "," (a ∷ addrs)
      ∷ ")"
      ∷ [])
    ∷ "systemctl restart systemd-networkd"
    ∷ []

-- an operation, unless it has nothing to do
unfoldable pub networkd_operation : String → List String → List Operation
networkd_operation ifname [] = []
networkd_operation ifname (a ∷ actions) =
    record {
      backend = "systemd-networkd";
      scope = print ("interfaces ethernet " ∷ ifname ∷ []);
      actions = a ∷ actions;
    }
    ∷ []

unfoldable pub interface_operation : String → Fields → List Operation
unfolding value_of has_dhcp_address dhcp_operation collect_addresses address_actions
    interface_state_actions networkd_operation
interface_operation ifname m =
    let addr = value_of m "address" in
    if has_dhcp_address addr
    then dhcp_operation ifname m ∷ []
    else networkd_operation ifname
        (address_actions ifname (collect_addresses addr) ++ interface_state_actions ifname m)

unfoldable pub interface_operations : Fields → List String → List Operation
unfolding value_of as_map interface_operation
interface_operations eth [] = []
interface_operations eth (ifname ∷ ifnames) =
    elim (as_map (value_of eth ifname)) [ none ↦ [] | some m ↦ interface_operation ifname m ]
    ++ interface_operations eth ifnames

unfoldable pub build_interface_ops : Fields → List Operation
unfolding map_at entries sort text_before interface_operations
build_interface_ops changes =
    let eth = map_at changes ("interfaces" ∷ "ethernet" ∷ []) in
    interface_operations eth (sort text_before (map (λ (k, _). k) (entries eth)))
