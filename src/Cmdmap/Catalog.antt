-- ===== src/Cmdmap/Catalog.antt =====
-- internal/cmdmap/catalog.go: the catalogue of commands, with an example of each.
pub mod Examples
use crispy_garbanzo.Base.{
  ℕ, String, Bool, true, false, ◌&&◌, ◌||◌, List, [], ◌∷◌, ◌++◌, ◌==◌, ◌<>◌, if◌then◌else◌, length,
  map, eqb, has_prefix, contains_char, split, join,
}
use crispy_garbanzo.Cmdmap.Values.{is_placeholder, trim_angles}
use crispy_garbanzo.Cmdmap.Paths.{TokenPath, set_token_paths, show_token_paths}

pub record Command : Type 0 where
  pub kind : String
  pub pattern' : String
  pub description : String
  pub backend : String
  pub example : String

unfoldable pub tokens_to_pattern : TokenPath → String
unfolding join
tokens_to_pattern tp =
    join " " (tp.tokens ++ (if tp.value_token == "" then [] else tp.value_token ∷ []))

-- `parts[0]`
unfoldable pub first_part : List String → String
first_part [] = ""
first_part (p ∷ parts) = p

unfoldable pub sample_token : String → String
unfolding is_placeholder trim_angles contains_char split first_part
sample_token t =
    if is_placeholder t
    then (if contains_char b'|' (trim_angles t)
        then first_part (split b'|' (trim_angles t))
        else if trim_angles t == "ifname"
        then "eth0"
        else if trim_angles t == "id"
        then "100"
        else if trim_angles t == "name"
        then "edge"
        else "value")
    else t

-- the `switch` of sampleValue
unfoldable pub sample_kind : String → String
sample_kind s =
    if s == "port" || s == "id"
    then "100"
    else if s == "cidr"
    then "10.0.0.0/24"
    else if s == "ip" || s == "ipv4"
    then "10.0.0.1"
    else if s == "ipv6"
    then "2001:db8::1"
    else if s == "fqdn"
    then "api.example.com"
    else if s == "ifname"
    then "eth0"
    else "value"

unfoldable pub sample_value : String → String
unfolding is_placeholder trim_angles contains_char split first_part sample_kind
sample_value v =
    if is_placeholder v
    then (if contains_char b'|' (trim_angles v)
        then first_part (split b'|' (trim_angles v))
        else sample_kind (trim_angles v))
    else v

unfoldable pub example_tokens : TokenPath → List String
unfolding sample_token sample_value
example_tokens tp =
    map sample_token tp.tokens
    ++ (if tp.value_token == "" then [] else sample_value tp.value_token ∷ [])

unfoldable pub example_for : TokenPath → String
unfolding example_tokens join
example_for tp =
    if tp.kind == "show"
    then "show " <> join " " (example_tokens tp)
    else "set " <> join " " (example_tokens tp)

unfoldable pub backend_of_path : String → String
unfolding has_prefix
backend_of_path joined =
    if has_prefix joined "firewall.nftables" || has_prefix joined "nat."
    then "nftables"
    else if has_prefix joined "service.dns"
    then "bind9"
    else if has_prefix joined "service.haproxy"
    then "haproxy"
    else if has_prefix joined "system.ntp"
    then "chrony"
    else if has_prefix joined "interfaces."
    then "systemd-networkd"
    else "control-plane"

unfoldable pub backend_for : TokenPath → String
unfolding backend_of_path join
backend_for tp =
    if eqb (length tp.tokens) 0
    then "config"
    else if eqb (length tp.tokens) 4 && join "." tp.tokens == "interfaces.ethernet.<ifname>.address"
    then (if tp.value_token == "dhcp" then "dhclient+systemd" else "systemd-networkd")
    else backend_of_path (join "." tp.tokens)

unfoldable pub command_of : TokenPath → Command
unfolding tokens_to_pattern backend_for example_for
command_of tp = record {
  kind = tp.kind;
  pattern' = tokens_to_pattern tp;
  description = tp.description;
  backend = backend_for tp;
  example = example_for tp;
}

-- the lists under "set" and "show"
pub record Commands : Type 0 where
  pub set : List Command
  pub show : List Command

unfoldable pub commands : List TokenPath → Commands
unfolding command_of set_token_paths show_token_paths
commands table = record {
  set = map command_of (set_token_paths table);
  show = map command_of (show_token_paths table);
}
