-- ===== src/Enforcer/Transparent.antt =====
-- internal/enforcer/transparent.go: the rules that send the traffic of a subnet to the gateway.
use crispy_garbanzo.Base.{
  String, List, [], ◌∷◌, ◌==◌, if◌then◌else◌, print, flatten, ℤ, pos, negsuc,
}
use crispy_garbanzo.Base.Digits.{itoa_ℤ}

pub record TransparentConfig : Type 0 where
  pub proxy_port : ℤ
  pub inbound_if : String
  pub subnet_cidr : String
  pub table_name : String

unfoldable pub port_or_default : ℤ → ℤ
port_or_default (pos Prim.Native.Nat.zero) = pos 3128
port_or_default (pos (Prim.Native.Nat.suc n)) = pos (Prim.Native.Nat.suc n)
port_or_default (negsuc n) = negsuc n

unfoldable pub skip_interface : String → List String
skip_interface inbound =
    if inbound == "" then [] else "    iifname != \"" ∷ inbound ∷ "\" accept\n" ∷ []

unfoldable pub skip_subnet : String → List String
skip_subnet subnet = if subnet == "" then [] else "    ip saddr != " ∷ subnet ∷ " accept\n" ∷ []

unfoldable pub transparent_pieces : TransparentConfig → List String
unfolding flatten skip_interface skip_subnet port_or_default itoa_ℤ
transparent_pieces cfg = flatten (
    ("# Transparent gateway mode — auto-generated, do not edit\n"
      ∷ "table ip "
      ∷ (if cfg.table_name == "" then "clawgress_tproxy" else cfg.table_name)
      ∷ " {\n"
      ∷ "  chain prerouting {\n"
      ∷ "    type nat hook prerouting priority dstnat; policy accept;\n"
      ∷ [])
    ∷ skip_interface cfg.inbound_if
    ∷ skip_subnet cfg.subnet_cidr
    ∷ ("    tcp dport { 80, 443 } redirect to :"
        ∷ itoa_ℤ (port_or_default cfg.proxy_port)
        ∷ "\n"
        ∷ "  }\n"
        ∷ "  chain forward {\n"
        ∷ "    type filter hook forward priority filter; policy accept;\n"
        ∷ "    ct state established,related accept\n"
        ∷ "    ct state invalid drop\n"
        ∷ "  }\n"
        ∷ "  chain postrouting {\n"
        ∷ "    type nat hook postrouting priority srcnat; policy accept;\n"
        ∷ "    masquerade\n"
        ∷ "  }\n"
        ∷ "}\n"
        ∷ [])
    ∷ [])

unfoldable pub render_transparent_nft : TransparentConfig → String
unfolding transparent_pieces print
render_transparent_nft cfg = print (transparent_pieces cfg)
