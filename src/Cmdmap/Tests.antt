-- ===== src/Cmdmap/Tests.antt =====
-- The theorems on the table of commands, at two entries; and an address whose dots make the path longer.
use crispy_garbanzo.Base.{
  String, true, false, List, [], ◌∷◌, ◌≡◌, ◌≢◌, ◌↔◌, inl, inr, refl, ap, ◌∙◌, trim_space, is_blank,
  contains_char, All, sym,
}
use mathlib.Core.Bool.{false≢true}
use crispy_garbanzo.Cmdmap.Values.{is_placeholder}
use crispy_garbanzo.Cmdmap.Values.Accepted.{is_placeholder_iff}
use crispy_garbanzo.Cmdmap.Paths.{
  TokenPath, accepted, rejected, normalize_tokens, match_pattern_tokens, is_multi_path,
  validate_set_tokens, dedup_sorted,
}
use crispy_garbanzo.Cmdmap.Paths.Validation.{Judges, validate_set_tokens_iff}
use crispy_garbanzo.Cmdmap.Catalog.{sample_token, sample_value}
use crispy_garbanzo.Cmdmap.Catalog.Examples.{Sampled}

abbrev address_path : TokenPath
address_path = record {
  kind = "set";
  tokens = "interfaces" ∷ "ethernet" ∷ "<ifname>" ∷ "address" ∷ [];
  value_token = "<cidr>";
  description = "IP address";
  multi = true;
}

abbrev mtu_path : TokenPath
mtu_path = record {
  kind = "set";
  tokens = "interfaces" ∷ "ethernet" ∷ "<ifname>" ∷ "mtu" ∷ [];
  value_token = "<id>";
  description = "MTU";
  multi = false;
}

abbrev table : List TokenPath
table = address_path ∷ mtu_path ∷ []

abbrev address_of_eth0 : List String
address_of_eth0 = "interfaces" ∷ "ethernet" ∷ "eth0" ∷ "address" ∷ []

address_accepted :
    validate_set_tokens table address_of_eth0 "10.0.0.1/24"
    ≡ accepted "interfaces.ethernet.eth0.address" true
unfolding validate_set_tokens
address_accepted = refl

text_rejected : validate_set_tokens table address_of_eth0 "dhcp" ≡ rejected
unfolding validate_set_tokens
text_rejected = refl

-- A VLAN interface is accepted, but its dotted path is not the path of an entry, so that it does not count as
-- one with many values.
vlan_accepted :
    validate_set_tokens table
      ("interfaces" ∷ "ethernet" ∷ "eth0.100" ∷ "address" ∷ [])
      "10.0.0.1/24"
    ≡ accepted "interfaces.ethernet.eth0.100.address" true
unfolding validate_set_tokens
vlan_accepted = refl

vlan_not_multi : is_multi_path table "interfaces.ethernet.eth0.100.address" ≡ false
unfolding is_multi_path
vlan_not_multi = refl

eth0_multi : is_multi_path table "interfaces.ethernet.eth0.address" ≡ true
unfolding is_multi_path
eth0_multi = refl

-- The alternatives of a placeholder in a path are not looked at.
unlisted_alternative : match_pattern_tokens ("<in|out>" ∷ []) ("sideways" ∷ []) ≡ true
unfolding match_pattern_tokens
unlisted_alternative = refl

sorted_once : dedup_sorted (mtu_path ∷ address_path ∷ mtu_path ∷ []) ≡ table
unfolding dedup_sorted
sorted_once = refl

validate_set_tokens_iff_example :
    (validate_set_tokens table address_of_eth0 "10.0.0.1/24"
      ≡ accepted "interfaces.ethernet.eth0.address" true)
    ↔ Judges
        (normalize_tokens address_of_eth0)
        "10.0.0.1/24"
        table
        (accepted "interfaces.ethernet.eth0.address" true)
validate_set_tokens_iff_example =
    validate_set_tokens_iff table address_of_eth0 "10.0.0.1/24"
      (accepted "interfaces.ethernet.eth0.address" true)

sample_cidr : sample_value "<cidr>" ≡ "10.0.0.0/24"
unfolding sample_value
sample_cidr = refl

sample_some : sample_value "<cidr>" ≢ ""
unfolding sample_value is_blank
sample_some e = false≢true (ap is_blank e)

sample_trimmed : trim_space (sample_value "<cidr>") ≡ sample_value "<cidr>"
unfolding sample_value trim_space
sample_trimmed = refl

cidr_some : address_path.value_token ≢ ""
unfolding is_blank
cidr_some e = false≢true (ap is_blank e)

ifname_placeholder : is_placeholder "<ifname>" ≡ true
unfolding is_placeholder
ifname_placeholder = refl

-- of a text that begins with a character
sample_text : (t : String) → is_blank (sample_token t) ≡ false → sample_token t ≢ ""
unfolding is_blank
sample_text t h e = false≢true (sym h ∙ ap is_blank e)

sampled : All Sampled address_path.tokens
unfolding sample_token contains_char is_blank
sampled =
    let first = sample_text "interfaces" refl in
    let second = sample_text "ethernet" refl in
    let third = sample_text "<ifname>" refl in
    let fourth = sample_text "address" refl in
    let hole = (is_placeholder_iff "<ifname>").0 ifname_placeholder in
    ((first, inr refl), ((second, inr refl), ((third, inl hole), ((fourth, inr refl), tt))))
