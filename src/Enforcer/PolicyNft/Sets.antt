-- ===== src/Enforcer/PolicyNft/Sets.antt =====
-- Which addresses the sets have.
use crispy_garbanzo.Base.{
  String, true, false, some, has_prefix, has_suffix, drop_chars, ◌⊎◌, List, ◌≡◌, ◌≢◌, Any,
}
use crispy_garbanzo.Policy.Rule.{Rule}
use crispy_garbanzo.Enforcer.PolicyNft.{Net, no_address, ipv4}

-- the name of a domain: without a "*." in front
abbrev pub NameOf : String → String → Type 0
NameOf domain name =
    ((has_prefix domain "*." ≡ true) × (name ≡ drop_chars 2 domain))
    ⊎ ((has_prefix domain "*." ≡ false) × (name ≡ domain))

-- a name is an IPv4 address, or is none of either kind and has this one among its addresses
abbrev pub HasAddress : Net → String → String → Type 0
HasAddress net name ip =
    (net.parse_ip name ≡ ipv4 ip)
    ⊎ ((net.parse_ip name ≡ no_address)
        × (addrs : List String) × (net.lookup_host name ≡ some addrs)
        × Any (λ a. net.parse_ip a ≡ ipv4 ip) addrs)

-- a domain leads to an address, unless its name ends in ".invalid" or ".local"
abbrev pub ResolvesTo : Net → String → String → Type 0
ResolvesTo net domain ip =
    (name : String) × NameOf domain name
    × (has_suffix name ".invalid" ≡ false)
    × (has_suffix name ".local" ≡ false)
    × HasAddress net name ip

abbrev Suits : Net → String → String → Type 0
Suits net ip name =
    (has_suffix name ".invalid" ≡ false)
    × (has_suffix name ".local" ≡ false)
    × HasAddress net name ip

-- A rule has an action, and an address is one that a domain of it, other than "*", resolves to.
abbrev pub Reaches : Net → String → String → Rule → Type 0
Reaches net action ip r = (r.action ≡ action) × Any (λ d. (d ≢ "*") × ResolvesTo net d ip) r.domains
