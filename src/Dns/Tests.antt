-- ===== src/Dns/Tests.antt =====
-- The theorems on zones, at two rules; and the two serials of one call.
use crispy_garbanzo.Base.{
  String, true, none, some, List, [], ◌∷◌, ◌≡◌, ◌↔◌, refl, Any, All, length, pos, Faults, Disk,
  contains_char, contains_text, has_prefix,
}
use crispy_garbanzo.Base.Once.{Distinct}
use crispy_garbanzo.Policy.Rule.{Rule}
use crispy_garbanzo.Dns.Rpz.{zone_names}
use crispy_garbanzo.Dns.Zone.{
  RpzConfig, Clock, header_lines, generate_rpz, counts, RpzResult, written, write_rpz_file,
}
use crispy_garbanzo.Dns.Zone.Counted.{IsHeader, IsEntry, write_rpz_file-Counted}
use crispy_garbanzo.Dns.Rpz.Names.{Denies, zone_names_lem}

abbrev deny_evil : Rule
deny_evil = record {
  policy_id = "deny-evil";
  agent_id = "*";
  domains = "*.evil.com" ∷ "*" ∷ "evil.com" ∷ [];
  methods = [];
  path_prefixes = [];
  conditions = [];
  action = "deny";
}

abbrev two_rules : List Rule
two_rules = deny_evil ∷ record deny_evil { action = "allow" } ∷ []

zone_names_lem_example :
    Distinct (zone_names two_rules)
    × (Any (λ s. s ≡ "evil.com") (zone_names two_rules) ↔ Any (Denies "evil.com") two_rules)
zone_names_lem_example = zone_names_lem two_rules "evil.com"

-- the clock turns to the next second between the zone and its result
abbrev clock : Clock
clock = record {
  at_serial = 100;
  at_comment = 100;
  at_result = 101;
  at_answer = 101;
  format = λ n. "T";
}

abbrev default_zone : RpzConfig
default_zone = record { zone_name = ""; soa_contact = ""; ttl = pos 0; serial = 0 }

abbrev no_faults : Faults String
no_faults = record { write_ok = true; left_behind = none; rename_ok = true }

abbrev no_file : Disk String
no_file = record { file = none; tmp = none }

abbrev result : RpzResult
result = record { zone_path = "z"; denied_count = 2; serial = 101; generated_at = "T" }

plain_headers : All IsHeader (header_lines clock default_zone)
unfolding header_lines counts contains_char
plain_headers = (
  (refl, refl),
  (
    (refl, refl),
    (
      (refl, refl),
      (
        (refl, refl),
        (
          (refl, refl),
          (
            (refl, refl),
            ((refl, refl), ((refl, refl), ((refl, refl), ((refl, refl), ((refl, refl), tt))))),
          ),
        ),
      ),
    ),
  ),
)

plain_names : All IsEntry (zone_names two_rules)
unfolding zone_names contains_char has_prefix
plain_names = ((refl, refl), ((refl, refl), tt))

zone_written :
    (write_rpz_file clock no_faults "z" two_rules default_zone no_file).1 ≡ written result
unfolding write_rpz_file
zone_written = refl

-- The serial in the file is that of the first reading of the clock.
serial_in_zone : contains_text (generate_rpz clock two_rules default_zone) "100 ; serial" ≡ true
unfolding generate_rpz contains_text
serial_in_zone = refl

write_rpz_file-Counted_example :
    ((write_rpz_file clock no_faults "z" two_rules default_zone no_file).0.file
      ≡ some (generate_rpz clock two_rules default_zone))
    × (result.denied_count ≡ length (zone_names two_rules))
write_rpz_file-Counted_example =
    write_rpz_file-Counted clock no_faults "z" two_rules default_zone no_file result plain_headers
      plain_names zone_written
