-- ===== src/Ctl/Commands/Tests.antt =====
-- The commands for the audit and the installation, at a few flags.
use crispy_garbanzo.Base.{true, false, [], ◌∷◌, ◌≡◌, refl, pos}
use crispy_garbanzo.Base.Value
use crispy_garbanzo.Base.Value.{no_fields, field}
use crispy_garbanzo.Ctl.Commands.{AuditFlags, audit_url, event_table, InstallFlags, run_install}

abbrev flags : AuditFlags
flags = record {
  url = "http://x";
  agent = "a1";
  decision = "";
  since = "now";
  limit = pos 50;
  json = false;
}

asked : audit_url flags ≡ "http://x/v1/audit?limit=50&agent_id=a1&since=now"
unfolding audit_url
asked = refl

none_found : event_table [] ≡ "no audit events" ∷ []
unfolding event_table
none_found = refl

one_event :
    event_table (field "policy_id" (Value.string "p1") no_fields ∷ [])
    ≡ "TIMESTAMP                AGENT              METHOD   DECISION DESTINATION                  POLICY"
      ∷ "                                                                                          p1"
      ∷ "" ∷ "1 events" ∷ []
unfolding event_table
one_event = refl

abbrev install : InstallFlags
install = record { target_disk = "/dev/sda"; hostname = "gw"; reboot = true; yes = true }

programs :
    (run_install true "now" install).0
    ≡ (
      "/usr/local/sbin/clawgress-install.sh",
      "--target-disk" ∷ "/dev/sda" ∷ "--hostname" ∷ "gw" ∷ "--apply" ∷ [],
    )
      ∷ ("reboot", [])
      ∷ []
unfolding run_install
programs = refl
