-- ===== src/Audit/Tests.antt =====
-- The theorems on the audit log, at a concrete log.
use crispy_garbanzo.Base.{ℕ, none, some, List, [], ◌∷◌, ◌++◌, ◌≡◌, if◌then◌else◌, eqb, length, min}
use crispy_garbanzo.Audit.Event.{Event}
use crispy_garbanzo.Audit.Query.{
  Line, blank, event, Filter, Times, Since, query, Selects, query_lem,
}

abbrev denied : Event
denied = record {
  timestamp = "2024-01-02T00:00:00Z";
  request_id = "r1";
  agent_id = "a1";
  team_id = "";
  project_id = "";
  environment = "";
  destination = "example.com";
  method = "GET";
  decision = "deny";
  policy_id = "default-deny";
  latency_ms = 3;
  bytes_out = 0;
}

abbrev denials : Filter
denials = record { agent_id = ""; decision = "deny"; since = ""; limit = 1 }

abbrev no_times : Times
no_times = record { parse_since = λ s. none; parse_stamp = λ s. none }

abbrev three_lines : List Line
three_lines =
    event denied ∷ blank ∷ event (record denied { decision = "allow" }) ∷ event denied ∷ []

query_lem_example :
    (since : ℕ) × Since no_times denials since
    × (all_matching : List Event) × Selects no_times denials since three_lines all_matching
    × (front : List Event) × (all_matching ≡ front ++ query no_times (some three_lines) denials)
    × (length (query no_times (some three_lines) denials) ≡ (
        if eqb denials.limit 0
        then length all_matching
        else min denials.limit (length all_matching)))
query_lem_example = query_lem no_times three_lines denials
