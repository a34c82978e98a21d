-- ===== src/Identity/Tests.antt =====
-- The theorems on identities, at concrete agents, tokens and a concrete codec.
use crispy_garbanzo.Base.{
  String, true, none, some, List, [], ◌∷◌, ◌≡◌, ◌≢◌, ◌↔◌, refl, if◌then◌else◌, ◌==◌, eq_iff, arith,
  Disk, Faults, read_back, parsed, pos, lookup, insert,
}
use crispy_garbanzo.Identity.Registry.{
  Agent, Registry, empty, add, load, lookup_by_key, lookup_by_id, remove, save,
}
use crispy_garbanzo.Identity.Registry.Lookup.{
  IsConsistent, empty-IsConsistent, add-IsConsistent, registry-IsConsistent, old_key_survives,
}
use crispy_garbanzo.Identity.Registry.Persistence.{FindsRegistered, load-save_agents}
use crispy_garbanzo.Identity.Jwt.{Claims, Codec, ok, verify_jwt}
use crispy_garbanzo.Identity.Jwt.Verification.{IsVerified, verify_jwt_iff}

abbrev agent_one : Agent
agent_one = record {
  agent_id = "a1";
  team_id = "t";
  project_id = "p";
  environment = "prod";
  api_key = "k1";
  status = "active";
}

abbrev agent_rotated : Agent
agent_rotated = record agent_one { api_key = "k2" }

abbrev one_agent : Registry
one_agent = add agent_one empty

one_agent-IsConsistent : IsConsistent one_agent
one_agent-IsConsistent = add-IsConsistent agent_one empty empty-IsConsistent

registry-IsConsistent_example :
    IsConsistent (load (parsed (agent_rotated ∷ [])) one_agent).0
    × IsConsistent (add agent_rotated one_agent)
    × IsConsistent (remove "a1" one_agent).0
registry-IsConsistent_example =
    registry-IsConsistent (parsed (agent_rotated ∷ [])) agent_rotated "a1" one_agent
      one_agent-IsConsistent

found_by_key : lookup_by_key "k1" one_agent ≡ some agent_one
unfolding lookup_by_key add lookup insert
found_by_key = refl

found_by_id : lookup_by_id "a1" one_agent ≡ some agent_one
unfolding lookup_by_id add lookup insert
found_by_id = refl

keys_differ : ◌≢◌ {A = String} "k1" "k2"
keys_differ = ground (arith, eq_iff "k1" "k2")

old_key_survives_example :
    (lookup_by_key "k1" (add agent_rotated (add agent_one empty)) ≡ some agent_one)
    × (lookup_by_key "k1" (remove "a1" (add agent_rotated (add agent_one empty))).0
        ≡ some agent_one)
old_key_survives_example = old_key_survives agent_one agent_rotated empty refl keys_differ refl

abbrev writes : Faults (List Agent)
writes = record { write_ok = true; left_behind = none; rename_ok = true }

abbrev no_file : Disk (List Agent)
no_file = record { file = none; tmp = none }

saved_without_error : (save writes one_agent no_file).1 ≡ none
unfolding save
saved_without_error = refl

load-save_agents_example :
    (lookup_by_id "a1" (load (read_back (save writes one_agent no_file).0) empty).0
      ≡ lookup_by_id "a1" one_agent)
    × FindsRegistered "k1"
        (lookup_by_key "k1" (load (read_back (save writes one_agent no_file).0) empty).0)
        one_agent
load-save_agents_example =
    load-save_agents writes no_file one_agent empty "a1" "k1" one_agent-IsConsistent
      saved_without_error

abbrev claims_one : Claims
claims_one = record {
  agent_id = "a1";
  team_id = "t";
  project_id = "p";
  environment = "prod";
  exp = pos 2000;
  iat = pos 1000;
}

-- a codec that leaves texts as they are and reads the claims of one text
abbrev plain : Codec
plain = record {
  hmac_sha256 = λ text key. key;
  base64_encode = λ s. s;
  base64_decode = λ s. some s;
  parse_alg = λ s. if s == "{\"alg\":\"HS256\",\"typ\":\"JWT\"}" then some "HS256" else none;
  parse_claims = λ s. if s == "claims" then some claims_one else none;
  marshal_claims = λ claims. "claims";
}

verify_jwt_iff_example :
    (verify_jwt plain "h.claims.secret" "secret" 1500 ≡ ok claims_one)
    ↔ IsVerified plain "h.claims.secret" "secret" 1500 claims_one
verify_jwt_iff_example = verify_jwt_iff plain "h.claims.secret" "secret" 1500 claims_one
