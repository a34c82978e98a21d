-- ===== src/Enforcer/Plan/Builders.antt =====
-- Which actions of a plan the executor of ops_exec.go accepts.
use crispy_garbanzo.Base.{
  String, ◌||◌, none, some, List, [], ◌∷◌, inl, inr, refl, ◌==◌, if◌then◌else◌, Bool-cases, All,
  map, All-flatten, flatten, print,
}
use crispy_garbanzo.Base.Sort.{sort, text_before, All-sort}
use crispy_garbanzo.Base.Value.{Value, object, Fields}
use crispy_garbanzo.Enforcer.Tree.{
  entries, as_map, map_at, is_empty, collect_addresses, get_string, get_at,
}
use crispy_garbanzo.Enforcer.Interfaces.{Operation, build_interface_ops}
use crispy_garbanzo.Enforcer.Families.{
  host_name_ops, name_server_ops, ntp_server_ops, build_system_ops, unless_empty, unit_operation,
  other_services, build_service_ops, build_firewall_nat_ops, build_policy_ops, family_operation,
  family_ops, build_family_fallback_ops, dns_operation, haproxy_operation, ssh_operation,
  firewall_operation, nat_operation, policy_operation,
}
use crispy_garbanzo.Enforcer.Plan.{first_ops, dedupe_ops, build_ops_plan, key_of, op_before}
use crispy_garbanzo.Enforcer.Execution.{request_of}
use crispy_garbanzo.Enforcer.Interfaces.Accepted.{
  IsExecutable, ops_append, optional-IsExecutable, interfaces-IsExecutable,
}
use crispy_garbanzo.Enforcer.Plan.Order.{first-step}

host_name-IsExecutable : (h : String) → All IsExecutable (host_name_ops h)
unfolding host_name_ops request_of print
host_name-IsExecutable h = elim (Bool-cases (h == "")) [
  | inl none' ↦ rw none' tt
  | inr given ↦ rw given ((refl, tt), tt)
]

name_servers-IsExecutable : (servers : List String) → All IsExecutable (name_server_ops servers)
unfolding name_server_ops request_of print
name_servers-IsExecutable [] = tt
name_servers-IsExecutable (s ∷ servers) = ((refl, (refl, tt)), tt)

ntp_servers-IsExecutable : (servers : List String) → All IsExecutable (ntp_server_ops servers)
unfolding ntp_server_ops request_of print
ntp_servers-IsExecutable [] = tt
ntp_servers-IsExecutable (s ∷ servers) = ((refl, (refl, tt)), tt)

system-IsExecutable : (changes : Fields) → All IsExecutable (build_system_ops changes)
unfolding build_system_ops
system-IsExecutable changes =
    All-flatten IsExecutable
      (host_name_ops (get_string changes ("system" ∷ "host_name" ∷ []))
        ∷ name_server_ops
            (collect_addresses (get_at (object changes) ("system" ∷ "name_server" ∷ [])))
        ∷ ntp_server_ops
            (collect_addresses (get_at (object changes) ("system" ∷ "ntp" ∷ "server" ∷ [])))
        ∷ [])
      (
        host_name-IsExecutable (get_string changes ("system" ∷ "host_name" ∷ [])),
        (
          name_servers-IsExecutable
              (collect_addresses (get_at (object changes) ("system" ∷ "name_server" ∷ []))),
          (
            ntp_servers-IsExecutable
                (collect_addresses (get_at (object changes) ("system" ∷ "ntp" ∷ "server" ∷ []))),
            tt,
          ),
        ),
      )

unless_empty-IsExecutable :
    (m : Fields) (op : Operation) → IsExecutable op → All IsExecutable (unless_empty m op)
unfolding unless_empty
unless_empty-IsExecutable m op e = elim (Bool-cases (is_empty m)) [
  | inl empty' ↦ rw empty' tt
  | inr filled ↦ rw filled (e, tt)
]

unit_operation-IsExecutable : (name : String) → IsExecutable (unit_operation name)
unfolding unit_operation request_of print
unit_operation-IsExecutable name = (refl, (refl, tt))

abbrev service_ops : String → Value → List Operation
service_ops name raw =
    if name == "dns" || name == "haproxy" || name == "ssh"
    then []
    else elim (as_map raw) [ none ↦ [] | some m ↦ unit_operation name ∷ [] ]

service-IsExecutable : (name : String) (raw : Value) → All IsExecutable (service_ops name raw)
service-IsExecutable name raw =
    elim (Bool-cases (name == "dns" || name == "haproxy" || name == "ssh")) [
      | inl own ↦ rw own tt
      | inr other ↦ rw other (
          optional-IsExecutable (λ m. unit_operation name ∷ [])
            (λ m. (unit_operation-IsExecutable name, tt)) (as_map raw))
    ]

services-IsExecutable :
    (service : List (String × Value)) → All IsExecutable (other_services service)
unfolding other_services
services-IsExecutable [] = tt
services-IsExecutable ((name, raw) ∷ service) =
    ops_append (service_ops name raw) (other_services service) (service-IsExecutable name raw)
      (services-IsExecutable service)

build_service-IsExecutable : (changes : Fields) → All IsExecutable (build_service_ops changes)
unfolding build_service_ops dns_operation haproxy_operation ssh_operation request_of print
build_service-IsExecutable changes =
    All-flatten IsExecutable
      (unless_empty (map_at changes ("service" ∷ "dns" ∷ "forwarding" ∷ [])) dns_operation
        ∷ unless_empty (map_at changes ("service" ∷ "haproxy" ∷ [])) haproxy_operation
        ∷ unless_empty (map_at changes ("service" ∷ "ssh" ∷ [])) ssh_operation
        ∷ other_services (entries (map_at changes ("service" ∷ [])))
        ∷ [])
      (
        unless_empty-IsExecutable (map_at changes ("service" ∷ "dns" ∷ "forwarding" ∷ []))
            dns_operation (refl, (refl, tt)),
        (
          unless_empty-IsExecutable (map_at changes ("service" ∷ "haproxy" ∷ [])) haproxy_operation
              (refl, (refl, tt)),
          (
            unless_empty-IsExecutable (map_at changes ("service" ∷ "ssh" ∷ [])) ssh_operation
                (refl, (refl, tt)),
            (services-IsExecutable (entries (map_at changes ("service" ∷ []))), tt),
          ),
        ),
      )

firewall_nat-IsExecutable : (changes : Fields) → All IsExecutable (build_firewall_nat_ops changes)
unfolding build_firewall_nat_ops firewall_operation nat_operation request_of
firewall_nat-IsExecutable changes =
    All-flatten IsExecutable
      (unless_empty (map_at changes ("firewall" ∷ [])) firewall_operation
        ∷ unless_empty (map_at changes ("nat" ∷ [])) nat_operation
        ∷ [])
      (
        unless_empty-IsExecutable (map_at changes ("firewall" ∷ [])) firewall_operation
            (refl, (refl, (refl, tt))),
        (
          unless_empty-IsExecutable (map_at changes ("nat" ∷ [])) nat_operation
              (refl, (refl, (refl, tt))),
          tt,
        ),
      )

policy-IsExecutable : (changes : Fields) → All IsExecutable (build_policy_ops changes)
unfolding build_policy_ops policy_operation request_of
policy-IsExecutable changes =
    unless_empty-IsExecutable (map_at changes ("policy" ∷ [])) policy_operation (refl, (refl, tt))

family-IsExecutable :
    (changes : Fields) (roots : List String) → All IsExecutable (family_ops changes roots)
unfolding family_ops family_operation request_of print
family-IsExecutable changes [] = tt
family-IsExecutable changes (root ∷ roots) =
    ops_append (unless_empty (map_at changes (root ∷ [])) (family_operation root))
      (family_ops changes roots)
      (unless_empty-IsExecutable (map_at changes (root ∷ [])) (family_operation root)
        (refl, (refl, tt)))
      (family-IsExecutable changes roots)

first_ops-All :
    (P : Operation → Type 0) (seen : List String) (ops : List Operation)
    → All P ops
    → All P (first_ops seen ops)
unfolding first_ops
first_ops-All P seen [] a = tt
first_ops-All P seen (op ∷ ops) (p, a) =
    first-step (All P) seen op ops (λ _. first_ops-All P seen ops a)
      (λ _ _. (p, first_ops-All P (key_of op ∷ seen) ops a))

interface_ops-IsExecutable : (changes : Fields) → All IsExecutable (build_interface_ops changes)
unfolding build_interface_ops
interface_ops-IsExecutable changes =
    let eth = map_at changes ("interfaces" ∷ "ethernet" ∷ []) in
    interfaces-IsExecutable eth (sort text_before (map (λ (k, _). k) (entries eth)))

family_ops-IsExecutable : (changes : Fields) → All IsExecutable (build_family_fallback_ops changes)
unfolding build_family_fallback_ops
family_ops-IsExecutable changes =
    family-IsExecutable changes
      ("system" ∷ "interfaces" ∷ "service" ∷ "firewall" ∷ "nat" ∷ "policy" ∷ [])

-- Every action of a plan, whatever the changes are, asks the executor for a call, except those of the
-- backend "hostnamectl", all of which it refuses with an error.
pub build_ops_plan-IsExecutable : (changes : Fields) → All IsExecutable (build_ops_plan changes)
unfolding build_ops_plan dedupe_ops
build_ops_plan-IsExecutable changes =
    let built =
      build_interface_ops changes
      ∷ build_system_ops changes
      ∷ build_service_ops changes
      ∷ build_firewall_nat_ops changes
      ∷ build_policy_ops changes
      ∷ build_family_fallback_ops changes
      ∷ [] in
    All-sort op_before IsExecutable (first_ops [] (flatten built)) (
      first_ops-All IsExecutable [] (flatten built) (
        All-flatten IsExecutable built (
          interface_ops-IsExecutable changes,
          (
            system-IsExecutable changes,
            (
              build_service-IsExecutable changes,
              (
                firewall_nat-IsExecutable changes,
                (policy-IsExecutable changes, (family_ops-IsExecutable changes, tt)),
              ),
            ),
          ),
        )))
