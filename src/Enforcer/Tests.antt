-- ===== src/Enforcer/Tests.antt =====
-- The theorems on the enforcer, at concrete changes and a concrete system.
use crispy_garbanzo.Base.{false, none, List, [], ◌∷◌, All}
use crispy_garbanzo.Base.Value
use crispy_garbanzo.Base.Value.{flag, number, object, Fields, no_fields, field}
use crispy_garbanzo.Enforcer.Interfaces.{Operation}
use crispy_garbanzo.Enforcer.Plan.{build_ops_plan}
use crispy_garbanzo.Enforcer.Interfaces.Accepted.{IsExecutable}
use crispy_garbanzo.Enforcer.Plan.Builders.{build_ops_plan-IsExecutable}
use crispy_garbanzo.Enforcer.Execution.{System, execute_ops_plan}
use crispy_garbanzo.Enforcer.Execution.Guard.{IsPermitted, execute_ops_plan-IsPermitted}

abbrev some_changes : Fields
some_changes = field "system" (object (field "host_name" (Value.string "gw1") no_fields)) (
    field "interfaces"
      (object (
        field "ethernet"
          (object (field "eth0" (object (field "mtu" (number "1400") no_fields)) no_fields))
          no_fields))
      no_fields)

abbrev ssh_twice : List Operation
ssh_twice =
    record {
      backend = "openssh-server";
      scope = "service ssh";
      actions = "systemctl restart ssh" ∷ [];
    }
    ∷ record {
      backend = "bind9";
      scope = "service dns";
      actions = "write /etc/bind/named.conf.options" ∷ [];
    }
    ∷ record { backend = "openssh-server"; scope = "service ssh"; actions = "rm -rf /" ∷ [] }
    ∷ []

abbrev obedient : System
obedient = record { answer = λ calls c. none; mock = false }

build_ops_plan-IsExecutable_example : All IsExecutable (build_ops_plan some_changes)
build_ops_plan-IsExecutable_example = build_ops_plan-IsExecutable some_changes

execute_ops_plan-IsPermitted_example :
    All IsPermitted (execute_ops_plan obedient ssh_twice "apply" []).0
execute_ops_plan-IsPermitted_example = execute_ops_plan-IsPermitted obedient ssh_twice "apply" [] tt
