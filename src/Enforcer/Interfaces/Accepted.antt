-- ===== src/Enforcer/Interfaces/Accepted.antt =====
-- Which actions the executor of ops_exec.go accepts, and that it accepts those of the interfaces.
use crispy_garbanzo.Base.{
  String, if◌then◌else◌, true, false, Option, none, some, List, [], ◌∷◌, ◌++◌, ◌≡◌, inl, inr, refl,
  ◌==◌, Bool-cases, All, All-append, All-flatten, print, trim_space,
}
use crispy_garbanzo.Base.Value.{Value, null, flag, number, array, object, Fields}
use crispy_garbanzo.Enforcer.Tree.{as_map, value_of, has_dhcp_address, collect_addresses, to_string}
use crispy_garbanzo.Enforcer.Interfaces.{
  Operation, mtu_actions, disable_actions, description_actions, role_actions,
  interface_state_actions, dhcp_operation, address_actions, networkd_operation, interface_operation,
  interface_operations,
}
use crispy_garbanzo.Enforcer.Execution.{Request, nothing, call, refused, request_of}

-- what becomes of an action: it asks for a call, it is passed over, or it is refused
pub data Fate : Type 0 where
  asks passed_over refuses : Fate

abbrev pub fate : Request → Fate
fate (call c) = asks
fate nothing = passed_over
fate (refused e) = refuses

-- the actions are accepted, or refused for the one backend that the executor does not know
abbrev pub IsExecutable : Operation → Type 0
IsExecutable op =
    All (λ a. fate (request_of a) ≡ (if op.backend == "hostnamectl" then refuses else asks))
      op.actions

abbrev AreCalls : List String → Type 0
AreCalls = All (λ a. fate (request_of a) ≡ asks)

description_actions-AreCalls : (i desc : String) → AreCalls (description_actions i desc)
unfolding description_actions request_of print
description_actions-AreCalls i desc = elim (Bool-cases (desc == "")) [
  | inl none' ↦ rw none' tt
  | inr given ↦ rw given (refl, tt)
]

role_actions-AreCalls : (i role : String) → AreCalls (role_actions i role)
unfolding role_actions request_of print
role_actions-AreCalls i role = elim (Bool-cases (role == "")) [
  | inl none' ↦ rw none' tt
  | inr given ↦ rw given (refl, tt)
]

mtu_actions-AreCalls : (i : String) (v : Value) → AreCalls (mtu_actions i v)
unfolding mtu_actions request_of print
mtu_actions-AreCalls i (number n) = (refl, tt)
mtu_actions-AreCalls i (Value.string s) = elim (Bool-cases (trim_space s == "")) [
  | inl blank ↦ rw blank tt
  | inr given ↦ rw given (refl, tt)
]
mtu_actions-AreCalls i null = tt
mtu_actions-AreCalls i (flag b) = tt
mtu_actions-AreCalls i (array xs) = tt
mtu_actions-AreCalls i (object fs) = tt

disable_actions-AreCalls : (i : String) (v : Value) → AreCalls (disable_actions i v)
unfolding disable_actions request_of print
disable_actions-AreCalls i (flag true) = (refl, tt)
disable_actions-AreCalls i (flag false) = tt
disable_actions-AreCalls i null = tt
disable_actions-AreCalls i (Value.string s) = tt
disable_actions-AreCalls i (number n) = tt
disable_actions-AreCalls i (array xs) = tt
disable_actions-AreCalls i (object fs) = tt

calls_append : (xs ys : List String) → AreCalls xs → AreCalls ys → AreCalls (xs ++ ys)
calls_append = All-append (λ a. fate (request_of a) ≡ asks)

state_actions-AreCalls : (i : String) (m : Fields) → AreCalls (interface_state_actions i m)
unfolding interface_state_actions
state_actions-AreCalls i m =
    All-flatten (λ a. fate (request_of a) ≡ asks)
      (description_actions i (to_string (value_of m "description"))
        ∷ mtu_actions i (value_of m "mtu")
        ∷ role_actions i (to_string (value_of m "role"))
        ∷ disable_actions i (value_of m "disable")
        ∷ [])
      (
        description_actions-AreCalls i (to_string (value_of m "description")),
        (
          mtu_actions-AreCalls i (value_of m "mtu"),
          (
            role_actions-AreCalls i (to_string (value_of m "role")),
            (disable_actions-AreCalls i (value_of m "disable"), tt),
          ),
        ),
      )

address_actions-AreCalls : (i : String) (addrs : List String) → AreCalls (address_actions i addrs)
unfolding address_actions request_of print
address_actions-AreCalls i [] = tt
address_actions-AreCalls i (a ∷ addrs) = (refl, (refl, tt))

networkd_operation-IsExecutable :
    (i : String) (actions : List String)
    → AreCalls actions
    → All IsExecutable (networkd_operation i actions)
unfolding networkd_operation
networkd_operation-IsExecutable i [] c = tt
networkd_operation-IsExecutable i (a ∷ actions) c = (c, tt)

dhcp_operation-IsExecutable : (i : String) (m : Fields) → IsExecutable (dhcp_operation i m)
unfolding dhcp_operation request_of print
dhcp_operation-IsExecutable i m = (refl, (refl, (refl, (refl, state_actions-AreCalls i m))))

interface_operation-IsExecutable :
    (i : String) (m : Fields) → All IsExecutable (interface_operation i m)
unfolding interface_operation
interface_operation-IsExecutable i m =
    let addrs = collect_addresses (value_of m "address") in
    elim (Bool-cases (has_dhcp_address (value_of m "address"))) [
      | inl dhcp ↦ rw dhcp (dhcp_operation-IsExecutable i m, tt)
      | inr fixed ↦ rw fixed (
          networkd_operation-IsExecutable i (address_actions i addrs ++ interface_state_actions i m)
            (calls_append (address_actions i addrs) (interface_state_actions i m)
              (address_actions-AreCalls i addrs) (state_actions-AreCalls i m)))
    ]

pub ops_append :
    (xs ys : List Operation)
    → All IsExecutable xs
    → All IsExecutable ys
    → All IsExecutable (xs ++ ys)
ops_append = All-append IsExecutable

pub optional-IsExecutable :
    (f : Fields → List Operation)
    → ((m : Fields) → All IsExecutable (f m))
    → (m : Option Fields) → All IsExecutable (elim m [ none ↦ [] | some m ↦ f m ])
optional-IsExecutable f h none = tt
optional-IsExecutable f h (some m) = h m

pub interfaces-IsExecutable :
    (eth : Fields) (names : List String) → All IsExecutable (interface_operations eth names)
unfolding interface_operations
interfaces-IsExecutable eth [] = tt
interfaces-IsExecutable eth (i ∷ names) =
    ops_append (elim (as_map (value_of eth i)) [ none ↦ [] | some m ↦ interface_operation i m ])
      (interface_operations eth names)
      (optional-IsExecutable (interface_operation i) (interface_operation-IsExecutable i)
        (as_map (value_of eth i)))
      (interfaces-IsExecutable eth names)
