-- ===== src/Enforcer/Execution/Guard.antt =====
-- What carrying out a plan may ask of the system, and what it may not.
use crispy_garbanzo.Base.{
  String, true, Option, none, some, List, [], ◌∷◌, ◌≡◌, ◌⊎◌, inl, inr, refl, Bool-cases,
  Option-cases, any-Any, any, All, Any, All-append, has_prefix, is_blank, trim_space,
}
use crispy_garbanzo.Enforcer.Interfaces.{Operation}
use crispy_garbanzo.Enforcer.Execution.{
  Mode, dry_run, apply, invalid, Call, write_file, run_command, System, Request, nothing, call,
  refused, write_path, write_action, trimmed_request, request_of, is_allowed_write_path,
  write_roots, perform, execute_action, Outcome, plan_lines, apply_lines, execute_in,
  execute_ops_plan, normalize_ops_mode, applied_line, failed_line, no_outcome,
}

-- the beginnings that a path may have
abbrev pub roots : List String
roots =
    "/etc/clawgress/" ∷ "/etc/systemd/" ∷ "/run/dhclient/" ∷ "/run/systemd/" ∷ "/etc/bind/"
    ∷ "/etc/haproxy/" ∷ "/etc/ssh/" ∷ "/etc/nftables.d/" ∷ "/etc/chrony/" ∷ []

-- a write to a path that begins with one of the roots, which need not be below it, or one of three programs
abbrev pub IsPermitted : Call → Type 0
IsPermitted (write_file path) = Any (λ root. has_prefix path root ≡ true) roots
IsPermitted (run_command name args) = (name ≡ "systemctl") ⊎ (name ≡ "ip") ⊎ (name ≡ "nft")

abbrev IsGuarded : Request → Type 0
IsGuarded (call c) = IsPermitted c
IsGuarded nothing = Unit
IsGuarded (refused e) = Unit

write_action-IsGuarded : (action : String) → IsGuarded (write_action action)
unfolding write_action is_allowed_write_path write_roots
write_action-IsGuarded action = elim (Bool-cases (is_blank (write_path action))) [
  | inl blank ↦ rw blank tt
  | inr given ↦ elim (Bool-cases (any (has_prefix (write_path action)) write_roots)) [
    | inl inside ↦
        rw (given, inside)
          (any-Any {p = has_prefix (write_path action)} (λ root. (λ e. e, λ e. e)) write_roots
            inside)
    | inr outside ↦ rw (given, outside) tt
  ]
]

request-IsGuarded : (trimmed : String) → IsGuarded (trimmed_request trimmed)
unfolding trimmed_request
request-IsGuarded trimmed = elim (Bool-cases (is_blank trimmed)) [
  | inl blank ↦ rw blank tt
  | inr given ↦ elim (Bool-cases (has_prefix trimmed "write ")) [
    | inl writes ↦ rw (given, writes) (write_action-IsGuarded trimmed)
    | inr n1 ↦ elim (Bool-cases (has_prefix trimmed "systemctl ")) [
      | inl s ↦ rw (given, n1, s) (inl refl)
      | inr n2 ↦ elim (Bool-cases (has_prefix trimmed "ip ")) [
        | inl i ↦ rw (given, n1, n2, i) (inr (inl refl))
        | inr n3 ↦ elim (Bool-cases (has_prefix trimmed "nft ")) [
          | inl n ↦ rw (given, n1, n2, n3, n) (inr (inr refl))
          | inr n4 ↦ rw (given, n1, n2, n3, n4) tt
        ]
      ]
    ]
  ]
]

request_of-IsGuarded : (action : String) → IsGuarded (request_of action)
unfolding request_of
request_of-IsGuarded action = request-IsGuarded (trim_space action)

perform-IsPermitted :
    (sys : System) (calls : List Call) (r : Request)
    → IsGuarded r
    → All IsPermitted calls
    → All IsPermitted (perform sys calls r).0
unfolding perform
perform-IsPermitted sys calls nothing g a = a
perform-IsPermitted sys calls (refused e) g a = a
perform-IsPermitted sys calls (call c) g a = elim (Bool-cases sys.mock) [
  | inl mocked ↦ rw mocked a
  | inr real ↦ rw real (All-append IsPermitted calls (c ∷ []) a (g, tt))
]

-- one turn of the loop: the plan stops with the error, or goes on
pub apply-step :
    (P : List Call × Outcome × Option String → Type 0) (sys : System) (line action : String)
    (lines : List (String × String)) (calls : List Call) (out : Outcome)
    → ((e : String)
        → (execute_action sys calls action).1 ≡ some e
        → P ((execute_action sys calls action).0, failed_line out line e, some e))
    → ((execute_action sys calls action).1 ≡ none
        → P (apply_lines sys lines (execute_action sys calls action).0 (applied_line out line)))
    → P (apply_lines sys ((line, action) ∷ lines) calls out)
unfolding apply_lines
apply-step P sys line action lines calls out stop go =
    elim (Option-cases (execute_action sys calls action).1) [
      | inl fine ↦ rw (fine, apply_lines) (go fine)
      | inr (e, failed) ↦ rw (failed, apply_lines) (stop e failed)
    ]

apply_lines-IsPermitted :
    (sys : System) (lines : List (String × String)) (calls : List Call) (out : Outcome)
    → All IsPermitted calls
    → All IsPermitted (apply_lines sys lines calls out).0
unfolding apply_lines
apply_lines-IsPermitted sys [] calls out a = a
apply_lines-IsPermitted sys ((line, action) ∷ lines) calls out a =
    let permitted : All IsPermitted (execute_action sys calls action).0 =
      unfold execute_action in
      perform-IsPermitted sys calls (request_of action) (request_of-IsGuarded action) a in
    apply-step (λ r. All IsPermitted r.0) sys line action lines calls out (λ e failed. permitted)
      (λ fine.
        apply_lines-IsPermitted sys lines (execute_action sys calls action).0
          (applied_line out line) permitted)

execute_in-IsPermitted :
    (sys : System) (ops : List Operation) (mode : Mode) (calls : List Call)
    → All IsPermitted calls
    → All IsPermitted (execute_in sys ops mode calls).0
unfolding execute_in
execute_in-IsPermitted sys ops dry_run calls a = a
execute_in-IsPermitted sys ops apply calls a =
    apply_lines-IsPermitted sys (plan_lines ops) calls no_outcome a
execute_in-IsPermitted sys ops invalid calls a = a

-- Carrying out any list of operations in any mode makes only calls that are permitted: a write to a path
-- that begins with one of the nine roots, or a run of systemctl, ip or nft. The operations need not come
-- from a plan, and a path such as /etc/clawgress/../passwd is permitted too.
pub execute_ops_plan-IsPermitted :
    (sys : System) (ops : List Operation) (mode : String) (calls : List Call)
    → All IsPermitted calls
    → All IsPermitted (execute_ops_plan sys ops mode calls).0
unfolding execute_ops_plan
execute_ops_plan-IsPermitted sys ops mode calls =
    execute_in-IsPermitted sys ops (normalize_ops_mode mode) calls
