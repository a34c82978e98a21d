-- ===== src/Enforcer/Execution/Run.antt =====
-- How a plan runs: what each mode does, where it stops, and what it counts.
use crispy_garbanzo.Base.{
  String, ◌+◌, false, Option, none, some, List, [], ◌∷◌, ◌++◌, ◌≡◌, ◌≢◌, refl, arith, ◌∙◌, sym,
  subst, ap, append-nil, append_assoc, length, map, print,
}
use crispy_garbanzo.Enforcer.Interfaces.{Operation}
use crispy_garbanzo.Enforcer.Execution.{
  Mode, dry_run, apply, invalid, Call, System, Request, nothing, call, refused, request_of, perform,
  execute_action, Outcome, plan_lines, apply_lines, execute_in, applied_line, failed_line,
  no_outcome,
}
use crispy_garbanzo.Enforcer.Execution.Guard.{apply-step}

-- the calls of a list of requests
abbrev pub calls_of : List Request → List Call
calls_of [] = []
calls_of (call c ∷ rs) = c ∷ calls_of rs
calls_of (nothing ∷ rs) = calls_of rs
calls_of (refused e ∷ rs) = calls_of rs

-- the requests of a plan, in order
abbrev pub requests : List (String × String) → List Request
requests = map (λ (_, action). request_of action)

-- a request that the system carries out, after the calls before it, and one that fails with an error
abbrev pub Fine : System → List Call → Request → Type 0
Fine sys calls nothing = Unit
Fine sys calls (call c) = sys.answer calls c ≡ none
Fine sys calls (refused t) = ⊥

abbrev pub Fails : System → List Call → Request → String → Type 0
Fails sys calls nothing e = ⊥
Fails sys calls (call c) e = sys.answer calls c ≡ some e
Fails sys calls (refused t) e = t ≡ e

-- the actions of these lines are carried out, one after the other
abbrev pub AllFine : System → List Call → List (String × String) → Type 0
AllFine sys calls [] = Unit
AllFine sys calls ((line, action) ∷ lines) =
    Fine sys calls (request_of action)
    × AllFine sys (calls ++ calls_of (request_of action ∷ [])) lines

-- the log of lines that were applied, or shown
abbrev pub log_of : String → List (String × String) → List String
log_of tag [] = []
log_of tag ((line, action) ∷ lines) = print (tag ∷ line ∷ []) ∷ log_of tag lines

-- a run to apply that stopped with the error `e` at the action of a line
pub record Stopped (sys : System) (calls : List Call) (out : Outcome)
    (lines : List (String × String)) (calls' : List Call) (after : Outcome) (e : String)
    : Type 0 where
  pub done : List (String × String)
  pub rest : List (String × String)
  pub line : String
  pub action : String
  pub split : lines ≡ done ++ (line, action) ∷ rest
  pub fine : AllFine sys calls done
  pub fails : Fails sys (calls ++ calls_of (requests done)) (request_of action) e
  pub applied : after.applied ≡ out.applied + length done
  pub failed : after.failed ≡ out.failed + 1
  pub logs :
      after.logs
      ≡ out.logs ++ (log_of "APPLIED " done ++ print ("ERROR " ∷ line ∷ " :: " ∷ e ∷ []) ∷ [])
  pub made : calls' ≡ calls ++ calls_of (requests (done ++ (line, action) ∷ []))

-- a run to apply that ended
pub record Completed (sys : System) (calls : List Call) (out : Outcome)
    (lines : List (String × String)) (calls' : List Call) (after : Outcome) : Type 0 where
  pub fine : AllFine sys calls lines
  pub applied : after.applied ≡ out.applied + length lines
  pub failed : after.failed ≡ out.failed
  pub logs : after.logs ≡ out.logs ++ log_of "APPLIED " lines
  pub made : calls' ≡ calls ++ calls_of (requests lines)

abbrev pub Runs :
    System
    → List Call
    → Outcome
    → List (String × String)
    → List Call × Outcome × Option String
    → Type 0
Runs sys calls out lines (calls', after, none) = Completed sys calls out lines calls' after
Runs sys calls out lines (calls', after, some e) = Stopped sys calls out lines calls' after e

calls_of-cons :
    (r : Request) (rs : List Request) → calls_of (r ∷ rs) ≡ calls_of (r ∷ []) ++ calls_of rs
calls_of-cons nothing rs = refl
calls_of-cons (call c) rs = refl
calls_of-cons (refused e) rs = refl

calls-later :
    (calls : List Call) (r : Request) (rs : List Request)
    → (calls ++ calls_of (r ∷ [])) ++ calls_of rs ≡ calls ++ calls_of (r ∷ rs)
calls-later calls r rs =
    append_assoc calls (calls_of (r ∷ [])) (calls_of rs)
    ∙ ap (λ t. calls ++ t) (sym (calls_of-cons r rs))

Runs-later :
    (sys : System) (calls : List Call) (out : Outcome) (line action : String)
    (lines : List (String × String)) (r : List Call × Outcome × Option String)
    → Fine sys calls (request_of action)
    → Runs sys (calls ++ calls_of (request_of action ∷ [])) (applied_line out line) lines r
    → Runs sys calls out ((line, action) ∷ lines) r
unfolding applied_line
Runs-later sys calls out line action lines (calls', after, none) ok c = record {
  fine = (ok, c.fine);
  applied = omega (arith, c.applied);
  failed = c.failed;
  logs = c.logs ∙ append_assoc out.logs _ _;
  made = c.made ∙ calls-later calls (request_of action) (requests lines);
}
Runs-later sys calls out line action lines (calls', after, some e) ok c = record {
  done = (line, action) ∷ c.done;
  rest = c.rest;
  line = c.line;
  action = c.action;
  split = ap (λ t. (line, action) ∷ t) c.split;
  fine = (ok, c.fine);
  fails =
      subst (λ t. Fails sys t (request_of c.action) e)
        (calls-later calls (request_of action) (requests c.done)) c.fails;
  applied = omega (arith, c.applied);
  failed = c.failed;
  logs = c.logs ∙ append_assoc out.logs _ _;
  made =
      c.made ∙ calls-later calls (request_of action) (requests (c.done ++ (c.line, c.action) ∷ []));
}

perform-made :
    (sys : System) (calls : List Call) (r : Request)
    → sys.mock ≡ false
    → (perform sys calls r).0 ≡ calls ++ calls_of (r ∷ [])
unfolding perform
perform-made sys calls nothing m = sym (append-nil calls)
perform-made sys calls (call c) m = rw m refl
perform-made sys calls (refused t) m = sym (append-nil calls)

perform-Fine :
    (sys : System) (calls : List Call) (r : Request)
    → sys.mock ≡ false
    → (perform sys calls r).1 ≡ none
    → Fine sys calls r
unfolding perform
perform-Fine sys calls nothing m e = tt
perform-Fine sys calls (call c) m e = rw m at e
perform-Fine sys calls (refused t) m e = let bad : some t ≡ none = rw m at e in cc

perform-Fails :
    (sys : System) (calls : List Call) (r : Request) (e : String)
    → sys.mock ≡ false
    → (perform sys calls r).1 ≡ some e
    → Fails sys calls r e
unfolding perform
perform-Fails sys calls nothing e m h = cc
perform-Fails sys calls (call c) e m h = rw m at h
perform-Fails sys calls (refused t) e m h = let same : some t ≡ some e = rw m at h in cc

failed-Runs :
    (sys : System) (calls calls' : List Call) (out : Outcome) (line action e : String)
    (lines : List (String × String))
    → Fails sys calls (request_of action) e
    → calls' ≡ calls ++ calls_of (request_of action ∷ [])
    → Runs sys calls out ((line, action) ∷ lines) (calls', failed_line out line e, some e)
unfolding failed_line
failed-Runs sys calls calls' out line action e lines h made = record {
  done = [];
  rest = lines;
  line = line;
  action = action;
  split = refl;
  fine = tt;
  fails = subst (λ t. Fails sys t (request_of action) e) (sym (append-nil calls)) h;
  applied = omega arith;
  failed = refl;
  logs = refl;
  made = made;
}

apply_lines-Runs :
    (sys : System) (lines : List (String × String)) (calls : List Call) (out : Outcome)
    → sys.mock ≡ false
    → Runs sys calls out lines (apply_lines sys lines calls out)
unfolding apply_lines
apply_lines-Runs sys [] calls out m = record {
  fine = tt;
  applied = omega arith;
  failed = refl;
  logs = sym (append-nil out.logs);
  made = sym (append-nil calls);
}
apply_lines-Runs sys ((line, action) ∷ lines) calls out m =
    let made : (execute_action sys calls action).0 ≡ calls ++ calls_of (request_of action ∷ []) =
      unfold execute_action in perform-made sys calls (request_of action) m in
    apply-step (Runs sys calls out ((line, action) ∷ lines)) sys line action lines calls out
      (λ e failed.
        failed-Runs sys calls _ out line action e lines
          (unfold execute_action in perform-Fails sys calls (request_of action) e m failed) made)
      (λ fine.
        Runs-later sys calls out line action lines
          (apply_lines sys lines (execute_action sys calls action).0 (applied_line out line))
          (unfold execute_action in perform-Fine sys calls (request_of action) m fine)
          (subst
            (λ t.
              Runs sys t (applied_line out line) lines
                (apply_lines sys lines (execute_action sys calls action).0 (applied_line out line)))
            made
            (apply_lines-Runs sys lines (execute_action sys calls action).0 (applied_line out line)
              m)))

abbrev pub fresh : Outcome
fresh = record { applied = 0; failed = 0; logs = [] }

-- what a run in a mode comes to
abbrev pub RunOf :
    System → List Operation → List Call → Mode → List Call × Outcome × Option String → Type 0
RunOf sys ops calls dry_run (calls', out, error) =
    (calls' ≡ calls)
    × (error ≡ none)
    × (out.applied ≡ 0)
    × (out.failed ≡ 0)
    × (out.logs ≡ log_of "DRYRUN " (plan_lines ops))
RunOf sys ops calls apply r = Runs sys calls fresh (plan_lines ops) r
RunOf sys ops calls invalid (calls', out, error) = (calls' ≡ calls) × (error ≢ none) × (out ≡ fresh)

completed-made :
    (sys : System) (lines : List (String × String)) (calls : List Call) (out : Outcome)
    (r : List Call × Outcome × Option String)
    → Runs sys calls out lines r
    → r.2 ≡ none
    → r.0 ≡ calls ++ calls_of (requests lines)
completed-made sys lines calls out (calls', after, none) c e = c.made
completed-made sys lines calls out (calls', after, some t) c e = cc

-- A run to apply that ends without an error has made, in order, exactly the calls that the actions of
-- the operations ask for, after those before it; without the mock of the tests.
pub execute_in-calls :
    (sys : System) (ops : List Operation) (calls : List Call)
    → sys.mock ≡ false
    → (execute_in sys ops apply calls).2 ≡ none
    → (execute_in sys ops apply calls).0 ≡ calls ++ calls_of (requests (plan_lines ops))
unfolding execute_in
execute_in-calls sys ops calls m =
    completed-made sys (plan_lines ops) calls no_outcome
      (apply_lines sys (plan_lines ops) calls no_outcome)
      (apply_lines-Runs sys (plan_lines ops) calls no_outcome m)
