-- ===== src/Ctl/Edit/Sets.antt =====
-- What "clawgressctl set" leaves in the candidate file.
use crispy_garbanzo.Base.{
  ℕ, ◌<◌, ◌≤◌, refl, String, true, false, none, some, List, length, leb, ◌≡◌, ◌≢◌, ◌⊎◌, inl, inr,
  sym, subst, arith, Bool-cases, Option-cases, split,
}
use crispy_garbanzo.Base.Value.{Value, Fields}
use crispy_garbanzo.Cmdmap.Paths.{is_multi_path}
use crispy_garbanzo.Ctl.Candidate.{get_by_path, set_by_path}
use crispy_garbanzo.Ctl.Candidate.Laws.{Diverge, NewLeaf, get_by_path-set_by_path}
use crispy_garbanzo.Ctl.Edit.{
  CandidateFile, holds, load_or_init_config, Setting, World, parse_set_path_and_value,
  apply_set_to_file, SetOutcome, usage_error, path_error, write_error, set_to, set_outcome, run_set,
}

-- What is found in a configuration after a value was set under a path in another one.
abbrev pub Found : Setting → String → Value → Fields → Fields → Type 0
Found g path value cfg cfg' =
    (leaf : Value) × NewLeaf value (is_multi_path g.table path) (get_by_path cfg path) leaf
    × (get_by_path cfg' path ≡ some leaf)
    × ((other : String)
        → Diverge (split b'.' path) (split b'.' other)
        → get_by_path cfg' other ≡ get_by_path cfg other)

-- A set that was carried out: it was parsed, the file was read, and what it holds now has the value.
pub record SetDone (g : Setting) (args : List String) (before after : CandidateFile) (path : String)
    : Type 0 where
  pub value : Value
  pub old : Fields
  pub new : Fields
  pub parsed : parse_set_path_and_value g args ≡ some (path, value)
  pub loaded : load_or_init_config before ≡ some old
  pub written : after ≡ holds new
  pub found : Found g path value old new

-- How "set" ends with an outcome, and what it leaves of the file.
abbrev pub Ends :
    Setting → World → List String → CandidateFile → CandidateFile × SetOutcome → Type 0
Ends g w args before (after, usage_error) = (length args < 2) × (after ≡ before)
Ends g w args before (after, path_error) =
    (2 ≤ length args) × (parse_set_path_and_value g args ≡ none) × (after ≡ before)
Ends g w args before (after, write_error) =
    (parsed : String × Value) × (parse_set_path_and_value g args ≡ some parsed)
    × (((load_or_init_config before ≡ none) × (after ≡ before))
        ⊎ ((load_or_init_config before ≢ none) × (w.write_fault ≡ some after)))
Ends g w args before (after, set_to path) =
    (w.write_fault ≡ none) × SetDone g args before after path

write_cases :
    (g : Setting) (w : World) (path : String) (value : Value) (f : CandidateFile)
    → ((load_or_init_config f ≡ none) × (apply_set_to_file g w path value f ≡ (f, false)))
      ⊎ ((remains : CandidateFile) × (load_or_init_config f ≢ none)
          × (w.write_fault ≡ some remains)
          × (apply_set_to_file g w path value f ≡ (remains, false)))
      ⊎ ((cfg : Fields) × (load_or_init_config f ≡ some cfg)
          × (w.write_fault ≡ none)
          × (apply_set_to_file g w path value f
              ≡ (holds (set_by_path cfg path value (is_multi_path g.table path)), true)))
unfolding apply_set_to_file
write_cases g w path value f = elim (Option-cases (load_or_init_config f)) [
  | inl bad ↦ inl (bad, ground arith)
  | inr (cfg, ok) ↦ elim (Option-cases w.write_fault) [
    | inl good ↦ inr (inr (cfg, ok, good, ground arith))
    | inr (remains, failed) ↦ inr (inl (remains, (λ h. cc), failed, ground arith))
  ]
]

-- how "set" ends once its arguments are parsed
parsed-Ends :
    (g : Setting) (w : World) (args : List String) (before : CandidateFile) (path : String)
    (value : Value)
    → parse_set_path_and_value g args ≡ some (path, value)
    → Ends g w args before (set_outcome path (apply_set_to_file g w path value before))
unfolding set_outcome
parsed-Ends g w args before path value ok = elim (write_cases g w path value before) [
  | inl (unloaded, e) ↦
      subst (λ r. Ends g w args before (set_outcome path r)) (sym e)
        ((path, value), ok, inl (unloaded, refl))
  | inr (inl (remains, loaded, failed, e)) ↦
      subst (λ r. Ends g w args before (set_outcome path r)) (sym e)
        ((path, value), ok, inr (loaded, failed))
  | inr (inr (cfg, loaded, good, e)) ↦
      subst (λ r. Ends g w args before (set_outcome path r)) (sym e)
        (
          good,
          record {
            value = value;
            old = cfg;
            new = set_by_path cfg path value (is_multi_path g.table path);
            parsed = ok;
            loaded = loaded;
            written = refl;
            found = get_by_path-set_by_path cfg path value (is_multi_path g.table path);
          },
        )
]

below_two : (n : ℕ) → leb 2 n ≡ false → n < 2
below_two n h = ground arith

at_least_two : (n : ℕ) → leb 2 n ≡ true → 2 ≤ n
at_least_two n h = ground arith

-- How "set" ends. With fewer than two arguments it prints its usage, and with arguments that are refused it
-- reports an error of the path; both leave the file as it was. When it reports an error of the file, the
-- arguments were parsed, and the file could not be loaded and is as it was, or is what the failed write
-- left. When it reports that it has set a path, the arguments were parsed into that path and a value, the
-- file was loaded and written, and it now holds a configuration in which the path has the value, or where
-- the path takes many values, has it behind what was there; what stood under every path that parts from it
-- is unchanged.
pub run_set-SetDone :
    (g : Setting) (w : World) (args : List String) (before : CandidateFile)
    → Ends g w args before (run_set g w args before)
unfolding run_set
run_set-SetDone g w args before = elim (Bool-cases (leb 2 (length args))) [
  | inr few ↦ rw few (below_two (length args) few, refl)
  | inl enough ↦ elim (Option-cases (parse_set_path_and_value g args)) [
    | inl bad ↦ rw (enough, bad) (at_least_two (length args) enough, bad, refl)
    | inr ((path, value), ok) ↦ rw (enough, ok) (parsed-Ends g w args before path value ok)
  ]
]
