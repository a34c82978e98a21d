-- ===== src/Ctl/Session/Steps.antt =====
-- What a line of the configure mode changes, and what a commit sends.
use crispy_garbanzo.Base.{
  String, Bool, true, false, Option, none, some, List, [], ◌∷◌, length, leb, ℕ, ◌<◌, ◌≡◌, ◌≢◌, inl,
  inr, refl, sym, subst, ◌∙◌, arith, Bool-cases, Option-cases, fields, trim_space,
}
use crispy_garbanzo.Base.Value.{Value, Fields}
use crispy_garbanzo.Cmdmap.Paths.{is_multi_path}
use crispy_garbanzo.Ctl.Candidate.{set_by_path}
use crispy_garbanzo.Ctl.Edit.{
  CandidateFile, missing, holds, load_or_init_config, Setting, World, Removal, removed, absent,
  not_removed, parse_set_path_and_value, apply_set_to_file,
}
use crispy_garbanzo.Ctl.Session.Cases.{is_not, command_cases}
use crispy_garbanzo.Ctl.Session.{
  Output, commit, Client, Next, prompt, leave, die, say, ask, finish_set, set_line, show_line,
  configure_once, save_answer, commit_answer, discard_line, after_removal, command_line, words_line,
  handle_line, Ending, left, died, session,
}

-- What a line of these words does to the candidate file. A line without words keeps it, as does a command
-- other than "set" and "discard". A "set" with fewer than two arguments, with arguments that are refused or
-- on a file that cannot be loaded keeps it; else it writes the configuration with the value set, or leaves
-- what a failed write leaves. A "discard" removes the file, if the system removes it.
pub data Edits (g : Setting) (w : World) (words : List String)
    : CandidateFile → CandidateFile → Type 0 where
  wordless : {f : CandidateFile} → words ≡ [] → Edits g w words f f
  other :
      {f : CandidateFile} (cmd : String) (rest : List String)
      → words ≡ cmd ∷ rest
      → cmd ≢ "set"
      → cmd ≢ "discard"
      → Edits g w words f f
  too_few :
      {f : CandidateFile} (args : List String)
      → words ≡ "set" ∷ args
      → length args < 2
      → Edits g w words f f
  refused :
      {f : CandidateFile} (args : List String)
      → words ≡ "set" ∷ args
      → parse_set_path_and_value g args ≡ none
      → Edits g w words f f
  unloaded :
      {f : CandidateFile} (args : List String) (path : String) (value : Value)
      → words ≡ "set" ∷ args
      → parse_set_path_and_value g args ≡ some (path, value)
      → load_or_init_config f ≡ none
      → Edits g w words f f
  sets :
      {f : CandidateFile} (args : List String) (path : String) (value : Value) (cfg : Fields)
      → words ≡ "set" ∷ args
      → parse_set_path_and_value g args ≡ some (path, value)
      → load_or_init_config f ≡ some cfg
      → w.write_fault ≡ none
      → Edits g w words f (holds (set_by_path cfg path value (is_multi_path g.table path)))
  spoils :
      {f remains : CandidateFile} (args : List String) (path : String) (value : Value)
      (cfg : Fields)
      → words ≡ "set" ∷ args
      → parse_set_path_and_value g args ≡ some (path, value)
      → load_or_init_config f ≡ some cfg
      → w.write_fault ≡ some remains
      → Edits g w words f remains
  discards :
      {f : CandidateFile} (rest : List String)
      → words ≡ "discard" ∷ rest
      → w.removal ≡ removed
      → Edits g w words f missing
  undiscarded :
      {f : CandidateFile} (rest : List String)
      → words ≡ "discard" ∷ rest
      → w.removal ≢ removed
      → Edits g w words f f

below_two : (n : ℕ) → leb 2 n ≡ false → n < 2
below_two n h = ground arith

module _ (g : Setting) (w : World) where
  apply-unread :
      (path : String) (value : Value) (f : CandidateFile)
      → load_or_init_config f ≡ none
      → (apply_set_to_file g w path value f).0 ≡ f
  unfolding apply_set_to_file
  apply-unread path value f bad = ground arith

  apply-written :
      (path : String) (value : Value) (f : CandidateFile) (cfg : Fields)
      → load_or_init_config f ≡ some cfg
      → w.write_fault ≡ none
      → (apply_set_to_file g w path value f).0
        ≡ holds (set_by_path cfg path value (is_multi_path g.table path))
  unfolding apply_set_to_file
  apply-written path value f cfg ok written = ground arith

  apply-spoilt :
      (path : String) (value : Value) (f remains : CandidateFile) (cfg : Fields)
      → load_or_init_config f ≡ some cfg
      → w.write_fault ≡ some remains
      → (apply_set_to_file g w path value f).0 ≡ remains
  unfolding apply_set_to_file
  apply-spoilt path value f remains cfg ok failed = ground arith

  apply-Edits :
      (args : List String) (path : String) (value : Value) (f : CandidateFile)
      → parse_set_path_and_value g args ≡ some (path, value)
      → Edits g w ("set" ∷ args) f (apply_set_to_file g w path value f).0
  apply-Edits args path value f parsed = elim (Option-cases (load_or_init_config f)) [
    | inl bad ↦
        subst (Edits g w ("set" ∷ args) f) (sym (apply-unread path value f bad))
          (unloaded args path value refl parsed bad)
    | inr (cfg, ok) ↦ elim (Option-cases w.write_fault) [
      | inl written ↦
          subst (Edits g w ("set" ∷ args) f) (sym (apply-written path value f cfg ok written))
            (sets args path value cfg refl parsed ok written)
      | inr (remains, failed) ↦
          subst (Edits g w ("set" ∷ args) f) (sym (apply-spoilt path value f remains cfg ok failed))
            (spoils args path value cfg refl parsed ok failed)
    ]
  ]

  finish_set-candidate :
      (path : String) (r : CandidateFile × Bool) (c : Client)
      → (finish_set path r c).candidate ≡ r.0
  unfolding finish_set
  finish_set-candidate path (f, true) c = refl
  finish_set-candidate path (f, false) c = refl

  set_line-Edits :
      (rest : List String) (c : Client)
      → Edits g w ("set" ∷ rest) c.candidate (set_line g w rest c).candidate
  unfolding set_line
  set_line-Edits rest c = elim (Bool-cases (leb 2 (length rest))) [
    | inr few ↦ rw few (too_few rest refl (below_two (length rest) few))
    | inl enough ↦ elim (Option-cases (parse_set_path_and_value g rest)) [
      | inl bad ↦ rw (enough, bad) (refused rest refl bad)
      | inr ((path, value), ok) ↦
          rw
            (enough, ok, finish_set-candidate path (apply_set_to_file g w path value c.candidate) c)
            (apply-Edits rest path value c.candidate ok)
    ]
  ]

  show_line-candidate :
      (rest : List String) (c : Client) → (show_line g rest c).candidate ≡ c.candidate
  unfolding show_line
  show_line-candidate rest c = ground arith

  configure_once-candidate : (c : Client) → (configure_once g w c).0.candidate ≡ c.candidate
  unfolding configure_once ask
  configure_once-candidate c = ground arith

  save_answer-candidate :
      (c : Client) (a : Option String) → (save_answer (c, a)).0.candidate ≡ c.candidate
  unfolding save_answer say
  save_answer-candidate c none = refl
  save_answer-candidate c (some rev) = refl

  commit_answer-candidate :
      (c : Client) (a : Option String) → (commit_answer g w (c, a)).0.candidate ≡ c.candidate
  unfolding commit_answer save_answer say ask
  commit_answer-candidate c none = refl
  commit_answer-candidate c (some rev) =
      save_answer-candidate (ask (commit g.actor rev "dry-run") c) w.commit_answer

  after_removal-Edits :
      (rest : List String) (r : Removal) (c : Client)
      → w.removal ≡ r
      → Edits g w ("discard" ∷ rest) c.candidate (after_removal r c).candidate
  unfolding after_removal say
  after_removal-Edits rest removed c e = discards rest refl e
  after_removal-Edits rest absent c e = undiscarded rest refl (λ h. cc)
  after_removal-Edits rest not_removed c e = undiscarded rest refl (λ h. cc)

  discard_line-Edits :
      (rest : List String) (c : Client)
      → Edits g w ("discard" ∷ rest) c.candidate (discard_line w c).candidate
  unfolding discard_line
  discard_line-Edits rest c = after_removal-Edits rest w.removal c refl

  say-candidate : (o : Output) (c : Client) → (say o c).candidate ≡ c.candidate
  unfolding say
  say-candidate o c = refl

  command_line-Edits :
      (cmd : String) (rest : List String) (c : Client)
      → Edits g w (cmd ∷ rest) c.candidate (command_line g w cmd rest c).0.candidate
  command_line-Edits cmd rest c =
      let P = λ (r : Client × Next). Edits g w (cmd ∷ rest) c.candidate r.0.candidate in
      let asked = configure_once-candidate c in
      let same : (f : CandidateFile)
          → f ≡ c.candidate
          → cmd ≢ "set"
          → cmd ≢ "discard"
          → Edits g w (cmd ∷ rest) c.candidate f =
        λ f e n m. subst (Edits g w (cmd ∷ rest) c.candidate) (sym e) (other cmd rest refl n m) in
      command_cases g w P cmd rest c
        (λ e.
          subst (λ t. Edits g w (t ∷ rest) c.candidate (set_line g w rest c).candidate) (sym e)
            (set_line-Edits rest c))
        (λ e.
          same _ (show_line-candidate rest c) (is_not cmd "show" "set" e refl)
            (is_not cmd "show" "discard" e refl))
        (λ e.
          same _ (save_answer-candidate (configure_once g w c).0 (configure_once g w c).1 ∙ asked)
            (is_not cmd "save" "set" e refl) (is_not cmd "save" "discard" e refl))
        (λ e.
          same _ (commit_answer-candidate (configure_once g w c).0 (configure_once g w c).1 ∙ asked)
            (is_not cmd "commit" "set" e refl) (is_not cmd "commit" "discard" e refl))
        (λ e.
          subst (λ t. Edits g w (t ∷ rest) c.candidate (discard_line w c).candidate) (sym e)
            (discard_line-Edits rest c))
        (λ n _ _ m. same _ refl n m) (λ o n _ _ m. same _ (say-candidate o c) n m)

  words_line-Edits :
      (words : List String) (c : Client)
      → Edits g w words c.candidate (words_line g w words c).0.candidate
  unfolding words_line
  words_line-Edits [] c = wordless refl
  words_line-Edits (cmd ∷ rest) c = command_line-Edits cmd rest c

  handle_line-Edits :
      (line : String) (c : Client)
      → Edits g w (fields (trim_space line)) c.candidate (handle_line g w line c).0.candidate
  unfolding handle_line
  handle_line-Edits line c = words_line-Edits (fields (trim_space line)) c

-- A candidate file after another, over lines of a session of which it may have seen the first ones only.
pub data History (g : Setting)
    : List (String × World) → CandidateFile → CandidateFile → Type 0 where
  ended : {typed : List (String × World)} {f : CandidateFile} → History g typed f f
  edited :
      {line : String} {w : World} {typed : List (String × World)} {f f' f'' : CandidateFile}
      → Edits g w (fields (trim_space line)) f f'
      → History g typed f' f''
      → History g ((line, w) ∷ typed) f f''

after_line :
    (g : Setting) (typed : List (String × World)) (c : Client) (next : Next)
    → ((c' : Client) → History g typed c'.candidate (session g typed c').0.candidate)
    → let after : Client × Ending = elim next [
      | prompt ↦ session g typed c
      | leave ↦ (c, left)
      | die ↦ (c, died)
    ] in
      History g typed c.candidate after.0.candidate
after_line g typed c prompt ih = ih c
after_line g typed c leave ih = ended
after_line g typed c die ih = ended

-- Over a session the candidate file changes, up to its end, as the words of its lines say, in their order:
-- a "set" with at least two arguments that are accepted, on a file that loads, writes the configuration
-- with the value set, or leaves what a failed write leaves; a "discard" removes the file if the system
-- removes it; and any other line keeps it.
pub session-History :
    (g : Setting) (typed : List (String × World)) (c : Client)
    → History g typed c.candidate (session g typed c).0.candidate
unfolding session
session-History g [] c = ended
session-History g ((line, w) ∷ typed) c = edited (handle_line-Edits g w line c) (
    after_line g typed (handle_line g w line c).0 (handle_line g w line c).1
      (session-History g typed))
