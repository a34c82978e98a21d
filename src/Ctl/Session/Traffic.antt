-- ===== src/Ctl/Session/Traffic.antt =====
-- What a line of the configure mode sends to the admin API, and what "show" finds after "set".
use crispy_garbanzo.Base.{
  String, Option, none, some, List, [], ◌∷◌, ◌++◌, ◌≡◌, ◌≢◌, ◌⊎◌, inl, inr, refl, sym, subst, ◌∙◌,
  arith, append_assoc, append-nil, fields, trim_space,
}
use crispy_garbanzo.Base.Value.{Fields}
use crispy_garbanzo.Ctl.Edit.{
  CandidateFile, missing, unreadable, blank, malformed, holds, Setting, World, Removal, removed,
  absent, not_removed,
}
use crispy_garbanzo.Ctl.Session.{
  Request, configure, commit, Output, Client, Next, prompt, leave, die, say, ask, finish_set,
  set_line, show_line, configure_once, save_answer, commit_answer, discard_line, after_removal,
  command_line, words_line, handle_line,
}
use crispy_garbanzo.Ctl.Session.Cases.{command_cases, is_not}

-- a candidate file that holds no configuration
abbrev pub Unheld : CandidateFile → Type 0
Unheld f = (f ≡ missing) ⊎ (f ≡ unreadable) ⊎ (f ≡ blank) ⊎ (f ≡ malformed)

-- What a line of these words sends. Only "save" and "commit" send anything, and only if the candidate file
-- holds a configuration: this configuration, and for "commit", once it was staged, a commit in the mode
-- "dry-run" that expects the revision which the answer named.
pub data Sends (g : Setting) (w : World) (file : CandidateFile) (words : List String)
    : List Request → Type 0 where
  wordless : words ≡ [] → Sends g w file words []
  silent :
      (cmd : String) (rest : List String)
      → words ≡ cmd ∷ rest
      → cmd ≢ "save"
      → cmd ≢ "commit"
      → Sends g w file words []
  unheld :
      (cmd : String) (rest : List String)
      → words ≡ cmd ∷ rest
      → (cmd ≡ "save") ⊎ (cmd ≡ "commit")
      → Unheld file
      → Sends g w file words []
  saves :
      {cfg : Fields} (rest : List String)
      → words ≡ "save" ∷ rest
      → file ≡ holds cfg
      → Sends g w file words (configure g.actor cfg ∷ [])
  unstaged :
      {cfg : Fields} (rest : List String)
      → words ≡ "commit" ∷ rest
      → file ≡ holds cfg
      → w.configure_answer ≡ none
      → Sends g w file words (configure g.actor cfg ∷ [])
  commits :
      {cfg : Fields} {rev : String} (rest : List String)
      → words ≡ "commit" ∷ rest
      → file ≡ holds cfg
      → w.configure_answer ≡ some rev
      → Sends g w file words (configure g.actor cfg ∷ commit g.actor rev "dry-run" ∷ [])

-- The requests after a line, in terms of those before it.
abbrev pub Sent : Setting → World → Client → List String → Client × Next → Type 0
Sent g w c words r =
    (sent : List Request) × Sends g w c.candidate words sent × (r.0.requests ≡ c.requests ++ sent)

module _ (g : Setting) (w : World) (c : Client) where
  unsent :
      (words : List String) (c' : Client) (n : Next)
      → Sends g w c.candidate words []
      → c'.requests ≡ c.requests
      → Sent g w c words (c', n)
  unsent words c' n h e = ([], h, e ∙ sym (append-nil c.requests))

  set_line-requests : (rest : List String) → (set_line g w rest c).requests ≡ c.requests
  unfolding set_line finish_set say
  set_line-requests rest = ground arith

  show_line-requests : (rest : List String) → (show_line g rest c).requests ≡ c.requests
  unfolding show_line say
  show_line-requests rest = ground arith

  after_removal-requests : (r : Removal) → (after_removal r c).requests ≡ c.requests
  unfolding after_removal say
  after_removal-requests removed = refl
  after_removal-requests absent = refl
  after_removal-requests not_removed = refl

  discard_line-requests : (discard_line w c).requests ≡ c.requests
  unfolding discard_line
  discard_line-requests = after_removal-requests w.removal

  say-requests : (o : Output) → (say o c).requests ≡ c.requests
  unfolding say
  say-requests o = refl

  -- the client and the answer after runConfigureOnce
  AskedOrNot : (Client × Option String) → Type 0
  AskedOrNot r =
      (Unheld c.candidate × (r ≡ (c, none)))
      ⊎ ((cfg : Fields) × (c.candidate ≡ holds cfg)
          × (r ≡ (ask (configure g.actor cfg) c, w.configure_answer)))

  configure_once-AskedOrNot :
      (f : CandidateFile) → c.candidate ≡ f → AskedOrNot (configure_once g w c)
  unfolding configure_once AskedOrNot
  configure_once-AskedOrNot missing e = inl (inl e, ground arith)
  configure_once-AskedOrNot unreadable e = inl (inr (inl e), ground arith)
  configure_once-AskedOrNot blank e = inl (inr (inr (inl e)), ground arith)
  configure_once-AskedOrNot malformed e = inl (inr (inr (inr e)), ground arith)
  configure_once-AskedOrNot (holds cfg) e = inr (cfg, e, ground arith)

  answered-requests :
      (c' : Client) (a : Option String) → (save_answer (c', a)).0.requests ≡ c'.requests
  unfolding save_answer say
  answered-requests c' none = refl
  answered-requests c' (some rev) = refl

  module _ (rest : List String) where
    save-Sent :
        (cfg : Fields) (a : Option String)
        → c.candidate ≡ holds cfg
        → Sent g w c ("save" ∷ rest) (save_answer (ask (configure g.actor cfg) c, a))
    unfolding ask
    save-Sent cfg a e = (
      configure g.actor cfg ∷ [],
      saves rest refl e,
      answered-requests (ask (configure g.actor cfg) c) a,
    )

    save_dead : Unheld c.candidate → Sent g w c ("save" ∷ rest) (save_answer (c, none))
    unfolding save_answer
    save_dead u = unsent ("save" ∷ rest) c die (unheld "save" rest refl (inl refl) u) refl

    commit_dead : Unheld c.candidate → Sent g w c ("commit" ∷ rest) (commit_answer g w (c, none))
    unfolding commit_answer
    commit_dead u = unsent ("commit" ∷ rest) c die (unheld "commit" rest refl (inr refl) u) refl

    save_line-Sent : Sent g w c ("save" ∷ rest) (save_answer (configure_once g w c))
    unfolding AskedOrNot
    save_line-Sent = elim (configure_once-AskedOrNot c.candidate refl) [
      | inl (u, e) ↦ subst (λ r. Sent g w c ("save" ∷ rest) (save_answer r)) (sym e) (save_dead u)
      | inr (cfg, h, e) ↦
          subst (λ r. Sent g w c ("save" ∷ rest) (save_answer r)) (sym e)
            (save-Sent cfg w.configure_answer h)
    ]

    commit-Sent :
        (cfg : Fields) (a : Option String)
        → c.candidate ≡ holds cfg
        → w.configure_answer ≡ a
        → Sent g w c ("commit" ∷ rest) (commit_answer g w (ask (configure g.actor cfg) c, a))
    unfolding commit_answer ask
    commit-Sent cfg none e f = (configure g.actor cfg ∷ [], unstaged rest refl e f, refl)
    commit-Sent cfg (some rev) e f = (
      configure g.actor cfg ∷ commit g.actor rev "dry-run" ∷ [],
      commits rest refl e f,
      answered-requests _ w.commit_answer
          ∙ append_assoc c.requests (configure g.actor cfg ∷ [])
              (commit g.actor rev "dry-run" ∷ []),
    )

    commit_line-Sent : Sent g w c ("commit" ∷ rest) (commit_answer g w (configure_once g w c))
    unfolding AskedOrNot
    commit_line-Sent = elim (configure_once-AskedOrNot c.candidate refl) [
      | inl (u, e) ↦
          subst (λ r. Sent g w c ("commit" ∷ rest) (commit_answer g w r)) (sym e) (commit_dead u)
      | inr (cfg, h, e) ↦
          subst (λ r. Sent g w c ("commit" ∷ rest) (commit_answer g w r)) (sym e)
            (commit-Sent cfg w.configure_answer h refl)
    ]

  command_line-Sent :
      (cmd : String) (rest : List String) → Sent g w c (cmd ∷ rest) (command_line g w cmd rest c)
  command_line-Sent cmd rest =
      let quiet : (c' : Client) (n : Next)
          → c'.requests ≡ c.requests
          → cmd ≢ "save"
          → cmd ≢ "commit"
          → Sent g w c (cmd ∷ rest) (c', n) =
        λ c' n e s m. unsent (cmd ∷ rest) c' n (silent cmd rest refl s m) e in
      command_cases g w (Sent g w c (cmd ∷ rest)) cmd rest c
        (λ e.
          quiet (set_line g w rest c) prompt (set_line-requests rest)
            (is_not cmd "set" "save" e refl) (is_not cmd "set" "commit" e refl))
        (λ e.
          quiet (show_line g rest c) prompt (show_line-requests rest)
            (is_not cmd "show" "save" e refl) (is_not cmd "show" "commit" e refl))
        (λ e.
          subst (λ t. Sent g w c (t ∷ rest) (save_answer (configure_once g w c))) (sym e)
            (save_line-Sent rest))
        (λ e.
          subst (λ t. Sent g w c (t ∷ rest) (commit_answer g w (configure_once g w c))) (sym e)
            (commit_line-Sent rest))
        (λ e.
          quiet (discard_line w c) prompt discard_line-requests (is_not cmd "discard" "save" e refl)
            (is_not cmd "discard" "commit" e refl))
        (λ _ s m _. quiet c leave refl s m)
        (λ o _ s m _. quiet (say o c) prompt (say-requests o) s m)

  words_line-Sent : (words : List String) → Sent g w c words (words_line g w words c)
  unfolding words_line
  words_line-Sent [] = unsent [] c prompt (wordless refl) refl
  words_line-Sent (cmd ∷ rest) = command_line-Sent cmd rest

  handle_line-Sent_lem :
      (line : String) → Sent g w c (fields (trim_space line)) (handle_line g w line c)
  unfolding handle_line
  handle_line-Sent_lem line = words_line-Sent (fields (trim_space line))

-- What a line sends, by its words. A "save" sends the configuration of the candidate file; a "commit" sends
-- it too and then, if that is answered, a commit in the mode "dry-run" that expects the revision which the
-- answer names; without a configuration in the file both send nothing, and any other line sends nothing.
-- What was sent before stays.
pub handle_line-Sent :
    (g : Setting) (w : World) (c : Client) (line : String)
    → Sent g w c (fields (trim_space line)) (handle_line g w line c)
handle_line-Sent g w c line = handle_line-Sent_lem g w c line
