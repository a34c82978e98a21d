-- ===== src/Ctl/Session/Cases.antt =====
-- The cases of the `switch` over the first word of a line.
use crispy_garbanzo.Base.{
  String, Bool, true, false, ◌||◌, List, ◌==◌, if◌then◌else◌, ◌≡◌, ◌≢◌, eq_iff, inl, inr, sym,
  subst, ◌∙◌, Bool-cases,
}
use mathlib.Core.Bool.{false≢true}
use crispy_garbanzo.Ctl.Edit.{Setting, World}
use crispy_garbanzo.Ctl.Session.{
  Output, help, unknown_command, Client, Next, prompt, leave, say, set_line, show_line,
  configure_once, save_answer, commit_answer, discard_line, command_line,
}

if_either {ℓ} :
    {A : Type ℓ} (P : A → Type 0) (b : Bool) {x y : A} → P x → P y → P (if b then x else y)
if_either P true p q = p
if_either P false p q = q

if_equal {ℓ} :
    {A : Type ℓ} (P : A → Type 0) (s t : String) {x y : A}
    → (s ≡ t → P x)
    → (s ≢ t → P y)
    → P (if s == t then x else y)
if_equal P s t {x} {y} p q = elim (Bool-cases (s == t)) [
  | inl same ↦ subst (λ b. P (if b then x else y)) (sym same) (p ((eq_iff s t).0 same))
  | inr differ ↦
      subst (λ b. P (if b then x else y)) (sym differ)
        (q (λ e. false≢true (sym differ ∙ (eq_iff s t).1 e)))
]

-- a command that is one text is not another
pub is_not : (cmd s t : String) → cmd ≡ s → (s == t) ≡ false → cmd ≢ t
is_not cmd s t is differ e = false≢true (sym differ ∙ (eq_iff s t).1 (sym is ∙ e))

module _ (g : Setting) (w : World) where
  -- the cases of the `switch`, for a property of the client after it
  pub command_cases :
      (P : Client × Next → Type 0) (cmd : String) (rest : List String) (c : Client)
      → (cmd ≡ "set" → P (set_line g w rest c, prompt))
      → (cmd ≡ "show" → P (show_line g rest c, prompt))
      → (cmd ≡ "save" → P (save_answer (configure_once g w c)))
      → (cmd ≡ "commit" → P (commit_answer g w (configure_once g w c)))
      → (cmd ≡ "discard" → P (discard_line w c, prompt))
      → (cmd ≢ "set" → cmd ≢ "save" → cmd ≢ "commit" → cmd ≢ "discard" → P (c, leave))
      → ((o : Output)
          → cmd ≢ "set"
          → cmd ≢ "save"
          → cmd ≢ "commit"
          → cmd ≢ "discard"
          → P (say o c, prompt))
      → P (command_line g w cmd rest c)
  unfolding command_line
  command_cases P cmd rest c set show save commit' discard exit other' =
      if_equal P cmd "set" set (λ n1. if_equal P cmd "show" show (λ n2.
        if_equal P cmd "save" save (λ n3. if_equal P cmd "commit" commit' (λ n4.
          if_equal P cmd "discard" discard (λ n5.
            if_either P (cmd == "exit" || cmd == "quit") (exit n1 n3 n4 n5) (
              if_either P (cmd == "help" || cmd == "?") (other' help n1 n3 n4 n5)
                (other' (unknown_command cmd) n1 n3 n4 n5)))))))
