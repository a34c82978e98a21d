-- ===== src/Cmdmap/Paths/Validation.antt =====
-- ValidateSetTokens: the first entry of the table that takes a path and a value decides.
use crispy_garbanzo.Base.{
  String, Bool, true, ◌&&◌, List, [], ◌∷◌, ◌==◌, if◌then◌else◌, ◌≡◌, ◌≢◌, ◌↔◌, inl, inr, refl, sym,
  ◌∙◌, subst, arith, eq_iff, Bool-cases, join, trim_space,
}
use mathlib.Core.Bool.{false≢true}
use crispy_garbanzo.Cmdmap.Values.{validate_value_token}
use crispy_garbanzo.Cmdmap.Values.Accepted.{FitsValue, validate_value_token_iff}
use crispy_garbanzo.Cmdmap.Paths.{
  TokenPath, Verdict, accepted, rejected, normalize_tokens, entry_matches, set_token_paths,
  first_accepting, validate_set_tokens,
}
use crispy_garbanzo.Cmdmap.Paths.Matching.{Covers, entry_matches_iff}

-- A value, without the spaces around it, is not empty and fits a value token.
abbrev pub ValidFor : String → String → Type 0
ValidFor token value = (trim_space value ≢ "") × FitsValue token (trim_space value)

-- An entry takes a path and a value: it is one for "set", its pattern covers the path, and the value is valid
-- for its value token.
abbrev pub Takes : List String → String → TokenPath → Type 0
Takes nt value p = (p.kind ≡ "set") × Covers nt p × ValidFor p.value_token value

-- The verdict of a table, entry by entry.
pub data Judges (nt : List String) (value : String) : List TokenPath → Verdict → Type 0 where
  no_entry : Judges nt value [] rejected
  takes_it :
      {p : TokenPath} {table : List TokenPath} {v : Verdict}
      → Takes nt value p
      → v ≡ accepted (join "." nt) p.multi
      → Judges nt value (p ∷ table) v
  passes :
      {p : TokenPath} {table : List TokenPath} {v : Verdict}
      → ¬ Takes nt value p
      → Judges nt value table v
      → Judges nt value (p ∷ table) v

module _ (nt : List String) (value : String) where
  takes : TokenPath → Bool
  takes p = p.kind == "set" && (entry_matches nt p && validate_value_token p.value_token value)

  takes_iff : (p : TokenPath) → (takes p ≡ true) ↔ Takes nt value p
  unfolding takes
  takes_iff p = ground (
    arith,
    eq_iff p.kind "set",
    entry_matches_iff nt p,
    validate_value_token_iff p.value_token value,
  )

  verdict : List TokenPath → Verdict
  verdict table = first_accepting (set_token_paths table) nt value

  verdict_lem :
      (table : List TokenPath) → verdict table ≡ first_accepting (set_token_paths table) nt value
  unfolding verdict
  verdict_lem table = refl

  verdict-nil : verdict [] ≡ rejected
  unfolding verdict first_accepting set_token_paths
  verdict-nil = refl

  verdict-cons :
      (p : TokenPath) (table : List TokenPath)
      → verdict (p ∷ table) ≡ (if takes p then accepted (join "." nt) p.multi else verdict table)
  unfolding verdict first_accepting set_token_paths takes
  verdict-cons p table = ground arith

  verdict-Judges : (table : List TokenPath) → Judges nt value table (verdict table)
  verdict-Judges [] = rw verdict-nil no_entry
  verdict-Judges (p ∷ table) = elim (Bool-cases (takes p)) [
    | inl t ↦ takes_it ((takes_iff p).0 t) (verdict-cons p table ∙ rw t)
    | inr n ↦
        passes (λ t. false≢true (sym n ∙ (takes_iff p).1 t))
          (rw (verdict-cons p table, n) (verdict-Judges table))
  ]

  Judges-verdict :
      {table : List TokenPath} {v : Verdict} → Judges nt value table v → verdict table ≡ v
  Judges-verdict no_entry = verdict-nil
  Judges-verdict (takes_it {p} {table} t e) = verdict-cons p table ∙ rw ((takes_iff p).1 t) (sym e)
  Judges-verdict (passes {p} {table} n j) = elim (Bool-cases (takes p)) [
    | inl t ↦ absurd (n ((takes_iff p).0 t))
    | inr f ↦ verdict-cons p table ∙ rw f (Judges-verdict j)
  ]

-- ValidateSetTokens gives a verdict exactly if the entries of the table, in order, give it: the first entry
-- that takes the normalised path and the value accepts them, with the path joined by dots and the entry's
-- own mark for many values, and if no entry does they are rejected.
pub validate_set_tokens_iff :
    (table : List TokenPath) (tokens : List String) (value : String) (v : Verdict)
    → (validate_set_tokens table tokens value ≡ v) ↔ Judges (normalize_tokens tokens) value table v
unfolding validate_set_tokens
validate_set_tokens_iff table tokens value v = (
  λ e.
      subst (Judges (normalize_tokens tokens) value table)
        (verdict_lem (normalize_tokens tokens) value table ∙ e)
        (verdict-Judges (normalize_tokens tokens) value table),
  λ k.
      sym (verdict_lem (normalize_tokens tokens) value table)
      ∙ Judges-verdict (normalize_tokens tokens) value k,
)
