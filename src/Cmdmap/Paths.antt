-- ===== src/Cmdmap/Paths.antt =====
-- internal/cmdmap/token_paths.go: the table of token paths and what it accepts. The table itself is the
-- embedded command_schema.json, here an argument.
pub mod Matching
pub mod Validation
use crispy_garbanzo.Base.{
  ℕ, String, Bool, true, false, ◌&&◌, ◌||◌, not, List, [], ◌∷◌, ◌==◌, if◌then◌else◌, any, select,
  length, map, eqb, replace_char, trim_space, contains_char, split, join, print,
}
use crispy_garbanzo.Base.Sort.{text_before, sort}
use crispy_garbanzo.Cmdmap.Values.{is_placeholder, trim_angles, validate_value_token}

pub record TokenPath : Type 0 where
  pub kind : String
  pub tokens : List String
  pub value_token : String
  pub description : String
  pub multi : Bool

unfoldable pub set_token_paths : List TokenPath → List TokenPath
set_token_paths table = select (λ t. t.kind == "set") table

unfoldable pub show_token_paths : List TokenPath → List TokenPath
show_token_paths table = select (λ t. t.kind == "show") table

unfoldable pub normalize_tokens : List String → List String
unfolding replace_char trim_space
normalize_tokens tokens = map (λ t. replace_char b'-' "_" (trim_space t)) tokens

-- one round of the loop over a pattern
unfoldable pub match_token : String → String → Bool
unfolding is_placeholder trim_angles contains_char split
match_token pt vt =
    if is_placeholder pt
    then not (vt == "")
    else if contains_char b'|' pt
    then any (λ alt. vt == alt) (split b'|' (trim_angles pt))
    else pt == vt

-- the loop; the lengths agree
unfoldable pub match_each : List String → List String → Bool
unfolding match_token
match_each [] value = true
match_each (pt ∷ pattern') [] = false
match_each (pt ∷ pattern') (vt ∷ value) = match_token pt vt && match_each pattern' value

unfoldable pub match_pattern_tokens : List String → List String → Bool
unfolding match_each
match_pattern_tokens pattern' value =
    if eqb (length pattern') (length value) then match_each pattern' value else false

-- an entry whose pattern a path fits
unfoldable pub entry_matches : List String → TokenPath → Bool
unfolding match_pattern_tokens normalize_tokens
entry_matches tokens p = match_pattern_tokens (normalize_tokens p.tokens) tokens

unfoldable pub match_set : List TokenPath → String → Bool
unfolding set_token_paths entry_matches normalize_tokens trim_space split
match_set table path =
    if trim_space path == ""
    then false
    else any (entry_matches (normalize_tokens (split b'.' (trim_space path))))
        (set_token_paths table)

unfoldable pub is_multi_path : List TokenPath → String → Bool
unfolding set_token_paths entry_matches normalize_tokens trim_space split
is_multi_path table path =
    if trim_space path == ""
    then false
    else any (λ p. p.multi && entry_matches (normalize_tokens (split b'.' (trim_space path))) p)
        (set_token_paths table)

-- what ValidateSetTokens returns
pub data Verdict : Type 0 where
  accepted : String → Bool → Verdict
  rejected : Verdict

unfoldable pub first_accepting : List TokenPath → List String → String → Verdict
unfolding entry_matches validate_value_token join
first_accepting [] nt value = rejected
first_accepting (tp ∷ table) nt value =
    let rest = first_accepting table nt value in
    if not (entry_matches nt tp)
    then rest
    else if not (validate_value_token tp.value_token value)
    then rest
    else accepted (join "." nt) tp.multi

unfoldable pub validate_set_tokens : List TokenPath → List String → String → Verdict
unfolding first_accepting normalize_tokens set_token_paths
validate_set_tokens table tokens value =
    first_accepting (set_token_paths table) (normalize_tokens tokens) value

pub record Stats : Type 0 where
  pub set_count : ℕ
  pub show_count : ℕ
  pub total : ℕ

unfoldable pub command_schema_stats : List TokenPath → Stats
unfolding set_token_paths show_token_paths
command_schema_stats table = record {
  set_count = length (set_token_paths table);
  show_count = length (show_token_paths table);
  total = Prim.Native.Nat.◌+◌ (length (set_token_paths table)) (length (show_token_paths table));
}

-- the key by which DedupSorted tells entries apart
unfoldable pub dedup_key : TokenPath → String
unfolding print join
dedup_key p = print (p.kind ∷ ":" ∷ join "/" p.tokens ∷ ":" ∷ p.value_token ∷ [])

unfoldable pub dedup_paths : List String → List TokenPath → List TokenPath
unfolding dedup_key
dedup_paths seen [] = []
dedup_paths seen (p ∷ paths) =
    let rest = p ∷ dedup_paths (dedup_key p ∷ seen) paths in
    let without = dedup_paths seen paths in
    if any (λ k. k == dedup_key p) seen then without else rest

unfoldable pub path_before : TokenPath → TokenPath → Bool
unfolding text_before join
path_before a b =
    if not (a.kind == b.kind)
    then text_before a.kind b.kind
    else text_before (join " " a.tokens) (join " " b.tokens)

unfoldable pub dedup_sorted : List TokenPath → List TokenPath
unfolding dedup_paths path_before sort
dedup_sorted paths = sort path_before (dedup_paths [] paths)
