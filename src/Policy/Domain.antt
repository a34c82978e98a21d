-- ===== src/Policy/Domain.antt =====
-- internal/policy/engine.go: hosts and domain patterns. `split_host_port` is the host that Go's
-- `net.SplitHostPort` returns, `none` where it fails.
pub mod Laws
use crispy_garbanzo.Base.{
  ℕ, String, Bool, true, false, ◌&&◌, ◌||◌, not, Option, none, some, List, [], ◌∷◌, ◌==◌, eqb, any,
  if◌then◌else◌, has_prefix, has_suffix, drop_chars, contains_char, to_lower, trim_right,
  trim_space, before_char, split,
}
use Prim.Native.Char.{code}

-- the text behind the first character `n`
unfoldable pub after_char : ℕ → String → String
after_char n String.[] = ""
after_char n (String.◌∷◌ c s) = let rest = after_char n s in if eqb (code c) n then s else rest

-- what stands behind the `]` of a bracketed host has to be a colon and the port
bracket_port : String → String → Option String
bracket_port host String.[] = none
bracket_port host (String.◌∷◌ c port) =
    if not (eqb (code c) b':')
      || contains_char b':' port
      || contains_char b'[' host
      || contains_char b'[' port
      || contains_char b']' port
    then none
    else some host

bracketed : String → Option String
unfolding bracket_port
bracketed s =
    if contains_char b']' s then bracket_port (before_char b']' s) (after_char b']' s) else none

two_parts : List String → Option String
two_parts (host ∷ port ∷ []) = some host
two_parts _ = none

unbracketed : String → Option String
unfolding two_parts
unbracketed s =
    if contains_char b'[' s || contains_char b']' s then none else two_parts (split b':' s)

pub split_host_port : String → Option String
unfolding bracketed unbracketed
split_host_port String.[] = none
split_host_port (String.◌∷◌ c s) =
    if eqb (code c) b'[' then bracketed s else unbracketed (String.◌∷◌ c s)

unfoldable pub strip_port : String → String
unfolding split_host_port
strip_port hostport = elim (split_host_port hostport) [ none ↦ hostport | some host ↦ host ]

unfoldable pub is_dot : ℕ → Bool
is_dot n = eqb n b'.'

unfoldable pub sanitize_host : String → String
unfolding is_dot
sanitize_host host =
    let host = before_char 0 host in
    let host = trim_right is_dot host in let host = trim_space host in to_lower host

unfoldable pub match_domain : String → String → Bool
match_domain host pattern =
    let p = to_lower pattern in
    if p == "*"
    then true
    else if has_prefix p "*."
    then host == drop_chars 2 p || has_suffix host (drop_chars 1 p)
    else host == p

unfoldable pub match_domain_list : String → List String → Bool
unfolding match_domain
match_domain_list host [] = true
match_domain_list host (d ∷ ds) = any (match_domain host) (d ∷ ds)
