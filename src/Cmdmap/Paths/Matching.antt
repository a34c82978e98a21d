-- ===== src/Cmdmap/Paths/Matching.antt =====
-- Which paths fit the pattern of an entry.
use crispy_garbanzo.Base.{
  String, true, false, List, [], ◌∷◌, length, eqb, ◌≡◌, ◌≢◌, ◌↔◌, inl, inr, refl, arith, eq_iff,
  Bool-cases, and-split, Any, any_iff, split, contains_char,
}
use mathlib.Core.Bool.{false≢true}
use crispy_garbanzo.Cmdmap.Values.{is_placeholder, trim_angles}
use crispy_garbanzo.Cmdmap.Values.Accepted.{Placeholder, is_placeholder_iff, is_placeholder-false}
use crispy_garbanzo.Cmdmap.Paths.{
  TokenPath, normalize_tokens, match_token, match_each, match_pattern_tokens, entry_matches,
}

-- A token of a path in the place of a token of a pattern: any text but the empty one for a placeholder, one
-- of the alternatives where the token has a bar, and the token itself otherwise.
pub data FitsToken (pt vt : String) : Type 0 where
  hole : Placeholder pt → vt ≢ "" → FitsToken pt vt
  choice :
      ¬ Placeholder pt
      → contains_char b'|' pt ≡ true
      → Any (λ alt. vt ≡ alt) (split b'|' (trim_angles pt))
      → FitsToken pt vt
  exact : ¬ Placeholder pt → contains_char b'|' pt ≡ false → pt ≡ vt → FitsToken pt vt

-- Token by token, and as many of them.
pub data Fits : List String → List String → Type 0 where
  done : Fits [] []
  next :
      {pt vt : String} {pts vts : List String}
      → FitsToken pt vt
      → Fits pts vts
      → Fits (pt ∷ pts) (vt ∷ vts)

FitsToken-match : (pt vt : String) → match_token pt vt ≡ true → FitsToken pt vt
unfolding match_token
FitsToken-match pt vt h = elim (Bool-cases (is_placeholder pt)) [
  | inl any_text ↦ hole ((is_placeholder_iff pt).0 any_text) λ e. ground (arith, eq_iff vt "")
  | inr fixed ↦ elim (Bool-cases (contains_char b'|' pt)) [
    | inl bar ↦
        choice (is_placeholder-false pt fixed) bar
          ((any_iff (λ alt. eq_iff vt alt) (split b'|' (trim_angles pt))).0 (ground arith))
    | inr plain ↦ exact (is_placeholder-false pt fixed) plain ((eq_iff pt vt).0 (ground arith))
  ]
]

match-FitsToken : (pt vt : String) → FitsToken pt vt → match_token pt vt ≡ true
unfolding match_token
match-FitsToken pt vt (hole p n) =
    let e = (is_placeholder_iff pt).1 p in ground (arith, eq_iff vt "")
match-FitsToken pt vt (choice np bar a) =
    let a' = (any_iff (λ alt. eq_iff vt alt) (split b'|' (trim_angles pt))).1 a in
    elim (Bool-cases (is_placeholder pt)) [
      | inl p ↦ absurd (np ((is_placeholder_iff pt).0 p))
      | inr e ↦ rw (e, bar) a'
    ]
match-FitsToken pt vt (exact np plain e) = elim (Bool-cases (is_placeholder pt)) [
  | inl p ↦ absurd (np ((is_placeholder_iff pt).0 p))
  | inr f ↦ rw (f, plain) ((eq_iff pt vt).1 e)
]

Fits-match :
    (pts vts : List String)
    → eqb (length pts) (length vts) ≡ true
    → match_each pts vts ≡ true
    → Fits pts vts
unfolding match_each
Fits-match [] [] l h = done
Fits-match [] (v ∷ vts) l h = absurd (ground arith)
Fits-match (p ∷ pts) [] l h = absurd (false≢true h)
Fits-match (p ∷ pts) (v ∷ vts) l h =
    let (now, rest) = and-split (match_token p v) (match_each pts vts) h in
    next (FitsToken-match p v now) (Fits-match pts vts (ground arith) rest)

length-Fits : {pts vts : List String} → Fits pts vts → eqb (length pts) (length vts) ≡ true
length-Fits done = refl
length-Fits (next f fs) = ground (arith, length-Fits fs)

match_each-Fits : {pts vts : List String} → Fits pts vts → match_each pts vts ≡ true
unfolding match_each
match_each-Fits done = refl
match_each-Fits (next {pt} {vt} f fs) = rw (match-FitsToken pt vt f) (match_each-Fits fs)

-- matchPatternTokens answers true exactly if the path fits the pattern.
pub match_pattern_tokens_iff :
    (pattern' value : List String)
    → (match_pattern_tokens pattern' value ≡ true) ↔ Fits pattern' value
unfolding match_pattern_tokens
match_pattern_tokens_iff pattern' value = (
  λ h. elim (Bool-cases (eqb (length pattern') (length value))) [
    | inl l ↦ Fits-match pattern' value l (rw l at h)
    | inr l ↦ absurd (false≢true (rw l at h))
  ],
  λ f. rw (length-Fits f) (match_each-Fits f),
)

-- An entry of the table covers a path.
abbrev pub Covers : List String → TokenPath → Type 0
Covers tokens p = Fits (normalize_tokens p.tokens) tokens

pub entry_matches_iff :
    (tokens : List String) (p : TokenPath) → (entry_matches tokens p ≡ true) ↔ Covers tokens p
unfolding entry_matches
entry_matches_iff tokens p = match_pattern_tokens_iff (normalize_tokens p.tokens) tokens
