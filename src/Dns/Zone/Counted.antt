-- ===== src/Dns/Zone/Counted.antt =====
-- WriteRPZFile counts the names of the zone that it writes.

use Prim.Native.String.{[], ◌∷◌, char_at}
use crispy_garbanzo.Base.{
  ℕ, zero, suc, ◌+◌, ◌-◌, String, ◌<>◌, Bool, true, false, ◌||◌, some, List, ◌≡◌, refl, sym, ap,
  ◌∙◌, arith, map, select, length, All, All-append, ◌++◌, concat, split, contains_char, has_prefix,
  contains_text, pad_right, spaces, print, Faults, Disk, save_atomic,
}
use text.Mathlib.TextLemmas.{nil-append, cons-append}
use crispy_garbanzo.Base.Text.Laws.{has_prefix-nil}
use crispy_garbanzo.Base.Text.Split.{split-append}
use crispy_garbanzo.Policy.Rule.{Rule}
use crispy_garbanzo.Dns.Rpz.{zone_names}
use crispy_garbanzo.Dns.Zone.{
  RpzConfig, Clock, header_lines, name_line, unlines, zone_lines, generate_rpz, counts,
  count_denied, RpzResult, written, rpz_result, write_rpz_file,
}

abbrev OneLine : String → Type 0
OneLine s = contains_char 10 s ≡ false

concat-append : (s t : String) → concat s t ≡ s <> t
unfolding concat
concat-append [] t = sym (nil-append t)
concat-append (c ∷ s) t = ap (λ x. c ∷ x) (concat-append s t) ∙ sym (cons-append c s t)

contains_char-concat :
    (n : ℕ) (s t : String) → contains_char n (concat s t) ≡ (contains_char n s || contains_char n t)
unfolding concat contains_char
contains_char-concat n [] t = refl
contains_char-concat n (c ∷ s) t = ground (arith, contains_char-concat n s t)

contains_text-concat :
    (s t u : String) → contains_text t u ≡ true → contains_text (concat s t) u ≡ true
unfolding concat contains_text
contains_text-concat [] t u h = h
contains_text-concat (c ∷ s) t u h = ground (arith, contains_text-concat s t u h)

spaces-OneLine : (n : ℕ) → OneLine (spaces n)
unfolding spaces contains_char
spaces-OneLine zero = refl
spaces-OneLine (suc n) = spaces-OneLine n

pad_right-OneLine : (n : ℕ) (s : String) → OneLine s → OneLine (pad_right n s)
unfolding pad_right contains_char
pad_right-OneLine n [] h = spaces-OneLine n
pad_right-OneLine n (c ∷ s) h = ground (arith, pad_right-OneLine (n - 1) s)

-- the lines of a text made of lines
unlines-cons :
    (l : String) (lines : List String)
    → unlines (List.◌∷◌ l lines) ≡ l <> (char_at "\n" 0 ∷ unlines lines)
unfolding unlines print
unlines-cons l lines =
    concat-append l (concat "\n" (unlines lines)) ∙ ap (λ t. l <> t) (newline (unlines lines))
  where
    newline : (t : String) → concat "\n" t ≡ char_at "\n" 0 ∷ t
    newline t = refl

split-unlines :
    (lines : List String)
    → All OneLine lines
    → split 10 (unlines lines) ≡ lines ++ List.◌∷◌ "" List.[]
unfolding unlines
split-unlines List.[] a = unfold split in refl
split-unlines (List.◌∷◌ l lines) (one, a) =
    ap (split 10) (unlines-cons l lines)
    ∙ split-append (char_at "\n" 0) l (unlines lines) one
    ∙ ap (List.◌∷◌ l) (split-unlines lines a)

module _ (p : String → Bool) where
  counted : List String → ℕ
  counted lines = length (select p lines)

  counted-append : (xs ys : List String) → counted (xs ++ ys) ≡ counted xs + counted ys
  unfolding counted
  counted-append List.[] ys = omega arith
  counted-append (List.◌∷◌ x xs) ys = ground (arith, counted-append xs ys)

  counted-All : (xs : List String) → All (λ x. p x ≡ true) xs → counted xs ≡ length xs
  unfolding counted
  counted-All List.[] a = refl
  counted-All (List.◌∷◌ x xs) (h, a) = ground (arith, counted-All xs a)

  counted-none : (xs : List String) → All (λ x. p x ≡ false) xs → counted xs ≡ 0
  unfolding counted
  counted-none List.[] a = refl
  counted-none (List.◌∷◌ x xs) (h, a) = ground (arith, counted-none xs a)

-- A name that takes one line of the file, and whose line is no comment.
abbrev pub IsEntry : String → Type 0
IsEntry name = (contains_char 10 name ≡ false) × (has_prefix name ";" ≡ false)

name_line-OneLine : (name : String) → IsEntry name → OneLine (name_line name)
unfolding name_line print
name_line-OneLine name (one, _) =
    contains_char-concat 10 (pad_right 40 name) " CNAME ."
    ∙ rw (pad_right-OneLine 40 name one) (unfold contains_char in refl)

no_comment :
    (name t : String)
    → has_prefix name ";" ≡ false
    → has_prefix (concat (pad_right 40 name) t) ";" ≡ false
unfolding has_prefix pad_right spaces concat
no_comment [] t h = refl
no_comment (c ∷ s) t h =
    ground (arith, has_prefix-nil s, has_prefix-nil (concat (pad_right 39 s) t))

name_line-counts : (name : String) → IsEntry name → counts (name_line name) ≡ true
unfolding counts name_line print
name_line-counts name (_, entry) =
    let text =
      contains_text-concat (pad_right 40 name) " CNAME ." "CNAME ."
        (unfold contains_text has_prefix in refl) in
    rw (text, no_comment name " CNAME ." entry)

names-OneLine : (names : List String) → All IsEntry names → All OneLine (map name_line names)
names-OneLine List.[] a = tt
names-OneLine (List.◌∷◌ n names) (e, a) = (name_line-OneLine n e, names-OneLine names a)

names-counts :
    (names : List String) → All IsEntry names → All (λ l. counts l ≡ true) (map name_line names)
names-counts List.[] a = tt
names-counts (List.◌∷◌ n names) (e, a) = (name_line-counts n e, names-counts names a)

length-map {ℓ κ} :
    {A : Type ℓ} {B : Type κ} (f : A → B) (xs : List A) → length (map f xs) ≡ length xs
length-map f List.[] = refl
length-map f (List.◌∷◌ x xs) = ap suc (length-map f xs)

-- A line before the names that is one line, and does not count as a name.
abbrev pub IsHeader : String → Type 0
IsHeader l = (contains_char 10 l ≡ false) × (counts l ≡ false)

headers-OneLine : (ls : List String) → All IsHeader ls → All OneLine ls
headers-OneLine List.[] a = tt
headers-OneLine (List.◌∷◌ l ls) ((one, _), a) = (one, headers-OneLine ls a)

headers-counts : (ls : List String) → All IsHeader ls → All (λ l. counts l ≡ false) ls
headers-counts List.[] a = tt
headers-counts (List.◌∷◌ l ls) ((_, no'), a) = (no', headers-counts ls a)

blank-counts : counts "" ≡ false
unfolding counts contains_text has_prefix
blank-counts = refl

module _ (t : Clock) (rules : List Rule) (cfg : RpzConfig)
    (plain : All IsHeader (header_lines t cfg)) (entries : All IsEntry (zone_names rules)) where
  count_zone : count_denied (generate_rpz t rules cfg) ≡ length (zone_names rules)
  unfolding count_denied generate_rpz zone_lines counted
  count_zone =
      let head = header_lines t cfg in
      let names = map name_line (zone_names rules) in
      let lines = head ++ names in
      let one =
        All-append OneLine head names (headers-OneLine head plain)
          (names-OneLine (zone_names rules) entries) in
      ap (counted counts) (split-unlines lines one)
      ∙ counted-append counts lines (List.◌∷◌ "" List.[])
      ∙ omega (
        arith,
        counted-append counts head names,
        counted-none counts head (headers-counts head plain),
        counted-All counts names (names-counts (zone_names rules) entries),
        length-map name_line (zone_names rules),
        counted-none counts (List.◌∷◌ "" List.[]) (blank-counts, tt),
      )

write_rpz_file-result :
    (t : Clock) (f : Faults String) (path : String) (rules : List Rule) (cfg : RpzConfig)
    (d : Disk String) {r : RpzResult}
    → (write_rpz_file t f path rules cfg d).1 ≡ written r
    → (r ≡ rpz_result t path (generate_rpz t rules cfg) cfg)
      × ((write_rpz_file t f path rules cfg d).0.file ≡ some (generate_rpz t rules cfg))
unfolding write_rpz_file save_atomic
write_rpz_file-result t f path rules cfg d h = ground arith

-- When WriteRPZFile returns a result, the file is the generated zone, and the number of denied entries is that
-- of the names of the zone, if each of these takes one line and is no comment, and no line before them
-- counts as one.
pub write_rpz_file-Counted :
    (t : Clock) (f : Faults String) (path : String) (rules : List Rule) (cfg : RpzConfig)
    (d : Disk String) (r : RpzResult)
    → All IsHeader (header_lines t cfg)
    → All IsEntry (zone_names rules)
    → (write_rpz_file t f path rules cfg d).1 ≡ written r
    → ((write_rpz_file t f path rules cfg d).0.file ≡ some (generate_rpz t rules cfg))
      × (r.denied_count ≡ length (zone_names rules))
unfolding rpz_result
write_rpz_file-Counted t f path rules cfg d r plain entries h =
    let (result, file) = write_rpz_file-result t f path rules cfg d h in
    (
      file,
      ap (λ (x : RpzResult). x.denied_count) result
          ∙ denied t path rules cfg
          ∙ count_zone t rules cfg plain entries,
    )
  where
    denied :
        (t : Clock) (path : String) (rules : List Rule) (cfg : RpzConfig)
        → (rpz_result t path (generate_rpz t rules cfg) cfg).denied_count
          ≡ count_denied (generate_rpz t rules cfg)
    denied t path rules cfg = refl
