-- ===== src/Dns/Zone.antt =====
-- internal/dns/rpz.go: the text of a zone, its file, and the snippet for named. The readings of the clock and
-- the printing of a time are arguments.
pub mod Counted
use crispy_garbanzo.Base.{
  ℕ, ◌+◌, ◌%◌, ◌^◌, String, Bool, true, false, ◌&&◌, not, Option, none, some, List, [], ◌∷◌, ◌++◌,
  ◌==◌, if◌then◌else◌, map, select, length, eqb, has_prefix, contains_text, pad_right, split, print,
  flatten, ℤ, pos, negsuc, Faults, Disk, IoError, save_atomic,
}
use crispy_garbanzo.Base.Digits.{itoa, itoa_ℤ}
use crispy_garbanzo.Policy.Rule.{Rule}
use crispy_garbanzo.Dns.Rpz.{zone_names}

-- a uint32 and an int
pub record RpzConfig : Type 0 where
  pub zone_name : String
  pub soa_contact : String
  pub ttl : ℤ
  pub serial : ℕ

-- the readings of the clock, in seconds, in their order, and `Format(time.RFC3339)`
pub record Clock : Type 0 where
  pub at_serial : ℕ
  pub at_comment : ℕ
  pub at_result : ℕ
  pub at_answer : ℕ
  pub format : ℕ → String

unfoldable pub or_text : String → String → String
or_text s fallback = if s == "" then fallback else s

unfoldable pub or_ttl : ℤ → ℤ
or_ttl (pos Prim.Native.Nat.zero) = pos 60
or_ttl (pos (Prim.Native.Nat.suc n)) = pos (Prim.Native.Nat.suc n)
or_ttl (negsuc n) = negsuc n

-- a serial of 0 stands for the time
unfoldable pub serial_at : ℕ → ℕ → ℕ
serial_at serial now = if eqb serial 0 then now % 2 ^ 32 else serial

-- the lines before the names
unfoldable pub header_lines : Clock → RpzConfig → List String
unfolding or_text or_ttl serial_at itoa itoa_ℤ print
header_lines t cfg =
    let zone = or_text cfg.zone_name "rpz.clawgress.local" in
    let contact = or_text cfg.soa_contact "admin.clawgress.local" in
    let ttl = itoa_ℤ (or_ttl cfg.ttl) in
    print ("; RPZ zone generated by Clawgress at " ∷ t.format t.at_comment ∷ [])
    ∷ print ("$TTL " ∷ ttl ∷ [])
    ∷ print ("@ IN SOA " ∷ zone ∷ ". " ∷ contact ∷ ". (" ∷ [])
    ∷ print ("    " ∷ itoa (serial_at cfg.serial t.at_serial) ∷ " ; serial" ∷ [])
    ∷ "    3600   ; refresh"
    ∷ "    600    ; retry"
    ∷ "    86400  ; expire"
    ∷ print ("    " ∷ ttl ∷ "     ; minimum TTL" ∷ [])
    ∷ ")"
    ∷ print ("@ IN NS " ∷ zone ∷ "." ∷ [])
    ∷ ""
    ∷ []

unfoldable pub name_line : String → String
unfolding pad_right print
name_line name = print (pad_right 40 name ∷ " CNAME ." ∷ [])

-- every line with its newline
unfoldable pub unlines : List String → String
unfolding print
unlines [] = ""
unlines (l ∷ lines) = print (l ∷ "\n" ∷ unlines lines ∷ [])

unfoldable pub zone_lines : Clock → List Rule → RpzConfig → List String
unfolding header_lines name_line zone_names
zone_lines t rules cfg = header_lines t cfg ++ map name_line (zone_names rules)

unfoldable pub generate_rpz : Clock → List Rule → RpzConfig → String
unfolding zone_lines unlines
generate_rpz t rules cfg = unlines (zone_lines t rules cfg)

unfoldable pub counts : String → Bool
unfolding contains_text has_prefix
counts line = contains_text line "CNAME ." && not (has_prefix line ";")

unfoldable pub count_denied : String → ℕ
unfolding counts split
count_denied content = length (select counts (split 10 content))

pub record RpzResult : Type 0 where
  pub zone_path : String
  pub denied_count : ℕ
  pub serial : ℕ
  pub generated_at : String

-- the file with its temporary neighbour, and the result or the error
pub data Written : Type 0 where
  written : RpzResult → Written
  failed : IoError → Written

unfoldable pub rpz_result : Clock → String → String → RpzConfig → RpzResult
unfolding count_denied serial_at
rpz_result t path content cfg = record {
  zone_path = path;
  denied_count = count_denied content;
  serial = serial_at cfg.serial t.at_result;
  generated_at = t.format t.at_answer;
}

unfoldable pub write_rpz_file :
    Clock → Faults String → String → List Rule → RpzConfig → Disk String → Disk String × Written
unfolding save_atomic generate_rpz rpz_result
write_rpz_file t f path rules cfg d =
    let (d', error) = save_atomic f (generate_rpz t rules cfg) d in
    (
      d',
      elim error [
        | none ↦ written (rpz_result t path (generate_rpz t rules cfg) cfg)
        | some e ↦ failed e
      ],
    )

unfoldable pub generate_named_conf : String → String → String
unfolding or_text print
generate_named_conf zone path =
    let z = or_text zone "rpz.clawgress.local" in
    let p = or_text path "/etc/bind/db.rpz.clawgress" in
    print (
      "// Clawgress RPZ zone — auto-generated, do not edit\nzone \"" ∷ z
      ∷ "\" {\n    type master;\n    file \"" ∷ p
      ∷ "\";\n    allow-query { any; };\n};\n\noptions {\n    response-policy {\n        zone \""
      ∷ z ∷ "\";\n    };\n};\n" ∷ [])
