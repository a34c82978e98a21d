-- ===== src/Dns/Rpz/Names.antt =====
-- Which names a zone has.
use crispy_garbanzo.Base.{
  String, ◌<>◌, Bool, true, false, ◌&&◌, ◌||◌, not, List, [], ◌∷◌, ◌==◌, if◌then◌else◌, any, ◌≡◌,
  ◌≢◌, ◌⊎◌, ◌↔◌, inl, inr, sym, ap, ◌∙◌, arith, eq_iff, Bool-cases, Any, any_iff, has_prefix,
  drop_chars,
}
use mathlib.Core.Bool.{false≢true}
use crispy_garbanzo.Base.Text.Laws.{has_prefix-split, has_prefix-append}
use crispy_garbanzo.Policy.Domain.Laws.{drop_wild}
use crispy_garbanzo.Policy.Rule.{Rule}
use crispy_garbanzo.Base.Once.{Distinct, mem, add_once, mem-add_once, Distinct-add_once}
use crispy_garbanzo.Dns.Rpz.{domain_names, all_domain_names, rule_names, zone_names}

-- A rule denies a name: by a domain that is the name, or is "*." and the name.
abbrev pub Denies : String → Rule → Type 0
Denies name r =
    (r.action ≡ "deny") × Any (λ d. (d ≢ "*") × ((d ≡ name) ⊎ (d ≡ "*." <> name))) r.domains

abbrev entry : String → String → Bool
entry n d = not (d == "*") && (d == n || d == "*." <> n)

wild_of : (d : String) → has_prefix d "*." ≡ true → d ≡ "*." <> drop_chars 2 d
wild_of d h =
    let (base, e) = has_prefix-split d "*." h in
    e ∙ ap (λ t. "*." <> t) (sym (ap (drop_chars 2) e ∙ drop_wild base))

wild-entry : (n d : String) → has_prefix d "*." ≡ true → (drop_chars 2 d ≡ n) ↔ (d ≡ "*." <> n)
wild-entry n d h =
    (λ e. wild_of d h ∙ ap (λ t. "*." <> t) e, λ e. ap (drop_chars 2) e ∙ drop_wild n)

plain-entry : (n d : String) → has_prefix d "*." ≡ false → d ≢ "*." <> n
plain-entry n d h e =
    absurd (false≢true (sym h ∙ (ap (λ t. has_prefix t "*.") e ∙ has_prefix-append "*." n)))

or_assoc : (x y z : Bool) → x || y || z ≡ (x || (y || z))
or_assoc x y z = ground arith

or_swap : (m base wild : Bool) → m || base || wild ≡ (m || (wild || base))
or_swap m base wild = ground arith

wild_entry :
    (n d : String)
    → has_prefix d "*." ≡ true
    → ((drop_chars 2 d == n) ≡ (d == "*." <> n)) × (("*." <> drop_chars 2 d == n) ≡ (d == n))
wild_entry n d h = (
  ground (arith, wild-entry n d h, eq_iff (drop_chars 2 d) n, eq_iff d ("*." <> n)),
  ap (λ t. t == n) (sym (wild_of d h)),
)

mem-domain_names :
    (n d : String) (seen : List String) → mem n (domain_names d seen) ≡ (mem n seen || entry n d)
unfolding domain_names
mem-domain_names n d seen = elim (Bool-cases (d == "*")) [
  | inl all ↦ rw all (ground arith)
  | inr some_name ↦ elim (Bool-cases (has_prefix d "*.")) [
    | inl wild ↦
        let (base, whole) = wild_entry n d wild in
        rw (some_name, wild)
          (mem-add_once n ("*." <> drop_chars 2 d) (add_once (drop_chars 2 d) seen)
            ∙ ap (λ t. t || "*." <> drop_chars 2 d == n) (mem-add_once n (drop_chars 2 d) seen)
            ∙ or_swap (mem n seen) (drop_chars 2 d == n) ("*." <> drop_chars 2 d == n)
            ∙ ap (λ t. mem n seen || (t || drop_chars 2 d == n)) whole
            ∙ ap (λ t. mem n seen || (d == n || t)) base)
    | inr plain ↦
        let apart : (d == "*." <> n) ≡ false =
          ground (arith, plain-entry n d plain, eq_iff d ("*." <> n)) in
        rw (some_name, plain) (mem-add_once n d seen ∙ rw apart (ground arith))
  ]
]

mem-all_domain_names :
    (n : String) (ds : List String) (seen : List String)
    → mem n (all_domain_names ds seen) ≡ (mem n seen || any (entry n) ds)
unfolding all_domain_names
mem-all_domain_names n [] seen = ground arith
mem-all_domain_names n (d ∷ ds) seen =
    mem-all_domain_names n ds (domain_names d seen)
    ∙ ap (λ t. t || any (entry n) ds) (mem-domain_names n d seen)
    ∙ or_assoc (mem n seen) (entry n d) (any (entry n) ds)

abbrev denies : String → Rule → Bool
denies n r = r.action == "deny" && any (entry n) r.domains

rule_step :
    (n : String) (r : Rule) (seen : List String)
    → mem n (if r.action == "deny" then all_domain_names r.domains seen else seen)
      ≡ (mem n seen || denies n r)
rule_step n r seen = elim (Bool-cases (r.action == "deny")) [
  | inl deny ↦ rw deny (mem-all_domain_names n r.domains seen)
  | inr other ↦ rw other (ground arith)
]

mem-rule_names :
    (n : String) (rules : List Rule) (seen : List String)
    → mem n (rule_names rules seen) ≡ (mem n seen || any (denies n) rules)
unfolding rule_names
mem-rule_names n [] seen = ground arith
mem-rule_names n (r ∷ rules) seen =
    mem-rule_names n rules (if r.action == "deny" then all_domain_names r.domains seen else seen)
    ∙ ap (λ t. t || any (denies n) rules) (rule_step n r seen)
    ∙ or_assoc (mem n seen) (denies n r) (any (denies n) rules)

entry_iff : (n d : String) → (entry n d ≡ true) ↔ ((d ≢ "*") × ((d ≡ n) ⊎ (d ≡ "*." <> n)))
entry_iff n d = ground (arith, eq_iff d "*", eq_iff d n, eq_iff d ("*." <> n))

denies_iff : (n : String) (r : Rule) → (denies n r ≡ true) ↔ Denies n r
denies_iff n r = ground (arith, eq_iff r.action "deny", any_iff (entry_iff n) r.domains)

Distinct-domain_names :
    (dom : String) (seen : List String) → Distinct seen → Distinct (domain_names dom seen)
unfolding domain_names
Distinct-domain_names dom seen d = elim (Bool-cases (dom == "*")) [
  | inl all ↦ rw all d
  | inr some_name ↦ elim (Bool-cases (has_prefix dom "*.")) [
    | inl wild ↦
        rw (some_name, wild)
          (Distinct-add_once ("*." <> drop_chars 2 dom) (add_once (drop_chars 2 dom) seen)
            (Distinct-add_once (drop_chars 2 dom) seen d))
    | inr plain ↦ rw (some_name, plain) (Distinct-add_once dom seen d)
  ]
]

Distinct-all_domain_names :
    (ds : List String) (seen : List String) → Distinct seen → Distinct (all_domain_names ds seen)
unfolding all_domain_names
Distinct-all_domain_names [] seen d = d
Distinct-all_domain_names (e ∷ ds) seen d =
    Distinct-all_domain_names ds (domain_names e seen) (Distinct-domain_names e seen d)

Distinct-rule_names :
    (rules : List Rule) (seen : List String) → Distinct seen → Distinct (rule_names rules seen)
unfolding rule_names
Distinct-rule_names [] seen d = d
Distinct-rule_names (r ∷ rules) seen d = elim (Bool-cases (r.action == "deny")) [
  | inl deny ↦ rw deny (
      Distinct-rule_names rules (all_domain_names r.domains seen)
        (Distinct-all_domain_names r.domains seen d))
  | inr other ↦ rw other (Distinct-rule_names rules seen d)
]

-- A zone has no name twice, and it has a name exactly if a rule that denies has a domain other than "*"
-- that is the name, or is "*." and the name.
pub zone_names_lem :
    (rules : List Rule) (name : String)
    → Distinct (zone_names rules)
      × (Any (λ s. s ≡ name) (zone_names rules) ↔ Any (Denies name) rules)
unfolding zone_names
zone_names_lem rules name =
    let same = mem-rule_names name rules [] in
    (
      Distinct-rule_names rules [] tt,
      (
        λ h.
            (any_iff (denies_iff name) rules).0
              (sym same ∙ (any_iff (λ s. eq_iff s name) (rule_names rules [])).1 h),
        λ h.
            (any_iff (λ s. eq_iff s name) (rule_names rules [])).0
              (same ∙ (any_iff (denies_iff name) rules).1 h),
      ),
    )
