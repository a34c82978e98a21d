-- ===== src/Enforcer/Nftables/Rendered.antt =====
-- Which interfaces and which lines of source translation the rules name.
use crispy_garbanzo.Base.{
  String, true, Option, none, some, List, [], ◌∷◌, if◌then◌else◌, ◌≡◌, ◌≢◌, ◌↔◌, inl, inr, refl,
  sym, subst, arith, eq_iff, Bool-cases, Option-cases, Any, Any-map, Any-flat_map, flat_map-Any,
  map, flatten, to_lower, print,
}
use crispy_garbanzo.Base.Sort.{
  text_before, text_before_asym, sort, Ascending, sort-Ascending, Any-sort, sort-Any,
}
use crispy_garbanzo.Base.Value.{Value, Fields}
use crispy_garbanzo.Enforcer.Tree.{
  get_string, as_map, map_at, entries, value_of, to_string, equal_fold,
}
use crispy_garbanzo.Enforcer.Nftables.{
  wan_name, get_wan_ifaces, masquerade_line, source_nat_rule, rule_at, render_source_nat_rules,
}

-- A value is a map with the role "wan", in any case of letters.
abbrev pub IsWan : Value → Type 0
IsWan v =
    (m : Fields) × (as_map v ≡ some m) × (equal_fold (to_string (value_of m "role")) "wan" ≡ true)

abbrev pub WanNamed : String → String × Value → Type 0
WanNamed name p = (p.0 ≡ name) × IsWan p.1

module _ (name ifn : String) (v : Value) where
  wan_name-some :
      (m : Fields)
      → as_map v ≡ some m
      → wan_name (ifn, v)
        ≡ (if equal_fold (to_string (value_of m "role")) "wan" then ifn ∷ [] else [])
  unfolding wan_name
  wan_name-some m e = rw (e, wan_name)

  wan_name-none : as_map v ≡ none → wan_name (ifn, v) ≡ []
  unfolding wan_name
  wan_name-none e = rw (e, wan_name)

  WanNamed-wan_name : WanNamed name (ifn, v) → Any (λ s. s ≡ name) (wan_name (ifn, v))
  WanNamed-wan_name (e, (m, f, w)) = rw (wan_name-some m f, w) (inl e)

  wan_name-WanNamed : Any (λ s. s ≡ name) (wan_name (ifn, v)) → WanNamed name (ifn, v)
  wan_name-WanNamed h = elim (Option-cases (as_map v)) [
    | inl bad ↦ absurd (rw (wan_name-none bad) at h)
    | inr (m, f) ↦ elim (Bool-cases (equal_fold (to_string (value_of m "role")) "wan")) [
      | inl w ↦ (only (rw (wan_name-some m f, w) at h), (m, f, w))
      | inr other ↦ absurd (rw (wan_name-some m f, other) at h)
    ]
  ]
    where
      only : Any (λ s. s ≡ name) (ifn ∷ []) → ifn ≡ name
      only (inl e) = e
      only (inr h) = absurd h

-- The interfaces of the set that is blocked are in ascending order, and a name is among them exactly if the
-- configuration gives the Ethernet interface of that name the role "wan".
pub get_wan_ifaces_lem :
    (changes : Fields) (name : String)
    → Ascending text_before (get_wan_ifaces changes)
      × (Any (λ s. s ≡ name) (get_wan_ifaces changes)
          ↔ Any (WanNamed name) (entries (map_at changes ("interfaces" ∷ "ethernet" ∷ []))))
unfolding get_wan_ifaces
get_wan_ifaces_lem changes name =
    let eth = entries (map_at changes ("interfaces" ∷ "ethernet" ∷ [])) in
    let names = flatten (map wan_name eth) in
    (
      sort-Ascending text_before text_before_asym names,
      (
        λ h.
            Any-map (λ p. wan_name-WanNamed name p.0 p.1) eth
              (flat_map-Any (λ s. s ≡ name) wan_name eth
                (sort-Any text_before (λ s. s ≡ name) names h)),
        λ h.
            Any-sort text_before (λ s. s ≡ name) names
              (Any-flat_map (λ s. s ≡ name) wan_name eth
                (Any-map (λ p. WanNamed-wan_name name p.0 p.1) eth h)),
      ),
    )

-- A rule of the configuration asks for a line: it has an outbound interface and a source address, and its
-- translation address is "masquerade", in any case of letters.
abbrev pub Masquerades : String → Fields → Type 0
Masquerades line rule =
    (to_string (value_of rule "outbound_interface") ≢ "")
    × (get_string rule ("source" ∷ "address" ∷ []) ≢ "")
    × (to_lower (get_string rule ("translation" ∷ "address" ∷ [])) ≡ "masquerade")
    × (line
        ≡ print (
            "oifname \""
            ∷ to_string (value_of rule "outbound_interface")
            ∷ "\" ip saddr "
            ∷ get_string rule ("source" ∷ "address" ∷ [])
            ∷ " masquerade"
            ∷ []))

abbrev pub RuleLine : Fields → String → String × Value → Type 0
RuleLine rules line p = (rule : Fields) × (rule_at rules p.0 ≡ some rule) × Masquerades line rule

module _ (line : String) where
  masquerade_line-Any :
      (oif src xlat out : String)
      → out ≡ print ("oifname \"" ∷ oif ∷ "\" ip saddr " ∷ src ∷ " masquerade" ∷ [])
      → Any (λ s. s ≡ line) (masquerade_line oif src xlat)
        ↔ ((oif ≢ "") × (src ≢ "") × (to_lower xlat ≡ "masquerade") × (line ≡ out))
  unfolding masquerade_line
  masquerade_line-Any oif src xlat out e =
      ground (arith, eq_iff oif "", eq_iff src "", eq_iff (to_lower xlat) "masquerade")

  source_nat_rule-Any :
      (o : Option Fields)
      → Any (λ s. s ≡ line) (source_nat_rule o)
        ↔ ((rule : Fields) × (o ≡ some rule) × Masquerades line rule)
  unfolding source_nat_rule
  source_nat_rule-Any none = (λ h. absurd h, λ (r, e, m). cc)
  source_nat_rule-Any (some rule) =
      let oif = to_string (value_of rule "outbound_interface") in
      let src = get_string rule ("source" ∷ "address" ∷ []) in
      let xlat = get_string rule ("translation" ∷ "address" ∷ []) in
      let same = masquerade_line-Any oif src xlat _ refl in
      (
        λ h. (rule, refl, same.0 h),
        λ (r, e, m). same.1 (subst (Masquerades line) (rule_path r rule (sym e)) m),
      )
    where
      rule_path : (r s : Fields) → some r ≡ some s → r ≡ s
      rule_path r s e = cc

Any-keys :
    (P : String → Type 0) (es : List (String × Value))
    → Any P (map (λ (id, v). id) es) ↔ Any (λ p. P p.0) es
Any-keys P [] = (λ h. h, λ h. h)
Any-keys P ((k, v) ∷ es) =
    let same = Any-keys P es in
    (
      λ h. elim h [ inl p ↦ inl p | inr k ↦ inr (same.0 k) ],
      λ h. elim h [ inl p ↦ inl p | inr k ↦ inr (same.1 k) ],
    )

-- A line stands among the rules of source translation exactly if a rule of the configuration that is a map
-- asks for it.
pub render_source_nat_rules_lem :
    (changes : Fields) (line : String)
    → let rules = map_at changes ("nat" ∷ "source" ∷ "rule" ∷ []) in
      Any (λ s. s ≡ line) (render_source_nat_rules changes)
      ↔ Any (RuleLine rules line) (entries rules)
unfolding render_source_nat_rules
render_source_nat_rules_lem changes line =
    let rules = map_at changes ("nat" ∷ "source" ∷ "rule" ∷ []) in
    let ids = map (λ (id, v). id) (entries rules) in
    let of = λ (id : String). source_nat_rule (rule_at rules id) in
    (
      λ h.
          Any-map (λ p. (source_nat_rule-Any line (rule_at rules p.0)).0) (entries rules)
            ((Any-keys (λ id. Any (λ s. s ≡ line) (of id)) (entries rules)).0 (
              sort-Any text_before (λ id. Any (λ s. s ≡ line) (of id)) ids
                (flat_map-Any (λ s. s ≡ line) of (sort text_before ids) h))),
      λ h.
          Any-flat_map (λ s. s ≡ line) of (sort text_before ids)
            (Any-sort text_before (λ id. Any (λ s. s ≡ line) (of id)) ids
              ((Any-keys (λ id. Any (λ s. s ≡ line) (of id)) (entries rules)).1 (
                Any-map (λ p. (source_nat_rule-Any line (rule_at rules p.0)).1) (entries rules)
                  h))),
    )
