-- ===== src/Enforcer/Nftables/Loaded.antt =====
-- The policies of the chains, and what an application of the rules leaves behind.
use crispy_garbanzo.Base.{
  String, Bool, true, false, some, List, [], ◌∷◌, ◌++◌, ◌==◌, ◌≡◌, ◌≢◌, ◌⊎◌, ◌↔◌, inl, inr, refl,
  sym, ◌∙◌, arith, eq_iff, Bool-cases, to_lower, trim_space,
}
use mathlib.Core.Bool.{false≢true}
use crispy_garbanzo.Base.Value.{Fields}
use crispy_garbanzo.Enforcer.Tree.{get_string}
use crispy_garbanzo.Enforcer.Nftables.{
  to_nft_policy, nft_policy_of, chain_policy, render_rules, Kernel, System, applied, nft_refused,
  load_rules, delete_table, apply_nftables,
}

drop_ne_accept : ("drop" == "accept") ≡ false
drop_ne_accept = refl

-- the cases of toNftPolicy
policy_cases :
    (v fallback : String)
    → ((v ≡ "accept") × (nft_policy_of v fallback ≡ "accept"))
      ⊎ (((v ≡ "drop") × (nft_policy_of v fallback ≡ "drop"))
          ⊎ ((v ≢ "accept") × (v ≢ "drop") × (nft_policy_of v fallback ≡ fallback)))
unfolding nft_policy_of
policy_cases v fallback = elim (Bool-cases (v == "accept")) [
  | inl a ↦ inl ((eq_iff v "accept").0 a, rw a ((eq_iff v "accept").0 a))
  | inr n ↦ elim (Bool-cases (v == "drop")) [
    | inl d ↦ inr (inl ((eq_iff v "drop").0 d, rw (n, d) ((eq_iff v "drop").0 d)))
    | inr m ↦ inr (
        inr (
          (λ e. false≢true (sym n ∙ (eq_iff v "accept").1 e)),
          (λ e. false≢true (sym m ∙ (eq_iff v "drop").1 e)),
          rw (n, m),
        ))
  ]
]

drop_is_not_accept : (v : String) → v ≡ "drop" → v ≢ "accept"
drop_is_not_accept v d a = false≢true (sym drop_ne_accept ∙ (eq_iff "drop" "accept").1 (sym d ∙ a))

-- the text that the configuration gives for a chain, in lower case and without spaces around it
abbrev pub configured : Fields → String → String
configured changes chain =
    to_lower
      (trim_space (get_string changes ("firewall" ∷ "nftables" ∷ chain ∷ "default_action" ∷ [])))

-- The policy of a chain is "accept" or "drop" if its fallback is one of them; it is "accept" exactly if the
-- configuration says so, or does not say "drop" where the fallback is "accept".
pub chain_policy_lem :
    (changes : Fields) (chain fallback : String)
    → (fallback ≡ "accept") ⊎ (fallback ≡ "drop")
    → ((chain_policy changes chain fallback ≡ "accept")
        ⊎ (chain_policy changes chain fallback ≡ "drop"))
      × ((chain_policy changes chain fallback ≡ "accept") ↔ (
          (configured changes chain ≡ "accept")
          ⊎ ((configured changes chain ≢ "drop") × (fallback ≡ "accept"))))
unfolding chain_policy to_nft_policy
chain_policy_lem changes chain fallback f =
    let v = configured changes chain in
    elim (policy_cases v fallback) [
      | inl (is, out) ↦ (inl out, (λ _. inl is, λ _. out))
      | inr (inl (is, out)) ↦ (
        inr out,
        (
          λ h. absurd (drop_is_not_accept _ out h),
          λ h. elim h [ inl a ↦ absurd (drop_is_not_accept v is a) | inr (n, e) ↦ absurd (n is) ],
        ),
      )
      | inr (inr (na, nd, out)) ↦ (
        elim f [ inl e ↦ inl (out ∙ e) | inr e ↦ inr (out ∙ e) ],
        (λ h. inr (nd, sym out ∙ h), λ h. elim h [ inl a ↦ absurd (na a) | inr (n, e) ↦ out ∙ e ]),
      )
    ]

-- the files of a table after its delete, which may have failed
abbrev pub Deleted : Bool → List String → List String → Type 0
Deleted deleted old new = ((deleted ≡ true) × (new ≡ [])) ⊎ ((deleted ≡ false) × (new ≡ old))

-- the files of a table after its delete and the load of one more
abbrev pub Reloaded : Bool → List String → String → List String → Type 0
Reloaded deleted old rules new =
    ((deleted ≡ true) × (new ≡ rules ∷ [])) ⊎ ((deleted ≡ false) × (new ≡ old ++ rules ∷ []))

-- What an application of the rules of a revision does.
pub record Application (sys : System) (changes : Fields) (execute : Bool) (k : Kernel)
    : Type 0 where
  pub applied_iff : ((apply_nftables sys changes execute k).1 ≡ applied) ↔ (
      (sys.directory_made ≡ true)
      × (sys.write_ok ≡ true)
      × (execute ≡ true)
      × (sys.nft_accepts ≡ true))
  pub file :
      ((sys.directory_made ≡ false)
        × ((apply_nftables sys changes execute k).0.rules_file ≡ k.rules_file))
      ⊎ ((sys.directory_made ≡ true)
          × (sys.write_ok ≡ false)
          × ((apply_nftables sys changes execute k).0.rules_file ≡ sys.left_behind))
      ⊎ ((sys.directory_made ≡ true)
          × (sys.write_ok ≡ true)
          × ((apply_nftables sys changes execute k).0.rules_file ≡ some (render_rules changes)))
  pub applied_rules :
      (apply_nftables sys changes execute k).1 ≡ applied
      → Reloaded sys.inet_deleted k.inet_files
          (render_rules changes)
          (apply_nftables sys changes execute k).0.inet_files
        × Reloaded sys.nat_deleted k.nat_files
            (render_rules changes)
            (apply_nftables sys changes execute k).0.nat_files
  pub refused_rules :
      (apply_nftables sys changes execute k).1 ≡ nft_refused
      → Deleted sys.inet_deleted k.inet_files (apply_nftables sys changes execute k).0.inet_files
        × Deleted sys.nat_deleted k.nat_files (apply_nftables sys changes execute k).0.nat_files
  pub otherwise :
      (apply_nftables sys changes execute k).1 ≢ applied
      → (apply_nftables sys changes execute k).1 ≢ nft_refused
      → ((apply_nftables sys changes execute k).0.inet_files ≡ k.inet_files)
        × ((apply_nftables sys changes execute k).0.nat_files ≡ k.nat_files)

pub delete_table-Deleted :
    (deleted : Bool) (files : List String) → Deleted deleted files (delete_table deleted files)
unfolding delete_table
delete_table-Deleted true files = inl (refl, refl)
delete_table-Deleted false files = inr (refl, refl)

pub delete_table-Reloaded :
    (deleted : Bool) (files : List String) (rules : String)
    → Reloaded deleted files rules (delete_table deleted files ++ rules ∷ [])
unfolding delete_table
delete_table-Reloaded true files rules = inl (refl, refl)
delete_table-Reloaded false files rules = inr (refl, refl)

-- ApplyNftables reports that the rules are applied exactly if the directory was made, the file was
-- written, it was to execute and nft took the file. Each table then has the rules of this file alone, or
-- behind those it had, if its delete failed; if nft refuses the file, each table has no rules of these files
-- any more, or those it had, if its delete failed; in every other case both tables stay. The file on disk
-- is the rendered text if it was written, what a failed write left, or as before without a directory.
pub apply_nftables-Application :
    (sys : System) (changes : Fields) (execute : Bool) (k : Kernel)
    → Application sys changes execute k
unfolding apply_nftables load_rules
apply_nftables-Application sys changes execute k =
    let inet = delete_table-Reloaded sys.inet_deleted k.inet_files (render_rules changes) in
    let nat = delete_table-Reloaded sys.nat_deleted k.nat_files (render_rules changes) in
    let no_inet = delete_table-Deleted sys.inet_deleted k.inet_files in
    let no_nat = delete_table-Deleted sys.nat_deleted k.nat_files in
    record {
      applied_iff = ground arith;
      file = ground arith;
      applied_rules = λ h. ground arith;
      refused_rules = λ h. ground arith;
      otherwise = λ h h'. ground arith;
    }
