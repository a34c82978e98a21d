-- ===== src/Sqlite/Tests.antt =====
-- A table in memory that keeps the laws of a table, and the theorems on loads with it.
use crispy_garbanzo.Base.{
  String, Option, none, some, List, [], ◌∷◌, ◌==◌, if◌then◌else◌, ◌≡◌, ◌⊎◌, ◌↔◌, refl, sym, ap, ◌∙◌,
  arith, Dict, lookup, insert, erase, values, NodupKeys, lookup-insert, lookup-erase,
  insert-NodupKeys, erase-NodupKeys, Any, to_lower, eqb,
}
use Prim.Native.Char.{code}
use crispy_garbanzo.Base.Text.{extend_first}
use crispy_garbanzo.Policy.Rule.{Rule, RequestContext}
use crispy_garbanzo.Policy.Engine
use crispy_garbanzo.Policy.Engine.Applies.{Applies}
use crispy_garbanzo.Policy.Domain.Laws.{Covers}
use crispy_garbanzo.Sqlite.Table.{Table, Keyed, Rows, no_rows, broken_off, all_rows, take_all}
use crispy_garbanzo.Sqlite.Store.{
  save_policy, take_policy, load_rows, policy_key, Json, rule_of, row_of, load_policies,
}
use crispy_garbanzo.Sqlite.Store.Reload.{
  saved, after, plain, change_policies, load_policies-change_policies, rule_of-row_of-Applies,
}

module _ {Row : Type 0} (key : Row → String) where
  insert-Keyed :
      (k : String) (row : Row) (m : Dict Row)
      → key row ≡ k
      → Keyed key m
      → Keyed key (insert k row m)
  unfolding insert
  insert-Keyed k row [] e n = (e, tt)
  insert-Keyed k row ((j, w) ∷ m) e (f, n) = ground (arith, insert-Keyed k row m e n)

  erase-Keyed : (k : String) (m : Dict Row) → Keyed key m → Keyed key (erase k m)
  unfolding erase
  erase-Keyed k [] n = tt
  erase-Keyed k ((j, w) ∷ m) (f, n) = ground (arith, erase-Keyed k m n)

abbrev Memory : {Row : Type 0} → (Row → String) → Type 0
Memory {Row} key = (m : Dict Row) × NodupKeys m × Keyed key m

module _ {Row : Type 0} (key : Row → String) where
  abbrev held : Option (Memory key) → Dict Row
  held none = []
  held (some s) = s.0

  abbrev given : Rows Row → List Row
  given (all_rows rs) = rs
  given no_rows = []
  given (broken_off rs) = []

  abbrev put : Row → Memory key → Memory key
  put row s = (
    insert (key row) row s.0,
    insert-NodupKeys (key row) row s.0 s.1,
    insert-Keyed key (key row) row s.0 refl s.2,
  )

  abbrev dropped : String → Memory key → Memory key
  dropped k s = (erase k s.0, erase-NodupKeys k s.0 s.1, erase-Keyed key k s.0 s.2)

  put_lem :
      (row : Row) (s s' : Memory key) (j : String)
      → some (put row s) ≡ some s'
      → lookup j s'.0 ≡ (if key row == j then some row else lookup j s.0)
  put_lem row s s' j e = ap (λ x. lookup j (held x)) (sym e) ∙ lookup-insert (key row) j row s.0

  dropped_lem :
      (k : String) (s s' : Memory key) (j : String)
      → some (dropped k s) ≡ some s'
      → lookup j s'.0 ≡ (if k == j then none else lookup j s.0)
  dropped_lem k s s' j e = ap (λ x. lookup j (held x)) (sym e) ∙ lookup-erase k j s.0

  given_lem : (m : Dict Row) (rs : List Row) → all_rows (values m) ≡ all_rows rs → rs ≡ values m
  given_lem m rs e = sym (ap given e)

  abbrev memory : Table Row key
  memory = record {
    State = Memory key;
    rows = λ s. s.0;
    upsert = λ row s. some (put row s);
    delete = λ k s. some (dropped k s);
    select = λ s. all_rows (values s.0);
    unique = λ s. s.1;
    keyed = λ s. s.2;
    upserted = put_lem;
    deleted = dropped_lem;
    selected = λ s. given_lem s.0;
  }

abbrev rule : Rule
rule = record {
  policy_id = "p1";
  agent_id = "*";
  domains = "example.com" ∷ [];
  methods = "GET" ∷ [];
  path_prefixes = [];
  conditions = [];
  action = "allow";
}

-- A code of lists of texts: "." before a character, ";" after a text.
quote : String → String → String
quote String.[] rest = String.◌∷◌ ";" rest
quote (String.◌∷◌ c s) rest = String.◌∷◌ "." (String.◌∷◌ c (quote s rest))

encode : List String → String
encode [] = ""
encode (d ∷ ds) = quote d (encode ds)

decode : String → List String
decode String.[] = []
decode (String.◌∷◌ c String.[]) = "" ∷ []
decode (String.◌∷◌ c (String.◌∷◌ e s)) =
    if eqb (code c) 59 then "" ∷ decode (String.◌∷◌ e s) else extend_first e (decode s)

decode-end : (rest : String) → decode (String.◌∷◌ ";" rest) ≡ "" ∷ decode rest
unfolding decode
decode-end String.[] = refl
decode-end (String.◌∷◌ e s) = refl

decode-quote : (d rest : String) → decode (quote d rest) ≡ d ∷ decode rest
unfolding quote decode extend_first
decode-quote String.[] rest = decode-end rest
decode-quote (String.◌∷◌ c s) rest = ap (extend_first c) (decode-quote s rest)

decode-encode : (ds : List String) → decode (encode ds) ≡ ds
unfolding encode decode
decode-encode [] = refl
decode-encode (d ∷ ds) = decode-quote d (encode ds) ∙ ap (λ x. d ∷ x) (decode-encode ds)

abbrev json : Json
json = record { marshal = encode; unmarshal = λ s. some (decode s) }

read_back : (ds : List String) → json.unmarshal (json.marshal ds) ≡ some ds
read_back ds = ap some (decode-encode ds)

abbrev no_rules : Engine.Engine
no_rules = record { rules = [] }

-- an empty table
abbrev blank : {Row : Type 0} → (key : Row → String) → Memory key
blank key = ([], tt, tt)

load_policies-change_policies_example :
    Engine.lookup_by_id "p1" (Engine.add (rule_of json (row_of json rule)) no_rules)
    ≡ after
        (λ (r : Rule). r.policy_id)
        plain
        (saved rule)
        "p1"
        (Engine.lookup_by_id "p1" no_rules)
        (Engine.lookup_by_id "p1" no_rules)
unfolding change_policies load_policies save_policy load_rows take_all take_policy insert
load_policies-change_policies_example =
    load_policies-change_policies (memory policy_key) json (saved rule) (blank policy_key)
      (put policy_key (row_of json rule) (blank policy_key)) no_rules no_rules
      (Engine.add (rule_of json (row_of json rule)) no_rules) "p1" read_back refl refl refl

abbrev post_context : RequestContext
post_context = record {
  agent_id = "a1";
  destination = "example.com";
  method = "POST";
  path = "/";
  environment = "";
  team_id = "";
  project_id = "";
}

rule_of-row_of-Applies_example :
    Applies post_context "example.com" (rule_of json (row_of json rule)) ↔ (
      ((rule.agent_id ≡ "*") ⊎ (rule.agent_id ≡ "") ⊎ (rule.agent_id ≡ "a1"))
      × ((rule.domains ≡ []) ⊎ Any (λ d. Covers (to_lower d) "example.com") rule.domains))
rule_of-row_of-Applies_example =
    rule_of-row_of-Applies json rule post_context "example.com" (read_back rule.domains)
