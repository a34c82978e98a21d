-- ===== src/Sqlite/Table.antt =====
-- A table of SQLite with a primary key, as internal/store uses it: `INSERT … ON CONFLICT DO UPDATE` of every
-- column, `DELETE` by key, and `SELECT`. What SQLite documents of them are the laws; any call may fail.
use crispy_garbanzo.Base.{
  String, Option, none, some, List, [], ◌∷◌, ◌==◌, if◌then◌else◌, ◌≡◌, Dict, lookup, values,
  NodupKeys, refl, ap, ◌∙◌, arith, eq_iff,
}

-- every row stands under its key
abbrev pub Keyed : {Row : Type 0} → (Row → String) → Dict Row → Type 0
Keyed key [] = Unit
Keyed key ((k, row) ∷ m) = (key row ≡ k) × Keyed key m

-- what a query gives: an error at once, an error after some rows, or all rows
pub data Rows (Row : Type 0) : Type 0 where
  no_rows : Rows Row
  broken_off : List Row → Rows Row
  all_rows : List Row → Rows Row

pub record Table (Row : Type 0) (key : Row → String) : Type 1 where
  pub State : Type 0
  pub rows : State → Dict Row
  pub upsert : Row → State → Option State
  pub delete : String → State → Option State
  pub select : State → Rows Row
  pub unique : (s : State) → NodupKeys (rows s)
  pub keyed : (s : State) → Keyed key (rows s)
  pub upserted :
      (row : Row) (s s' : State) (j : String)
      → upsert row s ≡ some s'
      → lookup j (rows s') ≡ (if key row == j then some row else lookup j (rows s))
  pub deleted :
      (k : String) (s s' : State) (j : String)
      → delete k s ≡ some s'
      → lookup j (rows s') ≡ (if k == j then none else lookup j (rows s))
  pub selected : (s : State) (rs : List Row) → select s ≡ all_rows rs → rs ≡ values (rows s)

abbrev pub map_option : {A B : Type 0} → (A → B) → Option A → Option B
map_option f none = none
map_option f (some a) = some (f a)

abbrev pub or_else : {A : Type 0} → Option A → Option A → Option A
or_else none o = o
or_else (some a) o = some a

-- the loop over the rows of a query, which hands each to a component
unfoldable pub take_all : {Row S : Type 0} → (Row → S → S) → List Row → S → S
take_all take [] s = s
take_all take (row ∷ rs) s = take_all take rs (take row s)

-- A component that takes rows in, one after another, and finds what it took by id.
module _ {Row S B : Type 0} (key : Row → String) (take : Row → S → S) (find : String → S → Option B)
    (kept : Row → B)
    (found : (row : Row) (j : String) (s : S)
      → find j (take row s) ≡ (if key row == j then some (kept row) else find j s)) where
  step :
      (k j : String) (row : Row) (m : Dict Row) (s : S)
      → key row ≡ k
      → lookup k m ≡ none
      → or_else (map_option kept (lookup j m)) (find j (take row s))
        ≡ or_else (map_option kept (lookup j ((k, row) ∷ m))) (find j s)
  unfolding lookup
  step k j row m s e fresh = ground (arith, eq_iff k j, found row j s, eq_iff (key row) j)

  pub find-take_all :
      (j : String) (m : Dict Row) (s : S)
      → NodupKeys m
      → Keyed key m
      → find j (take_all take (values m) s) ≡ or_else (map_option kept (lookup j m)) (find j s)
  unfolding take_all lookup
  find-take_all j [] s u n = refl
  find-take_all j ((k, row) ∷ m) s (fresh, u) (e, n) =
      find-take_all j m (take row s) u n ∙ step k j row m s e fresh

-- Two loads, of a table and of the table after a change: what they find differs as the rows do.
module _ {Row S B : Type 0} (key : Row → String) (T : Table Row key) (take : Row → S → S)
    (find : String → S → Option B) (kept : Row → B)
    (found : (row : Row) (j : String) (s : S)
      → find j (take row s) ≡ (if key row == j then some (kept row) else find j s)) where
  pub find-loaded :
      (j : String) (db : T.State) (rs : List Row) (s : S)
      → T.select db ≡ all_rows rs
      → find j (take_all take rs s) ≡ or_else (map_option kept (lookup j (T.rows db))) (find j s)
  find-loaded j db rs s e =
      ap (λ l. find j (take_all take l s)) (T.selected db rs e)
      ∙ find-take_all key take find kept found j (T.rows db) s (T.unique db) (T.keyed db)

  pub find-upserted :
      (j : String) (row : Row) (db db' : T.State) (rs rs' : List Row) (s : S)
      → T.upsert row db ≡ some db'
      → T.select db ≡ all_rows rs
      → T.select db' ≡ all_rows rs'
      → find j (take_all take rs' s)
        ≡ (if key row == j then some (kept row) else find j (take_all take rs s))
  find-upserted j row db db' rs rs' s u e e' =
      ground (arith, find-loaded j db rs s e, find-loaded j db' rs' s e', T.upserted row db db' j u)

  pub find-deleted :
      (j k : String) (db db' : T.State) (rs rs' : List Row) (s : S)
      → T.delete k db ≡ some db'
      → T.select db ≡ all_rows rs
      → T.select db' ≡ all_rows rs'
      → find j (take_all take rs' s) ≡ (if k == j then find j s else find j (take_all take rs s))
  find-deleted j k db db' rs rs' s d e e' =
      ground (arith, find-loaded j db rs s e, find-loaded j db' rs' s e', T.deleted k db db' j d)
