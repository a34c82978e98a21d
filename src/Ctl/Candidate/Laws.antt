-- ===== src/Ctl/Candidate/Laws.antt =====
-- What getByPath finds after setByPath.
use Prim.Native.String.{char_at}
use crispy_garbanzo.Base.{
  String, Bool, true, false, Option, none, some, List, [], ◌∷◌, ◌==◌, if◌then◌else◌, ◌≡◌, ◌≢◌, refl,
  sym, ap, ◌∙◌, arith, eq_iff, eq_refl, split,
}
use crispy_garbanzo.Base.Value.{
  Value, null, flag, number, array, object, Items, no_items, item, Fields, no_fields, field,
  field_at,
}
use crispy_garbanzo.Base.Text.Split.{split-IsCons, IsCons}
use crispy_garbanzo.Ctl.Candidate.{
  put, child_of, append_item, added, new_leaf, set_parts, set_by_path, get_parts, get_by_path,
}

pub field_at-put :
    (k j : String) (v : Value) (m : Fields)
    → field_at j (put k v m) ≡ (if k == j then some v else field_at j m)
unfolding put field_at
field_at-put k j v no_fields = refl
field_at-put k j v (field i w fs) =
    ground (arith, field_at-put k j v fs, eq_iff i k, eq_iff i j, eq_iff k j)

field_at-put_self : (k : String) (v : Value) (m : Fields) → field_at k (put k v m) ≡ some v
field_at-put_self k v m = field_at-put k k v m ∙ rw (eq_refl k)

-- Two paths that part at some key.
pub data Diverge : List String → List String → Type 0 where
  here : {j k : String} {p q : List String} → j ≢ k → Diverge (j ∷ p) (k ∷ q)
  under : {j k : String} {p q : List String} → j ≡ k → Diverge p q → Diverge (j ∷ p) (k ∷ q)

get_parts-some :
    (k : String) (ps : List String) (m : Fields) {v : Value}
    → field_at k m ≡ some v
    → get_parts (k ∷ ps) (object m) ≡ get_parts ps v
unfolding get_parts
get_parts-some k ps m e = rw (e, get_parts)

get_parts-none :
    (k : String) (ps : List String) (m : Fields)
    → field_at k m ≡ none
    → get_parts (k ∷ ps) (object m) ≡ none
unfolding get_parts
get_parts-none k ps m e = rw (e, get_parts)

get_parts-one : (k : String) (m : Fields) → get_parts (k ∷ []) (object m) ≡ field_at k m
unfolding get_parts
get_parts-one k m = ground arith

-- below a key: what is found in the map there, or in a new one
get_parts-child :
    (k p : String) (ps : List String) (m : Fields)
    → get_parts (k ∷ p ∷ ps) (object m) ≡ get_parts (p ∷ ps) (object (child_of (field_at k m)))
unfolding get_parts child_of field_at
get_parts-child k p ps m = at_child (field_at k m)
  where
    at_child :
        (o : Option Value)
        → elim o [ none ↦ none | some next ↦ get_parts (p ∷ ps) next ]
          ≡ get_parts (p ∷ ps) (object (child_of o))
    at_child none = refl
    at_child (some (object fs)) = refl
    at_child (some null) = refl
    at_child (some (flag b)) = refl
    at_child (some (number n)) = refl
    at_child (some (Value.string s)) = refl
    at_child (some (array xs)) = refl

-- After a value was set, it is found under its path; in append mode, together with what was found there.
get_parts-set_parts :
    (p : String) (ps : List String) (v : Value) (mode : Bool) (m : Fields)
    → get_parts (p ∷ ps) (object (set_parts (p ∷ ps) v mode m))
      ≡ some (new_leaf mode (get_parts (p ∷ ps) (object m)) v)
unfolding set_parts
get_parts-set_parts p [] v mode m =
    get_parts-one p _
    ∙ field_at-put_self p _ m
    ∙ ap (λ o. some (new_leaf mode o v)) (sym (get_parts-one p m))
get_parts-set_parts p (q ∷ ps) v mode m =
    get_parts-some p (q ∷ ps) _ (field_at-put_self p _ m)
    ∙ get_parts-set_parts q ps v mode (child_of (field_at p m))
    ∙ ap (λ o. some (new_leaf mode o v)) (sym (get_parts-child p q ps m))

-- the first key of a path decides, if the key that is written is another
get_parts-put_other :
    (k j : String) (qs : List String) (w : Value) (m : Fields)
    → k ≢ j
    → get_parts (j ∷ qs) (object (put k w m)) ≡ get_parts (j ∷ qs) (object m)
unfolding get_parts
get_parts-put_other k j qs w m n =
    let e : field_at j (put k w m) ≡ field_at j m =
      field_at-put k j w m ∙ ground (arith, eq_iff k j) in
    rw (e, get_parts)

get_parts-put_self :
    (k : String) (qs : List String) (w : Value) (m : Fields)
    → get_parts (k ∷ qs) (object (put k w m)) ≡ get_parts qs w
get_parts-put_self k qs w m = get_parts-some k qs (put k w m) (field_at-put_self k w m)

split_key :
    (key : String) (ps : List String) (v : Value) (mode : Bool) (m : Fields)
    → (w : Value) × (set_parts (key ∷ ps) v mode m ≡ put key w m)
unfolding set_parts
split_key key [] v mode m = (_, refl)
split_key key (p ∷ ps) v mode m = (_, refl)

set_parts-below :
    (k p : String) (ps : List String) (v : Value) (mode : Bool) (m : Fields)
    → set_parts (k ∷ p ∷ ps) v mode m
      ≡ put k (object (set_parts (p ∷ ps) v mode (child_of (field_at k m)))) m
unfolding set_parts
set_parts-below k p ps v mode m = refl

get_parts-Diverge :
    (p q : List String) (v : Value) (mode : Bool) (m : Fields)
    → Diverge p q
    → get_parts q (object (set_parts p v mode m)) ≡ get_parts q (object m)
get_parts-Diverge [] q v mode m d = elim d [ ]
get_parts-Diverge (j ∷ p) [] v mode m d = elim d [ ]
get_parts-Diverge (j ∷ []) (k ∷ q' ∷ q) v mode m (under e d) = elim d [ ]
get_parts-Diverge (j ∷ p' ∷ p) (k ∷ []) v mode m (under e d) = elim d [ ]
get_parts-Diverge (j ∷ p) (k ∷ q) v mode m (here n) =
    let (w, e) = split_key j p v mode m in
    ap (λ fs. get_parts (k ∷ q) (object fs)) e ∙ get_parts-put_other j k q w m n
get_parts-Diverge (j ∷ []) (k ∷ []) v mode m (under e d) = elim d [ ]
get_parts-Diverge (j ∷ p' ∷ p) (k ∷ q' ∷ q) v mode m (under e d) =
    ap (λ i. get_parts (k ∷ q' ∷ q) (object (set_parts (i ∷ p' ∷ p) v mode m))) e
    ∙ ap (λ o. get_parts (k ∷ q' ∷ q) (object o)) (set_parts-below k p' p v mode m)
    ∙ get_parts-put_self k (q' ∷ q) _ m
    ∙ get_parts-Diverge (p' ∷ p) (q' ∷ q) v mode (child_of (field_at k m)) d
    ∙ sym (get_parts-child k q' q m)

-- an array and the same one with a value behind its items
pub data Appended (v : Value) : Items → Items → Type 0 where
  at_end : Appended v no_items (item v no_items)
  behind : {x : Value} {xs ys : Items} → Appended v xs ys → Appended v (item x xs) (item x ys)

abbrev pub NotArray : Value → Type 0
NotArray (array xs) = ⊥
NotArray null = Unit
NotArray (flag b) = Unit
NotArray (number n) = Unit
NotArray (Value.string s) = Unit
NotArray (object fs) = Unit

-- what stands under a path after a set: the value; or in append mode an array of the value, the array that
-- was there with the value behind its items, or an array of what was there and the value
pub data NewLeaf (v : Value) : Bool → Option Value → Value → Type 0 where
  replaces : {old : Option Value} → NewLeaf v false old v
  first : NewLeaf v true none (array (item v no_items))
  appends : {xs ys : Items} → Appended v xs ys → NewLeaf v true (some (array xs)) (array ys)
  joins : {w : Value} → NotArray w → NewLeaf v true (some w) (array (item w (item v no_items)))

append_item-Appended : (v : Value) (xs : Items) → Appended v xs (append_item v xs)
unfolding append_item
append_item-Appended v no_items = at_end
append_item-Appended v (item x xs) = behind (append_item-Appended v xs)

new_leaf-NewLeaf :
    (v : Value) (mode : Bool) (old : Option Value) → NewLeaf v mode old (new_leaf mode old v)
unfolding new_leaf added
new_leaf-NewLeaf v false old = replaces
new_leaf-NewLeaf v true none = first
new_leaf-NewLeaf v true (some (array xs)) = appends (append_item-Appended v xs)
new_leaf-NewLeaf v true (some null) = joins tt
new_leaf-NewLeaf v true (some (flag b)) = joins tt
new_leaf-NewLeaf v true (some (number n)) = joins tt
new_leaf-NewLeaf v true (some (Value.string s)) = joins tt
new_leaf-NewLeaf v true (some (object fs)) = joins tt

-- After setByPath, getByPath finds under the path the value; in append mode it finds there an array of the
-- value alone if nothing was found before, the array that was found with the value behind its items, or
-- else an array of what was found and the value. It finds what it found before under every path that parts
-- from this one at some key.
pub get_by_path-set_by_path :
    (root : Fields) (path : String) (v : Value) (mode : Bool)
    → (leaf : Value) × NewLeaf v mode (get_by_path root path) leaf
      × (get_by_path (set_by_path root path v mode) path ≡ some leaf)
      × ((other : String)
          → Diverge (split b'.' path) (split b'.' other)
          → get_by_path (set_by_path root path v mode) other ≡ get_by_path root other)
unfolding get_by_path set_by_path
get_by_path-set_by_path root path v mode = (
  new_leaf mode (get_by_path root path) v,
  new_leaf-NewLeaf v mode (get_by_path root path),
  at_parts (split b'.' path) (split-IsCons (char_at "." 0) path),
  λ other d. get_parts-Diverge (split b'.' path) (split b'.' other) v mode root d,
)
  where
    at_parts :
        (ps : List String)
        → IsCons ps
        → get_parts ps (object (set_parts ps v mode root))
          ≡ some (new_leaf mode (get_parts ps (object root)) v)
    at_parts [] c = absurd c
    at_parts (p ∷ ps) c = get_parts-set_parts p ps v mode root
