-- ===== src/Ctl/Render/Printed.antt =====
-- The lines of "show configuration commands", by the functions that print them.
use crispy_garbanzo.Base.{
  String, List, [], ◌∷◌, ◌≡◌, inl, inr, refl, sym, ap, ◌∙◌, subst, map, flatten, All, Any,
  All-flatten, All-map, Any-append_left, Any-append_right,
}
use crispy_garbanzo.Base.Sort.{sort, All-sort, Any-sort}
use crispy_garbanzo.Base.Value.{
  Value, null, flag, number, array, object, Items, no_items, item, Fields, no_fields, field,
}
use crispy_garbanzo.Ctl.Render.{
  extend, key_before, set_command, item_commands, render_set_commands, render_fields,
}

-- A value that is neither a map nor an array.
abbrev pub Scalar : Value → Type 0
Scalar (object fs) = ⊥
Scalar (array xs) = ⊥
Scalar null = Unit
Scalar (flag b) = Unit
Scalar (number n) = Unit
Scalar (Value.string s) = Unit

-- A value is one of an array.
pub data Holds (v : Value) : Items → Type 0 where
  first : {w : Value} {xs : Items} → w ≡ v → Holds v (item w xs)
  later : {w : Value} {xs : Items} → Holds v xs → Holds v (item w xs)

-- A key of a map with its value.
pub data Binds (k : String) (v : Value) : Fields → Type 0 where
  first : {j : String} {w : Value} {fs : Fields} → j ≡ k → w ≡ v → Binds k v (field j w fs)
  later : {j : String} {w : Value} {fs : Fields} → Binds k v fs → Binds k v (field j w fs)

Any-map_of {ℓ κ} :
    {A : Type ℓ} {B : Type κ} (P : B → Type 0) (f : A → B) (xs : List A)
    → Any (λ x. P (f x)) xs
    → Any P (map f xs)
Any-map_of P f [] h = h
Any-map_of P f (x ∷ xs) (inl p) = inl p
Any-map_of P f (x ∷ xs) (inr h) = inr (Any-map_of P f xs h)

All-map_of {ℓ κ} :
    {A : Type ℓ} {B : Type κ} (P : B → Type 0) (f : A → B) (xs : List A)
    → All (λ x. P (f x)) xs
    → All P (map f xs)
All-map_of P f [] h = h
All-map_of P f (x ∷ xs) (p, h) = (p, All-map_of P f xs h)

Any-flatten {ℓ} :
    {A : Type ℓ} (P : A → Type 0) (lists : List (List A))
    → Any (Any P) lists
    → Any P (flatten lists)
unfolding flatten
Any-flatten P [] h = h
Any-flatten P (xs ∷ lists) (inl p) = Any-append_left P xs (flatten lists) p
Any-flatten P (xs ∷ lists) (inr h) = Any-append_right P xs (flatten lists) (Any-flatten P lists h)

module _ (sprint : Value → String) where
  -- the same, by the functions that print the line
  pub data Printed (line : String) : String → Value → Type 0 where
    scalar :
        {prefix : String} {v : Value}
        → Scalar v
        → line ≡ set_command sprint prefix v
        → Printed line prefix v
    listed :
        {prefix : String} {xs : Items} {w : Value}
        → Holds w xs
        → line ≡ set_command sprint prefix w
        → Printed line prefix (array xs)
    inside :
        {prefix : String} {fs : Fields} {k : String} {w : Value}
        → Binds k w fs
        → Printed line (extend prefix k) w
        → Printed line prefix (object fs)

  -- the lines of one key of a map
  OfKey : String → Fields → String × List String → Type 0
  OfKey prefix fs p =
      All (λ line. (w : Value) × Binds p.0 w fs × Printed line (extend prefix p.0) w) p.1

  items-Printed :
      (prefix : String) (xs ys : Items)
      → ((w : Value) → Holds w ys → Holds w xs)
      → All (λ line. Printed line prefix (array xs)) (item_commands sprint prefix ys)
  unfolding item_commands
  items-Printed prefix xs no_items inc = tt
  items-Printed prefix xs (item v ys) inc =
      (listed (inc v (first refl)) refl, items-Printed prefix xs ys (λ w h. inc w (later h)))

  OfKey-later :
      (prefix j : String) (w : Value) (fs : Fields) (p : String × List String)
      → OfKey prefix fs p
      → OfKey prefix (field j w fs) p
  unfolding OfKey
  OfKey-later prefix j w fs p = All-map (λ line (x, b, l). (x, later b, l)) p.1

  OfKey-Printed :
      (prefix : String) (fs : Fields) (p : String × List String)
      → OfKey prefix fs p
      → All (λ line. Printed line prefix (object fs)) p.1
  unfolding OfKey
  OfKey-Printed prefix fs p = All-map (λ line (x, b, l). inside b l) p.1

  mutual
    unfolding render_set_commands render_fields OfKey

    pub render-Printed :
        (v : Value) (prefix : String)
        → All (λ line. Printed line prefix v) (render_set_commands sprint v prefix)
    render-Printed (object fs) prefix =
        All-flatten (λ line. Printed line prefix (object fs))
          (map (λ p. p.1) (sort key_before (render_fields sprint fs prefix)))
          (All-map_of (All (λ line. Printed line prefix (object fs))) (λ p. p.1)
            (sort key_before (render_fields sprint fs prefix))
            (All-sort key_before (λ p. All (λ line. Printed line prefix (object fs)) p.1)
              (render_fields sprint fs prefix)
              (All-map (OfKey-Printed prefix fs) (render_fields sprint fs prefix)
                (fields-OfKey fs prefix))))
    render-Printed (array xs) prefix = items-Printed prefix xs xs (λ w h. h)
    render-Printed null prefix = (scalar tt refl, tt)
    render-Printed (flag b) prefix = (scalar tt refl, tt)
    render-Printed (number n) prefix = (scalar tt refl, tt)
    render-Printed (Value.string s) prefix = (scalar tt refl, tt)

    fields-OfKey :
        (fs : Fields) (prefix : String) → All (OfKey prefix fs) (render_fields sprint fs prefix)
    fields-OfKey no_fields prefix = tt
    fields-OfKey (field k v fs) prefix = (
      All-map (λ line l. (v, first refl refl, l)) (render_set_commands sprint v (extend prefix k))
          (render-Printed v (extend prefix k)),
      All-map (OfKey-later prefix k v fs) (render_fields sprint fs prefix) (fields-OfKey fs prefix),
    )

  items-Any :
      (prefix line : String) (w : Value) (xs : Items)
      → Holds w xs
      → line ≡ set_command sprint prefix w
      → Any (λ l. l ≡ line) (item_commands sprint prefix xs)
  unfolding item_commands
  items-Any prefix line w no_items m h = elim m [ ]
  items-Any prefix line w (item v xs) (first e) h = inl (ap (set_command sprint prefix) e ∙ sym h)
  items-Any prefix line w (item v xs) (later m) h = inr (items-Any prefix line w xs m h)

  fields-Any :
      (prefix line k : String) (w : Value) (fs : Fields)
      → Binds k w fs
      → Any (λ l. l ≡ line) (render_set_commands sprint w (extend prefix k))
      → Any (λ p. Any (λ l. l ≡ line) p.1) (render_fields sprint fs prefix)
  unfolding render_fields
  fields-Any prefix line k w no_fields b h = elim b [ ]
  fields-Any prefix line k w (field j v fs) (first e f) h = inl (
      subst (λ x. Any (λ l. l ≡ line) (render_set_commands sprint x (extend prefix j))) (sym f)
        (subst (λ x. Any (λ l. l ≡ line) (render_set_commands sprint w (extend prefix x))) (sym e)
          h))
  fields-Any prefix line k w (field j v fs) (later b) h = inr (fields-Any prefix line k w fs b h)

  Scalar-line :
      (v : Value) (prefix line : String)
      → Scalar v
      → line ≡ set_command sprint prefix v
      → Any (λ l. l ≡ line) (render_set_commands sprint v prefix)
  unfolding render_set_commands
  Scalar-line (object fs) prefix line s e = absurd s
  Scalar-line (array xs) prefix line s e = absurd s
  Scalar-line null prefix line s e = inl (sym e)
  Scalar-line (flag b) prefix line s e = inl (sym e)
  Scalar-line (number n) prefix line s e = inl (sym e)
  Scalar-line (Value.string t) prefix line s e = inl (sym e)

  object-Any :
      (prefix line : String) (fs : Fields)
      → Any (λ p. Any (λ l. l ≡ line) p.1) (render_fields sprint fs prefix)
      → Any (λ l. l ≡ line) (render_set_commands sprint (object fs) prefix)
  unfolding render_set_commands
  object-Any prefix line fs h =
      Any-flatten (λ l. l ≡ line)
        (map (λ p. p.1) (sort key_before (render_fields sprint fs prefix)))
        (Any-map_of (Any (λ l. l ≡ line)) (λ p. p.1)
          (sort key_before (render_fields sprint fs prefix))
          (Any-sort key_before (λ p. Any (λ l. l ≡ line) p.1) (render_fields sprint fs prefix) h))

  array-line :
      (prefix : String) (xs : Items)
      → render_set_commands sprint (array xs) prefix ≡ item_commands sprint prefix xs
  unfolding render_set_commands
  array-line prefix xs = refl

  pub Printed-Any :
      {line prefix : String} {v : Value}
      → Printed line prefix v
      → Any (λ l. l ≡ line) (render_set_commands sprint v prefix)
  Printed-Any {line} {prefix} {v} (scalar s e) = Scalar-line v prefix line s e
  Printed-Any {line} {prefix} (listed {xs} {w} h e) =
      rw (array-line prefix xs) (items-Any prefix line w xs h e)
  Printed-Any {line} {prefix} (inside {fs} {k} {w} b l) =
      object-Any prefix line fs (fields-Any prefix line k w fs b (Printed-Any l))

  pub member-Printed :
      (line : String) (v : Value) (prefix : String) (lines : List String)
      → All (λ l. Printed l prefix v) lines
      → Any (λ l. l ≡ line) lines
      → Printed line prefix v
  member-Printed line v prefix [] a h = absurd h
  member-Printed line v prefix (l ∷ lines) (x, a) (inl e) = subst (λ s. Printed s prefix v) e x
  member-Printed line v prefix (l ∷ lines) (x, a) (inr h) = member-Printed line v prefix lines a h
