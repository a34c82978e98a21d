-- ===== src/Ctl/Render/Lines.antt =====
-- Which lines "show configuration commands" prints.
use crispy_garbanzo.Base.{
  String, [], ◌∷◌, ◌==◌, ◌≡◌, ◌≢◌, ◌↔◌, ◌⊎◌, eq_iff, Bool-cases, print, replace_char, inl, inr,
  refl, sym, ◌∙◌, subst, Any,
}
use mathlib.Core.Bool.{false≢true}
use crispy_garbanzo.Base.Sort.{
  text_before, text_before_asym, sort, Ascending, sort-Ascending, All-sort, Any-sort,
}
use crispy_garbanzo.Base.Value.{Value, array, object, Items, Fields}
use crispy_garbanzo.Ctl.Render.{
  dot_path_to_command, extend, set_command, render_set_commands, command_lines,
}
use crispy_garbanzo.Ctl.Render.Printed.{
  Scalar, Holds, Binds, Printed, render-Printed, Printed-Any, member-Printed,
}

-- the path of a key under a prefix: the key alone if there is no prefix, else behind it and a dot
abbrev pub Below : String → String → String → Type 0
Below prefix k path =
    ((prefix ≡ "") × (path ≡ k)) ⊎ ((prefix ≢ "") × (path ≡ print (prefix ∷ "." ∷ k ∷ [])))

-- "set", the keys of the path with spaces for its dots, and the value
abbrev pub SetLine : (Value → String) → String → String → Value → Type 0
SetLine sprint line path v =
    line ≡ print ("set " ∷ replace_char b'.' " " path ∷ " " ∷ sprint v ∷ [])

-- The line of a leaf under a prefix: a scalar, or one of the values of an array, with the keys that lead to
-- it from the prefix.
pub data Leaf (sprint : Value → String) (line : String) : String → Value → Type 0 where
  scalar :
      {prefix : String} {v : Value}
      → Scalar v
      → SetLine sprint line prefix v
      → Leaf sprint line prefix v
  listed :
      {prefix : String} {xs : Items} {w : Value}
      → Holds w xs
      → SetLine sprint line prefix w
      → Leaf sprint line prefix (array xs)
  inside :
      {prefix path : String} {fs : Fields} {k : String} {w : Value}
      → Binds k w fs
      → Below prefix k path
      → Leaf sprint line path w
      → Leaf sprint line prefix (object fs)

extend-Below : (prefix k : String) → Below prefix k (extend prefix k)
unfolding extend
extend-Below prefix k = elim (Bool-cases (prefix == "")) [
  | inl e ↦ inl ((eq_iff prefix "").0 e, rw e refl)
  | inr n ↦ inr ((λ e. false≢true (sym n ∙ (eq_iff prefix "").1 e)), rw n refl)
]

Below-extend : (prefix k path : String) → Below prefix k path → extend prefix k ≡ path
unfolding extend
Below-extend prefix k path (inl (e, p)) = rw ((eq_iff prefix "").1 e) (sym p)
Below-extend prefix k path (inr (n, p)) = elim (Bool-cases (prefix == "")) [
  | inl e ↦ absurd (n ((eq_iff prefix "").0 e))
  | inr f ↦ rw f (sym p)
]

Printed-Leaf :
    (sprint : Value → String) {line prefix : String} {v : Value}
    → Printed sprint line prefix v
    → Leaf sprint line prefix v
unfolding set_command dot_path_to_command
Printed-Leaf sprint (Printed.scalar s e) = scalar s e
Printed-Leaf sprint (Printed.listed h e) = listed h e
Printed-Leaf sprint {line} {prefix} (Printed.inside {k} b l) =
    inside b (extend-Below prefix k) (Printed-Leaf sprint l)

Leaf-Printed :
    (sprint : Value → String) {line prefix : String} {v : Value}
    → Leaf sprint line prefix v
    → Printed sprint line prefix v
unfolding set_command dot_path_to_command
Leaf-Printed sprint (scalar s e) = Printed.scalar s e
Leaf-Printed sprint (listed h e) = Printed.listed h e
Leaf-Printed sprint {line} {prefix} (inside {path} {k} {w} b at l) = Printed.inside b (
    subst (λ t. Printed sprint line t w) (sym (Below-extend prefix k path at))
      (Leaf-Printed sprint l))

-- "show configuration commands" prints its lines in ascending order, and a line is printed exactly if it
-- is that of a leaf of the configuration: "set", the keys that lead to the leaf (their dots as spaces too),
-- and its value, all with spaces between them.
pub command_lines_lem :
    (sprint : Value → String) (cfg : Fields) (line : String)
    → Ascending text_before (command_lines sprint cfg)
      × (Any (λ l. l ≡ line) (command_lines sprint cfg) ↔ Leaf sprint line "" (object cfg))
unfolding command_lines
command_lines_lem sprint cfg line =
    let lines = render_set_commands sprint (object cfg) "" in
    (
      sort-Ascending text_before text_before_asym lines,
      (
        λ found. Printed-Leaf sprint (
            member-Printed sprint line (object cfg) "" (sort text_before lines)
              (All-sort text_before (λ l. Printed sprint l "" (object cfg)) lines
                (render-Printed sprint (object cfg) ""))
              found),
        λ l.
            Any-sort text_before (λ s. s ≡ line) lines (Printed-Any sprint (Leaf-Printed sprint l)),
      ),
    )
