-- ===== src/Ctl/Render.antt =====
-- cmd/clawgressctl/main.go: renderSetCommands. `fmt.Sprint` of a value is an argument, and `out`, which is only
-- appended to, is the result.
pub mod Printed
pub mod Lines
use crispy_garbanzo.Base.{
  String, Bool, List, [], ◌∷◌, ◌++◌, ◌==◌, if◌then◌else◌, map, flatten, replace_char, print,
}
use crispy_garbanzo.Base.Sort.{text_before, sort}
use crispy_garbanzo.Base.Value.{
  Value, null, flag, number, array, object, Items, no_items, item, Fields, no_fields, field,
}

unfoldable pub dot_path_to_command : String → String
unfolding replace_char
dot_path_to_command path = replace_char b'.' " " path

unfoldable pub extend : String → String → String
unfolding print
extend prefix k = if prefix == "" then k else print (prefix ∷ "." ∷ k ∷ [])

unfoldable pub key_before : String × List String → String × List String → Bool
unfolding text_before
key_before a b = text_before a.0 b.0

module _ (sprint : Value → String) where
  unfoldable pub set_command : String → Value → String
  unfolding dot_path_to_command print
  set_command prefix v = print ("set " ∷ dot_path_to_command prefix ∷ " " ∷ sprint v ∷ [])

  unfoldable pub item_commands : String → Items → List String
  unfolding set_command
  item_commands prefix no_items = []
  item_commands prefix (item v xs) = set_command prefix v ∷ item_commands prefix xs

  unfoldable mutual
    unfolding item_commands set_command extend key_before sort flatten

    pub render_set_commands : Value → String → List String
    render_set_commands (object fs) prefix =
        flatten (map (λ p. p.1) (sort key_before (render_fields fs prefix)))
    render_set_commands (array xs) prefix = item_commands prefix xs
    render_set_commands null prefix = set_command prefix null ∷ []
    render_set_commands (flag b) prefix = set_command prefix (flag b) ∷ []
    render_set_commands (number n) prefix = set_command prefix (number n) ∷ []
    render_set_commands (Value.string s) prefix = set_command prefix (Value.string s) ∷ []

    -- the lines of each key
    pub render_fields : Fields → String → List (String × List String)
    render_fields no_fields prefix = []
    render_fields (field k v fs) prefix =
        (k, render_set_commands v (extend prefix k)) ∷ render_fields fs prefix

  -- "show configuration commands"
  unfoldable pub command_lines : Fields → List String
  unfolding render_set_commands sort text_before
  command_lines cfg = sort text_before (render_set_commands (object cfg) "")
