-- ===== src/Base/Value.antt =====
-- Go's `any` as `encoding/json` fills it: the values of the `changes` of a revision.
use Prim.Native.String.{String}
use mathlib.Core.Bool.{Bool}
use mathlib.Core.Option.{Option, none, some}
use text.Mathlib.Text.{◌==◌}
use crispy_garbanzo.Base.Tests.{if◌then◌else◌}

mutual
  -- `map[string]any`, in an order of iteration
  pub data Fields : Type 0 where
    field : String → Value → Fields → Fields
    no_fields : Fields

  -- `[]any`
  pub data Items : Type 0 where
    item : Value → Items → Items
    no_items : Items

  pub data Value : Type 0 where
    object : Fields → Value
    array : Items → Value
    -- the decimal digits of a number's integer part, which is all that the program reads of one
    number : String → Value
    string : String → Value
    flag : Bool → Value
    null : Value

-- `m[k]`, with its `ok`
unfoldable pub field_at : String → Fields → Option Value
field_at k no_fields = none
field_at k (field j v fs) = if j == k then some v else field_at k fs
