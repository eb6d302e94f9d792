-- ===== src/Prelude/Json.antt =====
-- JSON values as Python holds them after `json.loads`, and dictionaries of them.
use Prim.Native.Nat.{ℕ}
use Prim.Native.String.{String}
use mathlib.Core.Path.{◌≡◌, refl}
use mathlib.Core.Bool.{Bool}
use mathlib.Core.Option.{Option, none, some}
use native.Mathlib.Omega.{arith}
use text.Mathlib.TextEquality.{eq_iff}
use workflow_automation_engi.Prelude.Int.{ℤ}
use workflow_automation_engi.Prelude.Tests.{str_eq, if◌then◌else◌}

-- `float m k` is the finite double m / 2 ^ k.
mutual
  pub data Value : Type 0 where
    null : Value
    bool : Bool → Value
    int : ℤ → Value
    float : ℤ → ℕ → Value
    str : String → Value
    arr : Values → Value
    obj : Fields → Value

  pub data Values : Type 0 where
    none_left : Values
    item : Value → Values → Values

  pub data Fields : Type 0 where
    end : Fields
    field : String → Value → Fields → Fields

-- d.get(k)
unfoldable pub find : String → Fields → Option Value
find k end = none
find k (field j v d) = if str_eq j k then some v else find k d

-- d[k] = v: in place, or at the end
unfoldable pub assign : String → Value → Fields → Fields
assign k v end = field k v end
assign k v (field j w d) = if str_eq j k then field j v d else field j w (assign k v d)

-- d.update(other)
unfoldable pub update : Fields → Fields → Fields
update d end = d
update d (field k v other) = update (assign k v d) other

pub find-assign :
    (k j : String) (v : Value) (d : Fields)
    → find j (assign k v d) ≡ (if str_eq k j then some v else find j d)
unfolding find assign
find-assign k j v end = refl
find-assign k j v (field i w d) =
    ground (arith, eq_iff k j, eq_iff i k, eq_iff i j, find-assign k j v d)
