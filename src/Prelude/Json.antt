-- ===== src/Prelude/Json.antt =====
-- The JSON values that job payloads, progress and errors hold, and `dict` operations on objects.
use Prim.Native.Nat.{ℕ}
use Prim.Native.String.{String}
use mathlib.Core.Bool.{Bool}
use mathlib.Core.Option.{Option, none, some}
use semiconductor_intel.Prelude.Tests.{string_eq, ◌==◌, if◌then◌else◌}

mutual
  pub data Json : Type 0 where
    null : Json
    bool : Bool → Json
    num : ℕ → Json
    text : String → Json
    arr : Items → Json
    obj : Fields → Json

  pub data Items : Type 0 where
    nil : Items
    cons : Json → Items → Items

  pub data Fields : Type 0 where
    end : Fields
    field : String → Json → Fields → Fields

-- o.get(k)
unfoldable pub lookup : String → Fields → Option Json
lookup k end = none
lookup k (field j v o) = if j == k then some v else lookup k o

-- o[k] = v
unfoldable pub assign : String → Json → Fields → Fields
assign k v end = field k v end
assign k v (field j w o) = if j == k then field j v o else field j w (assign k v o)

-- {**base, **more}
unfoldable pub merge : Fields → Fields → Fields
merge base end = base
merge base (field k v more) = merge (assign k v base) more
