-- ===== src/Json.antt =====
-- json_types.py: the closed JSON domain, and the admission of outside objects into it.
pub mod Checked
use acp_proxy.Prelude.{String, ℤ, Bool, Option, none, some, List, [], ◌∷◌, ◌==◌, if◌then◌else◌}

-- A finite float is `m * 2 ^ e`.
mutual
  pub data JsonValue : Type 0 where
    null : JsonValue
    bool : Bool → JsonValue
    int : ℤ → JsonValue
    float : ℤ → ℤ → JsonValue
    str : String → JsonValue
    arr : Items → JsonValue
    obj : Fields → JsonValue

  pub data Items : Type 0 where
    nil : Items
    cons : JsonValue → Items → Items

  pub data Fields : Type 0 where
    end : Fields
    field : String → JsonValue → Fields → Fields

abbrev pub JsonObject : Type 0
JsonObject = Fields

abbrev pub object : List (String × JsonValue) → JsonObject
object [] = end
object ((k, v) ∷ r) = field k v (object r)

abbrev pub array : List JsonValue → JsonValue
array vs = arr (items vs)
  where
    items : List JsonValue → Items
    items [] = nil
    items (v ∷ r) = cons v (items r)

-- value.get(key)
unfoldable pub get : String → Fields → Option JsonValue
get k end = none
get k (field j v r) = if j == k then some v else get k r
