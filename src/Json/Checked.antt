-- ===== src/Json/Checked.antt =====
-- `checked_json` and `required_string` of json_types.py: outside objects are copied into the JSON domain
-- or refused.
use acp_proxy.Prelude.{
  String, ℤ, Bool, Option, none, some, ◌≡◌, refl, ◌↔◌, ◌==◌, if◌then◌else◌, arith,
}
use acp_proxy.Json.{
  JsonValue, null, bool, int, float, str, arr, obj, Items, nil, cons, Fields, end, field, get,
}

-- What a caller may hand over: a JSON value, or a float that is not finite, or another object; a
-- dictionary may have keys that are no texts.
mutual
  pub data PyValue : Type 0 where
    py_none : PyValue
    py_bool : Bool → PyValue
    py_int : ℤ → PyValue
    py_float : ℤ → ℤ → PyValue
    py_not_finite : PyValue
    py_str : String → PyValue
    py_list : PyItems → PyValue
    py_dict : PyFields → PyValue
    py_other : PyValue

  pub data PyItems : Type 0 where
    py_nil : PyItems
    py_cons : PyValue → PyItems → PyItems

  pub data PyFields : Type 0 where
    py_end : PyFields
    py_field : String → PyValue → PyFields → PyFields
    py_odd_key : PyValue → PyFields → PyFields

abbrev as_arr : Option Items → Option JsonValue
as_arr none = none
as_arr (some vs) = some (arr vs)

abbrev as_obj : Option Fields → Option JsonValue
as_obj none = none
as_obj (some fs) = some (obj fs)

abbrev both : Option JsonValue → Option Items → Option Items
both (some v) (some vs) = some (cons v vs)
both _ _ = none

abbrev with_key : String → Option JsonValue → Option Fields → Option Fields
with_key k (some v) (some fs) = some (field k v fs)
with_key k _ _ = none

-- `none` stands for the ValueError.
unfoldable mutual
  pub checked_json : PyValue → Option JsonValue
  checked_json py_none = some null
  checked_json (py_bool b) = some (bool b)
  checked_json (py_int n) = some (int n)
  checked_json (py_float m e) = some (float m e)
  checked_json py_not_finite = none
  checked_json (py_str t) = some (str t)
  checked_json (py_list vs) = as_arr (checked_items vs)
  checked_json (py_dict fs) = as_obj (checked_fields fs)
  checked_json py_other = none

  pub checked_items : PyItems → Option Items
  checked_items py_nil = some nil
  checked_items (py_cons v vs) = both (checked_json v) (checked_items vs)

  pub checked_fields : PyFields → Option Fields
  checked_fields py_end = some end
  checked_fields (py_field k v fs) = with_key k (checked_json v) (checked_fields fs)
  checked_fields (py_odd_key v fs) = none

-- A JSON value as the object that it is.
unfoldable mutual
  pub embed : JsonValue → PyValue
  embed null = py_none
  embed (bool b) = py_bool b
  embed (int n) = py_int n
  embed (float m e) = py_float m e
  embed (str t) = py_str t
  embed (arr vs) = py_list (embed_items vs)
  embed (obj fs) = py_dict (embed_fields fs)

  pub embed_items : Items → PyItems
  embed_items nil = py_nil
  embed_items (cons v vs) = py_cons (embed v) (embed_items vs)

  pub embed_fields : Fields → PyFields
  embed_fields end = py_end
  embed_fields (field k v fs) = py_field k (embed v) (embed_fields fs)

mutual
  unfolding checked_json embed

  kept : (v : JsonValue) → checked_json (embed v) ≡ some v
  kept null = refl
  kept (bool b) = refl
  kept (int n) = refl
  kept (float m e) = refl
  kept (str t) = refl
  kept (arr vs) = ground (arith, kept_items vs)
  kept (obj fs) = ground (arith, kept_fields fs)

  kept_items : (vs : Items) → checked_items (embed_items vs) ≡ some vs
  kept_items nil = refl
  kept_items (cons v vs) = ground (arith, kept v, kept_items vs)

  kept_fields : (fs : Fields) → checked_fields (embed_fields fs) ≡ some fs
  kept_fields end = refl
  kept_fields (field k v fs) = ground (arith, kept v, kept_fields fs)

mutual
  unfolding checked_json embed

  copied : (p : PyValue) (v : JsonValue) → checked_json p ≡ some v → p ≡ embed v
  copied py_none v h = ground arith
  copied (py_bool b) v h = ground arith
  copied (py_int n) v h = ground arith
  copied (py_float m e) v h = ground arith
  copied py_not_finite v h = ground arith
  copied (py_str t) v h = ground arith
  copied (py_list ps) (arr vs) h = ground (arith, copied_items ps vs)
  copied (py_list ps) v h = ground (arith, h)
  copied (py_dict ps) (obj fs) h = ground (arith, copied_fields ps fs)
  copied (py_dict ps) v h = ground (arith, h)
  copied py_other v h = ground arith

  copied_items : (ps : PyItems) (vs : Items) → checked_items ps ≡ some vs → ps ≡ embed_items vs
  copied_items py_nil vs h = ground arith
  copied_items (py_cons p ps) nil h = ground (arith, h)
  copied_items (py_cons p ps) (cons v vs) h = ground (arith, copied p v, copied_items ps vs)

  copied_fields : (ps : PyFields) (fs : Fields) → checked_fields ps ≡ some fs → ps ≡ embed_fields fs
  copied_fields py_end fs h = ground arith
  copied_fields (py_field k p ps) end h = ground (arith, h)
  copied_fields (py_field k p ps) (field j v fs) h = ground (arith, copied p v, copied_fields ps fs)
  copied_fields (py_odd_key p ps) fs h = ground arith

-- The admission succeeds on exactly the objects that are JSON values, and gives the value that they
-- are: nothing is coerced, dropped or reordered, at any depth.
pub checked_json_iff : (p : PyValue) (v : JsonValue) → (checked_json p ≡ some v) ↔ (p ≡ embed v)
checked_json_iff p v = (copied p v, λ e. rw e (kept v))

abbrev nonempty : JsonValue → Option String
nonempty (str t) = if t == "" then none else some t
nonempty _ = none

-- `required_string`.
unfoldable pub required_string : String → Fields → Option String
required_string key fields = elim (get key fields) [ none ↦ none | some v ↦ nonempty v ]
