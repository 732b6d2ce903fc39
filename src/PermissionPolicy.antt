-- ===== src/PermissionPolicy.antt =====
-- permission_policy.py and permission_handler.py: the explicit policy of a session, and its decisions.
use acp_proxy.Prelude.{
  String, pos, zero, suc, inl, inr, Option-cases, ◌≡◌, refl, Bool, true, false, not, ◌&&◌, Option,
  none, some, is_some, List, [], ◌∷◌, Result, ok, err, ◌>>=◌, ◌>>◌, raise_if, or_raise, member,
  ◌==◌, if◌then◌else◌, arith, eq_iff, eq_refl, ap, ◌∙◌, ◌↔◌,
}
use acp_proxy.Json.{JsonValue, int, str, bool, obj, Fields, end, field, JsonObject, object, get}
use acp_proxy.DirectState.{DirectError, value_error, key_error}
use acp_proxy.DirectProtocol.{Platform}

pub data PermissionAction : Type 0 where
  create edit command : PermissionAction

-- Version 1 and the mode "allow_all" are the only values that `__post_init__` admits.
pub data Policy : Type 0 where
  allow_all : Policy

abbrev keys : Fields → List String
keys end = []
keys (field k v fs) = k ∷ keys fs

abbrev subset : List String → List String → Bool
subset [] ns = true
subset (k ∷ ks) ns = member k ns && subset ks ns

-- set(value) == names
unfoldable pub has_exactly : List String → Fields → Bool
has_exactly names fields = subset (keys fields) names && subset names (keys fields)

abbrev is_one : JsonValue → Bool
is_one (int (pos (suc zero))) = true
is_one _ = false

abbrev is_text : String → JsonValue → Bool
is_text s (str t) = t == s
is_text s _ = false

fields_of : JsonValue → Result DirectError Fields
fields_of (obj fields) = ok fields
fields_of _ = err value_error

-- `PermissionPolicy.from_json`
unfoldable pub from_json : JsonValue → Result DirectError Policy
unfolding fields_of has_exactly
from_json value = do
  fields ← fields_of value
  raise_if (not (has_exactly ("version" ∷ "mode" ∷ []) fields)) value_error
  version ← or_raise (get "version" fields) key_error
  raise_if (not (is_one version)) value_error
  mode ← or_raise (get "mode" fields) key_error
  raise_if (not (is_text "allow_all" mode)) value_error
  ok allow_all

unfoldable pub as_json : Policy → JsonObject
as_json allow_all = object (("version", int (pos 1)) ∷ ("mode", str "allow_all") ∷ [])

-- `permits`, of an action that is a `PermissionAction`.
unfoldable pub permits : Policy → PermissionAction → Bool
permits allow_all action = true

abbrev action_value : PermissionAction → String
action_value create = "create"
action_value edit = "edit"
action_value command = "command"

pub record PermissionDecision : Type 0 where
  pub action : PermissionAction
  pub policy_digest : String
  pub allowed : Bool

unfoldable pub decision_json : PermissionDecision → JsonObject
decision_json d = object (
    ("action", str (action_value d.action))
    ∷ ("policy_digest", str d.policy_digest)
    ∷ ("allowed", bool d.allowed)
    ∷ [])

module _ (p : Platform) where
  unfoldable pub digest : Policy → String
  unfolding as_json
  digest policy = p.sha256 (p.dumps (obj (as_json policy)))

  unfoldable pub confirm : Policy → PermissionAction → PermissionDecision
  unfolding permits digest
  confirm policy action = record {
    action = action;
    policy_digest = digest policy;
    allowed = permits policy action;
  }

  -- `none` stands for the PermissionError.
  unfoldable pub authorize : Policy → PermissionAction → Option PermissionDecision
  unfolding confirm
  authorize policy action =
      let decision = confirm policy action in if decision.allowed then some decision else none

one : (v : JsonValue) → is_one v ≡ true → v ≡ int (pos 1)
one (int (pos (suc zero))) h = refl
one v h = ground (arith, h)

text : (v : JsonValue) → is_text "allow_all" v ≡ true → v ≡ str "allow_all"
text (str t) h = ground (arith, eq_iff t "allow_all")
text v h = ground (arith, h)

get-keys :
    (k : String) (fields : Fields) (names : List String)
    → subset (keys fields) names ≡ true
    → is_some (get k fields) ≡ true
    → member k names ≡ true
unfolding get
get-keys k end names h s = ground arith
get-keys k (field j v fs) names h s = ground (arith, get-keys k fs names, eq_iff j k)

-- The object that a policy is read from: the integer version 1, the mode "allow_all" and no other field.
abbrev pub IsPolicy : JsonValue → Type 0
IsPolicy value =
    (fields : Fields) × (value ≡ obj fields)
    × (get "version" fields ≡ some (int (pos 1)))
    × (get "mode" fields ≡ some (str "allow_all"))
    × ((k : String) → is_some (get k fields) ≡ true → member k ("version" ∷ "mode" ∷ []) ≡ true)

admitted-IsPolicy :
    (value : JsonValue) (policy : Policy) → from_json value ≡ ok policy → IsPolicy value
unfolding from_json fields_of has_exactly
admitted-IsPolicy (obj fields) policy h = elim (Option-cases (get "version" fields)) [
  | inl absent ↦ absurd (ground arith)
  | inr (v, there) ↦ elim (Option-cases (get "mode" fields)) [
    | inl absent ↦ absurd (ground arith)
    | inr (m, found) ↦ (
      fields,
      refl,
      ground (arith, one v),
      ground (arith, text m),
      λ k s. get-keys k fields ("version" ∷ "mode" ∷ []) (ground arith) s,
    )
  ]
]
admitted-IsPolicy value policy h = absurd (ground (arith, h))

get-member :
    (k : String) (fields : Fields) → member k (keys fields) ≡ true → is_some (get k fields) ≡ true
unfolding get
get-member k end h = h
get-member k (field j v fs) h = ground (arith, get-member k fs)

member-get :
    (k : String) (fields : Fields) → is_some (get k fields) ≡ true → member k (keys fields) ≡ true
unfolding get
member-get k end h = ground (arith, h)
member-get k (field j v fs) h = ground (arith, member-get k fs)

subset-member :
    (ks names : List String)
    → ((k : String) → member k ks ≡ true → member k names ≡ true)
    → subset ks names ≡ true
subset-member [] names h = refl
subset-member (k ∷ ks) names h =
    ground (arith, h k, eq_refl k, subset-member ks names (λ j m. h j (ground (arith, m))))

IsPolicy-admitted : (value : JsonValue) → IsPolicy value → from_json value ≡ ok allow_all
unfolding from_json fields_of has_exactly
IsPolicy-admitted value (fields, is_object, version, mode, only) =
    let few =
      subset-member (keys fields) ("version" ∷ "mode" ∷ [])
        (λ k m. only k (get-member k fields m)) in
    let v = member-get "version" fields (ground (arith, version)) in
    let m = member-get "mode" fields (ground (arith, mode)) in
    ap from_json is_object ∙ rw few (rw v (rw m (rw version (rw mode refl))))

-- A policy is admitted from an object with the integer version 1, the mode "allow_all" and no other
-- field, and from nothing else.
pub from_json-exact :
    (value : JsonValue) (policy : Policy) → (from_json value ≡ ok policy) ↔ IsPolicy value
from_json-exact value allow_all = (admitted-IsPolicy value allow_all, IsPolicy-admitted value)
