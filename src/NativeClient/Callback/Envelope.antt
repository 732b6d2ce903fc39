-- ===== src/NativeClient/Callback/Envelope.antt =====
-- The envelope of a callback of native_client.py, and the kinds of reply to it.
use acp_proxy.Prelude.{
  pos, String, Bool, true, false, not, ◌&&◌, ◌||◌, Option, none, some, is_some, List, [], ◌∷◌, ◌++◌,
  ◌==◌, if◌then◌else◌, member, Result, ok, err, ◌>>◌, raise_if,
}
use acp_proxy.Json.{JsonValue, null, int, str, obj, Fields, end, field, get, object, array}
use acp_proxy.PermissionPolicy.{PermissionDecision}
use acp_proxy.WorkspaceTools.{WorkspaceOperation}
use acp_proxy.WorkspaceTools.Running.{WorkspaceResult}
use acp_proxy.NativeTransport.Admit.{only_keys}
use acp_proxy.NativeClient.Turn.{Turn, Recorded}

-- What a callback's work is: a reply at once, or the execution of an operation.
pub data Reply : Type 0 where
  replies : JsonValue → Reply
  executes : String → WorkspaceOperation → Reply

abbrev pub Called : Type 0
Called = Result String Reply × Turn

abbrev pub called : Recorded → (Turn → Called) → Called
called (none, t) next = next t
called (some text, t) next = (err text, t)

abbrev pub with_value : {A : Type 0} → Result String A → Turn → (A → Called) → Called
with_value (ok a) t next = next a
with_value (err text) t next = (err text, t)

abbrev pub tool_names : List String
tool_names = "workspace_create_files" ∷ "workspace_edit_files" ∷ "workspace_run_command" ∷ []

abbrev pub required_keys : List String
required_keys = "name" ∷ "input" ∷ "conversationId" ∷ "turnId" ∷ "roundId" ∷ "toolCallId" ∷ []

abbrev pub confirmation_keys : List String
confirmation_keys = "title" ∷ "message" ∷ "annotations" ∷ "toolMetadata" ∷ []

-- set(keys) <= fields.keys()
abbrev pub has_keys : List String → Fields → Bool
has_keys [] fields = true
has_keys (k ∷ ks) fields = is_some (get k fields) && has_keys ks fields

abbrev pub is_round : Option JsonValue → Bool
is_round (some (int (pos n))) = true
is_round _ = false

abbrev pub envelope_ok : Bool → Fields → Bool
envelope_ok confirmation params =
    has_keys required_keys params
    && only_keys (if confirmation then required_keys ++ confirmation_keys else required_keys) params
    && is_round (get "roundId" params)

-- data.pop(key), which must be one of `allowed`.
unfoldable pub drop_key : String → Fields → Fields
drop_key key end = end
drop_key key (field k v r) = let rest = drop_key key r in if k == key then rest else field k v rest

abbrev pub is_one_of : List String → Option JsonValue → Bool
is_one_of allowed none = true
is_one_of allowed (some (str s)) = member s allowed
is_one_of allowed (some _) = false

-- The input of a callback, without what a confirmation may add to it.
unfoldable pub input_of : Bool → Fields → Result String Fields
unfolding drop_key
input_of false fields = ok fields
input_of true fields = do
  raise_if (not (is_one_of ("safe_tool" ∷ "terminal" ∷ []) (get "toolType" fields)))
      "Unknown native confirmation tool type"
  raise_if (not (is_one_of ("sh" ∷ "powershell" ∷ "cmd" ∷ []) (get "commandLineType" fields)))
      "Unknown native command-line type"
  ok (drop_key "commandLineType" (drop_key "toolType" fields))

abbrev pub same_phase : String × Bool → String × Bool → Bool
same_phase (a, true) (b, true) = a == b
same_phase (a, false) (b, false) = a == b
same_phase _ _ = false

abbrev pub has_phase : String × Bool → List (String × Bool) → Bool
has_phase p [] = false
has_phase p (q ∷ qs) = same_phase q p || has_phase p qs

abbrev pub other_input : Option String → String → Bool
other_input none fingerprint = false
other_input (some prior) fingerprint = not (prior == fingerprint)

-- What is checked of a callback before it counts: its call, tool and input, and their fingerprint.
pub record Call : Type 0 where
  pub identifier : String
  pub name : String
  pub input : Fields
  pub fingerprint : String

-- The calls that a turn admits.
abbrev pub admits_calls : Turn → Bool
admits_calls t =
    t.begun && not t.ended && not t.rpc_ended && not t.overflow && not t.cancel_requested

abbrev pub status_of : WorkspaceResult → String → String
status_of result good = elim result.error [
  | none ↦ good
  | some code ↦ if code == "cancelled" then "cancelled" else "error"
]

-- What the client takes from elsewhere: `json_text`, `json.dumps` with sorted keys, the JSON and the text
-- of a result, and the texts of the errors of arguments.
pub record Texts : Type 0 where
  pub json_text : JsonValue → String
  pub sorted_text : JsonValue → String
  pub result_json : WorkspaceResult → JsonValue
  pub result_text : WorkspaceResult → String
  pub decision_json : PermissionDecision → JsonValue

abbrev pub tool_reply : Texts → WorkspaceResult → String → JsonValue
tool_reply x result status = array (
    obj (
      object (
        ("content", array (obj (object (("value", str (x.result_text result)) ∷ [])) ∷ []))
        ∷ ("status", str status)
        ∷ []))
    ∷ null
    ∷ [])

abbrev pub choice : Bool → JsonValue
choice accepted =
    array
      (obj (object (("result", str (if accepted then "accept" else "reject")) ∷ [])) ∷ null ∷ [])
