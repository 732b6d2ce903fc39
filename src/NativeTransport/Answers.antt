-- ===== src/NativeTransport/Answers.antt =====
-- What a response does to the futures of the requests, of native_transport.py.
use acp_proxy.Prelude.{
  ℕ, ◌≡◌, Bool, true, false, not, ◌&&◌, Option, none, some, eqb, ℤ, if◌then◌else◌, String, ◌⊎◌, ◌≢◌,
}
use acp_proxy.Json.{JsonValue, int, str, obj, Fields, get}
use acp_proxy.NativeTransport.State.{
  TransportError, Future, value, failed, rpc_failed, PendingRequest, handler_error, is_done,
  Transport, find,
}
use acp_proxy.NativeTransport.Settled.{future_at}
use acp_proxy.NativeTransport.Admit.{RpcResponse, Owner, outcome_of, refuses, is_observed, observe}

-- An RPC error that is well-formed.
abbrev pub IsRpcError : JsonValue → Fields → Type 0
IsRpcError v fields =
    (v ≡ obj fields)
    × ((code : ℤ) × (get "code" fields ≡ some (int code)))
    × ((message : String) × (get "message" fields ≡ some (str message)))

-- The outcome that a response asks for: the failure of its observer, if that raised; if not, its value;
-- or, of an error, that error, or a failure if it is malformed.
abbrev pub Answered : Option String → (is_error : Bool) → JsonValue → Future → Type 0
Answered (some text) is_error v f = f ≡ failed (handler_error text)
Answered none false v f = f ≡ value v
Answered none true v f =
    ((fields : Fields) × IsRpcError v fields × (f ≡ rpc_failed fields))
    ⊎ ((fields : Fields) → ¬ (IsRpcError v fields)) × ((e : TransportError) × (f ≡ failed e))

-- A request that was sent and waits for its response.
abbrev pub Waits : PendingRequest → Type 0
Waits r = (r.pending ≡ true) × (r.sent ≡ true) × (is_done r.future ≡ false)

module _ {C : Type 0} (owner : Owner C) (n : ℕ) (response : RpcResponse) (t : Transport)
    (c : C) where
  -- What the observer of a request raises.
  abbrev pub raised_by : PendingRequest → Option String
  raised_by r = if r.observed then (owner.observer c n response).0 else none

  -- The request `r` waits for the response and is settled by it, in the transport `u`.
  pub record SettledBy (u : Transport) (r : PendingRequest) : Type 0 where
    pub found : find n t.requests ≡ some r
    pub waits : Waits r
    pub outcome : Future
    pub is_set : future_at n u ≡ some outcome
    pub answered : Answered (raised_by r) response.is_error response.value outcome
    pub others : (k : ℕ) → n ≢ k → future_at k u ≡ future_at k t

  -- No request waits for the response, and no future changes.
  pub record Unsettled (u : Transport) : Type 0 where
    pub none_waits : (r : PendingRequest) → find n t.requests ≡ some r → ¬ (Waits r)
    pub unchanged : (k : ℕ) → future_at k u ≡ future_at k t

  -- The future at `k` after the response, of what was found at `n`.
  abbrev future_after : Option PendingRequest → ℕ → Option Future
  future_after o k =
      if not (refuses o) && eqb n k
      then some (outcome_of response (observe owner (is_observed o) c n response).0).0
      else future_at k t
