-- ===== src/NativeTransport/Dispatch.antt =====
-- The cases of `_admit`: a message is refused, or handed to a handler, or starts a callback, or is the response to a
-- request.
use acp_proxy.Prelude.{
  ℕ, ◌≡◌, ◌&&◌, Option, none, some, is_some, [], ◌∷◌, ℤ, pos, negsuc, String, arith, Bool-cases,
  inl, inr,
}
use acp_proxy.Json.{JsonValue, str, Fields, get}
use acp_proxy.NativeTransport.State.{Identity, number, name, Transport}
use acp_proxy.NativeTransport.Admit.{
  NativeRequest, NativeNotification, RpcResponse, Owner, only_keys, is_text, or_null,
  admit_response, admit_notification, admit_request, admit_call, with_method, one_outcome,
  by_number, without_method, by_method, checked, by_identity, admit,
}

-- What holds of a transport, and of it after any response and any callback, holds after any message.
module _ {C : Type 0} (owner : Owner C) (t : Transport) (P : Transport → Type 0) (same : P t)
    (responds : (n : ℕ) (response : RpcResponse) (c : C)
      → P (admit_response owner n response t c).1)
    (calls : (m : NativeRequest) (c : C) → P (admit_request owner m t c).1) where
  notifies : (m : NativeNotification) (c : C) → (admit_notification owner m t c).1 ≡ t
  unfolding admit_notification
  notifies m c = ground arith

  admit_call-Reaches :
      (i : Option Identity) (method : String) (params : JsonValue) (c : C)
      → P (admit_call owner i method params t c).1
  admit_call-Reaches none method params c =
      rw (notifies (record { method = method; params = params }) c) same
  admit_call-Reaches (some i) method params c = calls _ c

  with_method-Reaches :
      (i : Option Identity) (method : JsonValue) (message : Fields) (c : C)
      → P (with_method owner i method message t c).1
  with_method-Reaches i (str method) message c =
      elim (Bool-cases (only_keys ("jsonrpc" ∷ "id" ∷ "method" ∷ "params" ∷ []) message)) [
        | inl fine ↦ rw fine (admit_call-Reaches i method _ c)
        | inr malformed ↦ rw malformed same
      ]
  with_method-Reaches i _ message c = same

  by_number-Reaches :
      (n : ℤ) (response : RpcResponse) (c : C) → P (by_number owner n response t c).1
  by_number-Reaches (pos k) response c = responds k response c
  by_number-Reaches (negsuc k) response c = same

  without_method-Reaches :
      (i : Option Identity) (message : Fields) (c : C) → P (without_method owner i message t c).1
  without_method-Reaches (some (number n)) message c =
      elim (Bool-cases (
        only_keys ("jsonrpc" ∷ "id" ∷ "result" ∷ "error" ∷ []) message
        && one_outcome owner (is_some (get "result" message)) (is_some (get "error" message)))) [
          | inl fine ↦ rw fine (by_number-Reaches n _ c)
          | inr malformed ↦ rw malformed same
        ]
  without_method-Reaches (some (name s)) message c = same
  without_method-Reaches none message c = same

  by_method-Reaches :
      (method : Option JsonValue) (i : Option Identity) (message : Fields) (c : C)
      → P (by_method owner method i message t c).1
  by_method-Reaches (some method) i message c = with_method-Reaches i method message c
  by_method-Reaches none i message c = without_method-Reaches i message c

  checked-Reaches :
      (i : Option Identity) (message : Fields) (c : C) → P (checked owner i message t c).1
  checked-Reaches none message c = same
  checked-Reaches (some i) message c = by_method-Reaches _ (some i) message c

  by_identity-Reaches :
      (v : Option JsonValue) (message : Fields) (c : C) → P (by_identity owner v message t c).1
  by_identity-Reaches none message c = by_method-Reaches _ none message c
  by_identity-Reaches (some v) message c = checked-Reaches _ message c

  pub admit-Reaches : (message : Fields) (c : C) → P (admit owner message t c).1
  unfolding admit
  admit-Reaches message c = elim (Bool-cases (is_text (or_null (get "jsonrpc" message)) "2.0")) [
    | inl fine ↦ rw fine (by_identity-Reaches _ message c)
    | inr other ↦ rw other same
  ]
