-- ===== src/NativeTypes.antt =====
-- native_types.py: what a native turn is observed to have done.
use acp_proxy.Prelude.{String, Bool, Option, none, some, List}

pub record NativeModel : Type 0 where
  pub id : String
  pub name : String

pub record NativeServerInfo : Type 0 where
  pub name : String
  pub version : String

-- A binding without a native conversation, and one with it.
pub data NativeBinding : Type 0 where
  allocated_binding : (logical_session_id model_id : String) → NativeBinding
  conversation_binding :
      (logical_session_id model_id conversation_id turn_id : String) → NativeBinding

abbrev pub conversation_id : NativeBinding → Option String
conversation_id (allocated_binding s m) = none
conversation_id (conversation_binding s m c t) = some c

pub record NativeEvent : Type 0 where
  pub kind : String
  pub payload_json : String

pub data Scope : Type 0 where
  server bridge : Scope

pub record NativeToolObservation : Type 0 where
  pub tool_call_id : String
  pub name : String
  pub status : String
  pub scope : Scope

pub record NativePermissionObservation : Type 0 where
  pub tool_call_id : String
  pub allowed : Bool
  pub policy_digest : String

pub record NativeEffectObservation : Type 0 where
  pub tool_call_id : String
  pub result_json : String

pub record NativeObservation : Type 0 where
  pub binding : NativeBinding
  pub response_text : String
  pub events : List NativeEvent
  pub tools : List NativeToolObservation
  pub permissions : List NativePermissionObservation
  pub effects : List NativeEffectObservation
  pub complete : Bool

pub data NativeTerminal : Type 0 where
  native_completed : NativeObservation → NativeTerminal
  native_cancelled : NativeObservation → String → NativeTerminal
  native_failed : NativeObservation → String → NativeTerminal

abbrev pub observation : NativeTerminal → NativeObservation
observation (native_completed o) = o
observation (native_cancelled o reason) = o
observation (native_failed o reason) = o
