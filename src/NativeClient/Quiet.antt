-- ===== src/NativeClient/Quiet.antt =====
-- What every recording keeps: the counted bytes are those kept, within the limits, and no call is counted.
use acp_proxy.Prelude.{
  ℕ, ◌+◌, ◌≤◌, String, ◌≡◌, refl, ◌∙◌, Bool, true, false, not, ◌||◌, Option, none, some, List, [],
  ◌∷◌, ◌++◌, ltb, ◌==◌, if◌then◌else◌, Result, ok, err, arith, Bool-cases, inl, inr,
}
use Prim.Native.String.{len, ◌++◌ as ◌⧺◌}
use acp_proxy.Prelude.Dict.{lookup}
use acp_proxy.Json.{JsonValue, null, bool, int, float, str, arr, obj, Items, nil, cons, Fields, get}
use acp_proxy.NativeTypes.{NativeBinding, NativeEvent, NativeToolObservation}
use acp_proxy.NativeClient.Turn.{
  Turn, Recorded, unless_raised, given, object_or, text_at, is_text, same_turn, identity,
  other_tool, observe_tool, retain, observe_reply,
}
use acp_proxy.NativeClient.Report.{
  list_at, tool_of, observe_tools, reply_of, observe_chunk, observe_chunks, chunks_of,
  observe_report, bind, bound, begin, cancel_end, error_end, end_turn, observe_progress,
  progress_of, by_kind, progress,
}

abbrev pub event_total : List NativeEvent → ℕ
event_total [] = 0
event_total (e ∷ es) = len e.payload_json + event_total es

abbrev pub text_total : List String → ℕ
text_total [] = 0
text_total (t ∷ ts) = len t + text_total ts

event_total-append :
    (es : List NativeEvent) (e : NativeEvent)
    → event_total (es ++ (e ∷ [])) ≡ event_total es + len e.payload_json
event_total-append [] e = omega arith
event_total-append (x ∷ es) e = omega (arith, event_total-append es e)

text_total-append :
    (ts : List String) (t : String) → text_total (ts ++ (t ∷ [])) ≡ text_total ts + len t
text_total-append [] t = omega arith
text_total-append (x ∷ ts) t = omega (arith, text_total-append ts t)

-- The counters of a turn are of what it keeps, and within its limits.
pub record Within (t : Turn) : Type 0 where
  pub events_counted : t.event_bytes ≡ event_total t.events
  pub events_fit : t.event_bytes ≤ t.event_byte_limit
  pub response_counted : t.response_bytes ≡ text_total t.response
  pub response_fits : t.response_bytes ≤ t.response_byte_limit

-- The limits of the bytes of the events and of the response.
abbrev pub limits : Turn → ℕ × ℕ
limits t = (t.event_byte_limit, t.response_byte_limit)

pub record Quiet (t u : Turn) : Type 0 where
  pub within : Within t → Within u
  pub same_limits : limits u ≡ limits t
  pub same_phases : u.callback_phases ≡ t.callback_phases

pub Quiet-then : {t u v : Turn} → Quiet t u → Quiet u v → Quiet t v
Quiet-then a b = record {
  within = λ h. b.within (a.within h);
  same_limits = b.same_limits ∙ a.same_limits;
  same_phases = b.same_phases ∙ a.same_phases;
}

pub Quiet-none : (t : Turn) → Quiet t t
Quiet-none t = record { within = λ h. h; same_limits = refl; same_phases = refl }

-- The fields that are counted, and their limits.
abbrev pub counted : Turn → (ℕ × List NativeEvent × ℕ) × (ℕ × List String × ℕ)
counted t = (
  (t.event_bytes, t.events, t.event_byte_limit),
  (t.response_bytes, t.response, t.response_byte_limit),
)

pub Within-same : (t u : Turn) → counted u ≡ counted t → Within t → Within u
Within-same t u e w = record {
  events_counted = ground arith;
  events_fit = ground arith;
  response_counted = ground arith;
  response_fits = ground arith;
}

pub Quiet-same :
    (t u : Turn) → counted u ≡ counted t → u.callback_phases ≡ t.callback_phases → Quiet t u
Quiet-same t u e p = record {
  within = Within-same t u e;
  same_limits = ground arith;
  same_phases = p;
}

module _ {t : Turn} where
  pub unless_raised-Quiet :
      (r : Recorded) (next : Turn → Recorded)
      → Quiet t r.1
      → ((u : Turn) → Quiet u (next u).1)
      → Quiet t (unless_raised r next).1
  unless_raised-Quiet (none, u) next q n = Quiet-then q (n u)
  unless_raised-Quiet (some text, u) next q n = q

  pub if-Quiet :
      (b : Bool) (r s : Recorded) → Quiet t r.1 → Quiet t s.1 → Quiet t (if b then r else s).1
  if-Quiet true r s q p = q
  if-Quiet false r s q p = p

  pub given-Quiet :
      {A : Type 0} (r : Result String A) (next : A → Turn → Recorded)
      → ((a : A) → Quiet t (next a t).1)
      → Quiet t (given r next t).1
  given-Quiet (ok a) next n = n a
  given-Quiet (err text) next n = Quiet-none t

pub identity-Quiet : (fields : Fields) (t : Turn) → Quiet t (identity fields t).1
unfolding identity
identity-Quiet fields t = if-Quiet (same_turn t.binding fields) _ _ (Quiet-none t) (Quiet-none t)

pub observe_tool-Quiet : (tool : NativeToolObservation) (t : Turn) → Quiet t (observe_tool tool t).1
unfolding observe_tool
observe_tool-Quiet tool t =
    if-Quiet (other_tool (lookup tool.tool_call_id t.tools) tool) _ _ (Quiet-none t)
      (Quiet-same t _ refl refl)

pub retain-Quiet :
    (json_text : JsonValue → String) (kind : String) (value : JsonValue) (t : Turn)
    → Quiet t (retain json_text kind value t).1
unfolding retain
retain-Quiet json_text kind value t =
    elim (Bool-cases
      (t.overflow || ltb t.event_byte_limit (t.event_bytes + len (json_text value)))) [
        | inl full ↦ rw full (Quiet-same t _ refl refl)
        | inr room ↦ rw room (record {
          within = λ w. record {
            events_counted = ground (
              arith,
              w.events_counted,
              event_total-append t.events (record { kind = kind; payload_json = json_text value }),
            );
            events_fit = ground arith;
            response_counted = w.response_counted;
            response_fits = w.response_fits;
          };
          same_limits = refl;
          same_phases = refl;
        })
      ]

observe_reply-Quiet : (reply : String) (t : Turn) → Quiet t (observe_reply reply t)
unfolding observe_reply
observe_reply-Quiet reply t = record {
  within = λ w. record {
    events_counted = ground (arith, w.events_counted);
    events_fit = ground (arith, w.events_fit);
    response_counted = ground (arith, w.response_counted, text_total-append t.response reply);
    response_fits = ground (arith, w.response_fits);
  };
  same_limits = ground arith;
  same_phases = ground arith;
}

reply_of-Quiet : (v : Option JsonValue) (t : Turn) → Quiet t (reply_of v t).1
reply_of-Quiet none t = Quiet-none t
reply_of-Quiet (some (str reply)) t = observe_reply-Quiet reply t
reply_of-Quiet (some null) t = Quiet-none t
reply_of-Quiet (some (bool b)) t = Quiet-none t
reply_of-Quiet (some (int n)) t = Quiet-none t
reply_of-Quiet (some (float m e)) t = Quiet-none t
reply_of-Quiet (some (arr vs)) t = Quiet-none t
reply_of-Quiet (some (obj fs)) t = Quiet-none t

observe_tools-Quiet : (items : Items) (t : Turn) → Quiet t (observe_tools items t).1
unfolding observe_tools
observe_tools-Quiet nil t = Quiet-none t
observe_tools-Quiet (cons item r) t =
    unless_raised-Quiet (given (tool_of item) observe_tool t) (observe_tools r)
      (given-Quiet (tool_of item) observe_tool (λ tool. observe_tool-Quiet tool t))
      (observe_tools-Quiet r)

observe_chunk-Quiet : (chunk : Fields) (t : Turn) → Quiet t (observe_chunk chunk t).1
unfolding observe_chunk
observe_chunk-Quiet chunk t =
    unless_raised-Quiet (reply_of (get "reply" chunk) t) _ (reply_of-Quiet (get "reply" chunk) t)
      (λ u.
        given-Quiet (list_at "Native toolCalls must be an array" (get "toolCalls" chunk))
          observe_tools (λ items. observe_tools-Quiet items u))

observe_chunks-Quiet : (chunks : List Fields) (t : Turn) → Quiet t (observe_chunks chunks t).1
unfolding observe_chunks
observe_chunks-Quiet [] t = Quiet-none t
observe_chunks-Quiet (chunk ∷ r) t =
    unless_raised-Quiet (observe_chunk chunk t) (observe_chunks r) (observe_chunk-Quiet chunk t)
      (observe_chunks-Quiet r)

observe_report-Quiet : (value : Fields) (t : Turn) → Quiet t (observe_report value t).1
unfolding observe_report
observe_report-Quiet value t =
    given-Quiet (chunks_of value) observe_chunks (λ chunks. observe_chunks-Quiet chunks t)

bound-Quiet : (b : Option NativeBinding) (t : Turn) → Quiet t (bound b t).1
bound-Quiet none t = Quiet-none t
bound-Quiet (some b) t = Quiet-same t _ refl refl

begin-Quiet : (value : Fields) (t : Turn) → Quiet t (begin value t).1
unfolding begin
begin-Quiet value t = if-Quiet t.begun _ _ (Quiet-none t) (
    given-Quiet (text_at "conversationId" value) _ (λ conversation.
      given-Quiet (text_at "turnId" value) _
        (λ turn. bound-Quiet (bind t.binding conversation turn) t)))

cancel_end-Quiet :
    (v : Option JsonValue) (value : Fields) (t : Turn) → Quiet t (cancel_end v value t).1
cancel_end-Quiet none value t = Quiet-none t
cancel_end-Quiet (some v) value t =
    given-Quiet (text_at "cancellationReason" value) _ (λ reason. Quiet-same t _ refl refl)

module _ (json_text : JsonValue → String) where
  error_end-Quiet : (v : Option JsonValue) (t : Turn) → Quiet t (error_end json_text v t).1
  error_end-Quiet none t = Quiet-none t
  error_end-Quiet (some v) t = Quiet-same t _ refl refl

  end_turn-Quiet : (value : Fields) (t : Turn) → Quiet t (end_turn json_text value t).1
  unfolding end_turn
  end_turn-Quiet value t =
      unless_raised-Quiet
        (cancel_end (get "cancellationReason" value) value (record t { ended = true })) _
        (Quiet-then (Quiet-same t (record t { ended = true }) refl refl)
          (cancel_end-Quiet (get "cancellationReason" value) value _))
        (error_end-Quiet (get "error" value))

  observe_progress-Quiet :
      (kind : String) (value : Fields) (t : Turn)
      → Quiet t (observe_progress json_text kind value t).1
  unfolding observe_progress
  observe_progress-Quiet kind value t =
      let kept = (retain json_text ("native.progress." ⧺ kind) (obj value) t).1 in
      let keeps = retain-Quiet json_text ("native.progress." ⧺ kind) (obj value) t in
      elim (Bool-cases kept.overflow) [
        | inl full ↦ rw full keeps
        | inr room ↦ rw room (Quiet-then keeps (observe_report-Quiet value kept))
      ]

  progress_of-Quiet :
      (kind : String) (value : Fields) (t : Turn) → Quiet t (progress_of json_text kind value t).1
  progress_of-Quiet kind value t =
      if-Quiet (kind == "begin") _ _
        (unless_raised-Quiet (begin value t) _ (begin-Quiet value t) observes)
        (if-Quiet (kind == "report") _ _ reported (
          if-Quiet (kind == "end") _ _ (unless_raised-Quiet _ _ reported (end_turn-Quiet value))
            (Quiet-none t)))
    where
      observes : (u : Turn) → Quiet u (observe_progress json_text kind value u).1
      observes u = observe_progress-Quiet kind value u

      reported :
          Quiet t (unless_raised (identity value t) (observe_progress json_text kind value)).1
      reported = unless_raised-Quiet (identity value t) _ (identity-Quiet value t) observes

  by_kind-Quiet :
      (kind : Option JsonValue) (value : Fields) (t : Turn)
      → Quiet t (by_kind json_text kind value t).1
  by_kind-Quiet (some (str kind)) value t = progress_of-Quiet kind value t
  by_kind-Quiet (some null) value t = Quiet-none t
  by_kind-Quiet (some (bool b)) value t = Quiet-none t
  by_kind-Quiet (some (int n)) value t = Quiet-none t
  by_kind-Quiet (some (float m e)) value t = Quiet-none t
  by_kind-Quiet (some (arr vs)) value t = Quiet-none t
  by_kind-Quiet (some (obj fs)) value t = Quiet-none t
  by_kind-Quiet none value t = Quiet-none t

  pub progress-Quiet : (params : Fields) (t : Turn) → Quiet t (progress json_text params t).1
  unfolding progress
  progress-Quiet params t =
      if-Quiet (not (is_text (get "token" params) t.token) || t.rpc_ended || t.ended) _ _
        (Quiet-none t)
        (given-Quiet (object_or "native progress value must be an object" (get "value" params)) _
          (λ value. by_kind-Quiet (get "kind" value) value t))
