-- ===== src/Gateway/Outgoing.antt =====
-- What goes out of the gateway among the effects of a request.
use portico_gateway.Base.{
  List, [], ◌∷◌, ◌++◌, ◌≡◌, refl, ap, sym, ◌∙◌, ◌⊎◌, Bool, true, false, GoString,
}
use mathlib.Core.List.{append_assoc}
use portico_gateway.Gateway.Protocol.{
  ToolCall, Effects, audit, register_cancel, unregister_cancel, call_tool, tick, send_message,
  Payload, MessageSendParams, event_tool_call_start, event_tool_call_complete,
  event_tool_call_failed,
}
use portico_gateway.Gateway.Pipeline.{Caller, event}
use portico_gateway.Gateway.Bridge.{emitted}

-- What goes out of the gateway: a call of a tool, or a message to a peer of a tenant.
pub data Outgoing : Type 0 where
  called : ToolCall → Outgoing
  sent : GoString → GoString → MessageSendParams → Outgoing

unfoldable pub outgoing : Effects → List Outgoing
outgoing [] = []
outgoing (call_tool c ∷ es) = called c ∷ outgoing es
outgoing (send_message t p m ∷ es) = sent t p m ∷ outgoing es
outgoing (audit e ∷ es) = outgoing es
outgoing (register_cancel i ∷ es) = outgoing es
outgoing (unregister_cancel i ∷ es) = outgoing es
outgoing (tick t s ∷ es) = outgoing es

pub outgoing-append : (es fs : Effects) → outgoing (es ++ fs) ≡ outgoing es ++ outgoing fs
unfolding outgoing
outgoing-append [] fs = refl
outgoing-append (call_tool c ∷ es) fs = simp (outgoing-append es fs)
outgoing-append (send_message t p m ∷ es) fs = simp (outgoing-append es fs)
outgoing-append (audit e ∷ es) fs = outgoing-append es fs
outgoing-append (register_cancel i ∷ es) fs = outgoing-append es fs
outgoing-append (unregister_cancel i ∷ es) fs = outgoing-append es fs
outgoing-append (tick t s ∷ es) fs = outgoing-append es fs

pub outgoing-emitted :
    (on : Bool) (sess : Caller) (kind : GoString) (payload : Payload)
    → outgoing (emitted on sess kind payload) ≡ []
unfolding outgoing event
outgoing-emitted true sess kind payload = refl
outgoing-emitted false sess kind payload = refl

-- One call among effects of which nothing goes out.
pub outgoing-around :
    (es fs gs hs : Effects) (c : ToolCall)
    → outgoing es ≡ []
    → outgoing fs ≡ []
    → outgoing gs ≡ []
    → outgoing hs ≡ []
    → outgoing (es ++ (fs ++ (call_tool c ∷ (gs ++ hs)))) ≡ called c ∷ []
unfolding outgoing
outgoing-around es fs gs hs c h i j k = simp (outgoing-append, h, i, j, k)

-- The one thing that goes out is the call. With an emitter an event of its start stands directly
-- before it, and one of its completion or failure directly behind.
pub record IsMade (on : Bool) (sess : Caller) (c : ToolCall) (es : Effects) : Type 0 where
  pub one : outgoing es ≡ called c ∷ []
  pub before : Effects
  pub started : Payload
  pub kind : GoString
  pub ended : Payload
  pub after : Effects
  pub whole :
      es
      ≡ before
        ++ (emitted on sess event_tool_call_start started
            ++ (call_tool c ∷ (emitted on sess kind ended ++ after)))
  pub closed : (kind ≡ event_tool_call_complete) ⊎ (kind ≡ event_tool_call_failed)

pub IsMade-append :
    (on : Bool) (sess : Caller) (c : ToolCall) (pre es : Effects)
    → outgoing pre ≡ []
    → IsMade on sess c es
    → IsMade on sess c (pre ++ es)
IsMade-append on sess c pre es h m = record {
  one = rw (outgoing-append pre es, h) m.one;
  before = pre ++ m.before;
  started = m.started;
  kind = m.kind;
  ended = m.ended;
  after = m.after;
  whole = ap (λ fs. pre ++ fs) m.whole ∙ sym (append_assoc pre m.before _);
  closed = m.closed;
}
