-- ===== src/Gateway/Bridged.antt =====
-- What is true of every message that reaches a peer.
use portico_gateway.Base.{
  Bool, true, false, not, ◌&&◌, Option, none, some, List, [], ◌∷◌, ◌++◌, ◌≡◌, refl, ap, ◌⊎◌, inl,
  inr, arith, GoString, Bool-cases, Memᴰ, str_eq, str_eq_iff, sym, subst,
}
use mathlib.Core.List.{append-nil}
use portico_gateway.Profiles.{
  Profile, McpToA2aBridge, allows_a2a_peer, allows_a2a_task, bridge_for_mcp_tool,
}
use portico_gateway.Gateway.Protocol.{MessageSendParams, Effects, Payload}
use portico_gateway.Gateway.Pipeline.{Caller, CallToolParams}
use portico_gateway.Gateway.Outgoing.{sent, outgoing, outgoing-append, outgoing-emitted}
use portico_gateway.Gateway.A2a
use portico_gateway.Gateway.A2a.{
  Peer, PeerLookup, Resolved, Acquired, Sent, Dispatcher, enforce, enforce_found,
  resolve_and_enforce, deliver, on_sent, on_resolved, send_to_peer, on_named, on_listed,
  send_message_by_peer_name, audit_dispatch, audit_profile_violation, named,
}
use portico_gateway.Gateway.Bridge.{
  Context, Response, task_refused, namespaced_task, bridge_message, bridge_answer, send_bridged,
  on_bridge, try_mcp_to_a2a_bridge, emit_agent_profile_violation,
}

quiet-emitted :
    (on : Bool) (tenant kind : GoString) (payload : Payload)
    → outgoing (A2a.emitted on tenant kind payload) ≡ []
unfolding outgoing
quiet-emitted true tenant kind payload = refl
quiet-emitted false tenant kind payload = refl

-- The peer is registered for the tenant under the id, and the profile allows its name.
abbrev pub MayReach : Dispatcher → Option Profile → GoString → GoString → Type 0
MayReach d prof tenant id =
    (p : Peer) × (d.get_peer tenant id ≡ PeerLookup.found p) × (allows_a2a_peer prof p.name ≡ true)

-- A peer that the tenant registered has the name and the id.
abbrev pub HasName : Dispatcher → GoString → GoString → GoString → Type 0
HasName d tenant name id =
    (peers : List Peer) × (p : Peer) × (d.list_peers tenant ≡ some peers)
    × Memᴰ p peers
    × (p.name ≡ name)
    × (p.id ≡ id)

named-Memᴰ :
    (name : GoString) (ps : List Peer) (p : Peer)
    → named name ps ≡ some p
    → Memᴰ p ps × (p.name ≡ name)
unfolding named
named-Memᴰ name [] p h = absurd (cc)
named-Memᴰ name (q ∷ ps) p h = elim (Bool-cases (str_eq q.name name)) [
  | inl e ↦
      let same : q ≡ p = ground arith in
      (
        Memᴰ.head (sym same),
        subst (λ (x : Peer). x.name ≡ name) same ((str_eq_iff q.name name).0 e),
      )
  | inr e ↦ let (m, n) = named-Memᴰ name ps p (rw e at h) in (Memᴰ.tail m, n)
]

module _ (d : Dispatcher) (prof : Option Profile) (tenant : GoString)
    (params : MessageSendParams) where
  -- Nothing, or one message to the peer of the id, which may be reached.
  abbrev pub Sends : GoString → Effects → Type 0
  Sends id es =
      (outgoing es ≡ []) ⊎ ((outgoing es ≡ sent tenant id params ∷ []) × MayReach d prof tenant id)

  -- Nothing, or one message to a peer of the name, which may be reached.
  abbrev pub SendsTo : GoString → Effects → Type 0
  SendsTo name es =
      (outgoing es ≡ [])
      ⊎ ((id : GoString) × (outgoing es ≡ sent tenant id params ∷ [])
          × MayReach d prof tenant id
          × HasName d tenant name id)

  enforce-quiet : (q : Option Profile) (p : Peer) → outgoing (enforce d q tenant p).0 ≡ []
  unfolding enforce audit_profile_violation outgoing
  enforce-quiet none p = refl
  enforce-quiet (some q) p =
      elim (Bool-cases (not q.is_default && not (allows_a2a_peer (some q) p.name))) [
        | inl e ↦ rw e (quiet-emitted d.emitter tenant _ _)
        | inr e ↦ rw e refl
      ]

  enforce-allows :
      (q : Option Profile) (p p' : Peer)
      → (enforce d q tenant p).1 ≡ Resolved.peer p'
      → (p' ≡ p) × (allows_a2a_peer q p.name ≡ true)
  unfolding enforce allows_a2a_peer
  enforce-allows none p p' h = (ground arith, refl)
  enforce-allows (some q) p p' h = (ground arith, ground arith)

  on_sent-Sends :
      (id : GoString) (p : Peer) (s : Sent)
      → MayReach d prof tenant id
      → Sends id (on_sent d tenant id p params s).0
  unfolding on_sent audit_dispatch outgoing
  on_sent-Sends id p (Sent.refused e) may = inr (refl, may)
  on_sent-Sends id p (Sent.replied raw) may =
      inr (ap (λ ms. sent tenant id params ∷ ms) (quiet-emitted d.emitter tenant _ _), may)

  deliver-Sends :
      (id : GoString) (p : Peer) (a : Acquired)
      → MayReach d prof tenant id
      → Sends id (deliver d tenant id p params a).0
  unfolding deliver outgoing
  deliver-Sends id p (Acquired.unavailable e) may = inl refl
  deliver-Sends id p (Acquired.client send) may = on_sent-Sends id p (send params) may

  -- Effects of which nothing goes out stand before others.
  Sends-append :
      (id : GoString) (es fs : Effects) → outgoing es ≡ [] → Sends id fs → Sends id (es ++ fs)
  Sends-append id es fs c s = rw (outgoing-append es fs, c) s

  on_resolved-Sends :
      (id : GoString) (p : Peer) (es : Effects) (q : Resolved)
      → d.get_peer tenant id ≡ PeerLookup.found p
      → outgoing es ≡ []
      → (enforce d prof tenant p).1 ≡ q
      → Sends id (on_resolved d tenant id params (es, q)).0
  unfolding on_resolved
  on_resolved-Sends id p es (Resolved.denied e) g c h = inl c
  on_resolved-Sends id p es (Resolved.peer p') g c h =
      let (same, may) = enforce-allows prof p p' h in
      Sends-append id es _ c (deliver-Sends id p' (d.acquire tenant id) (p, g, may))

  enforce_found-Sends :
      (id : GoString) (l : PeerLookup)
      → d.get_peer tenant id ≡ l
      → Sends id (on_resolved d tenant id params (enforce_found d prof tenant l)).0
  unfolding enforce_found
  enforce_found-Sends id (PeerLookup.found p) g =
      on_resolved-Sends id p _ _ g (enforce-quiet prof p) refl
  enforce_found-Sends id PeerLookup.missing g = unfold on_resolved outgoing in inl refl
  enforce_found-Sends id PeerLookup.broken g = unfold on_resolved outgoing in inl refl

  Sends-SendsTo :
      (name id : GoString) (es : Effects) → HasName d tenant name id → Sends id es → SendsTo name es
  Sends-SendsTo name id es n (inl quiet) = inl quiet
  Sends-SendsTo name id es n (inr (one, may)) = inr (id, one, may, n)

  on_named-SendsTo :
      (name : GoString) (o : Option Peer)
      → ((p : Peer) → o ≡ some p → HasName d tenant name p.id)
      → SendsTo name (on_named d prof tenant name params o).0
  unfolding on_named send_to_peer resolve_and_enforce outgoing
  on_named-SendsTo name none k = inl refl
  on_named-SendsTo name (some p) k =
      Sends-SendsTo name p.id
        (on_resolved d tenant p.id params (enforce_found d prof tenant (d.get_peer tenant p.id))).0
        (k p refl) (enforce_found-Sends p.id (d.get_peer tenant p.id) refl)

  on_listed-SendsTo :
      (name : GoString) (peers : Option (List Peer))
      → d.list_peers tenant ≡ peers
      → SendsTo name (on_listed d prof tenant name params peers).0
  unfolding on_listed outgoing
  on_listed-SendsTo name none l = inl refl
  on_listed-SendsTo name (some peers) l =
      on_named-SendsTo name (named name peers)
        (λ p h. let (m, n) = named-Memᴰ name peers p h in (peers, p, l, m, n, refl))

  -- A message by the name of a peer reaches none, or one of that name, whose name the profile allows.
  pub send_message_by_peer_name-SendsTo :
      (name : GoString) → SendsTo name (send_message_by_peer_name d prof tenant name params).0
  unfolding send_message_by_peer_name
  send_message_by_peer_name-SendsTo name = on_listed-SendsTo name (d.list_peers tenant) refl

task_refused-allows :
    (prof : Option Profile) (task : GoString)
    → task_refused prof task ≡ none
    → allows_a2a_task prof task ≡ true
unfolding task_refused allows_a2a_task
task_refused-allows none task h = refl
task_refused-allows (some q) task h = ground arith

module _ (decode_object : GoString → Option (List (GoString × GoString))) (on : Bool)
    (ctx : Context) (sess : Caller) (params : CallToolParams) (req : GoString) where
  -- Nothing, or one message: the profile bridges the tool to a task, which it allows, of a peer name;
  -- the message goes to a peer of that name that the tenant registered, and the name under which its
  -- id is registered is one that the profile allows.
  abbrev pub Bridges : A2a.Dispatcher → Effects → Type 0
  Bridges a2a es =
      (outgoing es ≡ [])
      ⊎ ((b : McpToA2aBridge) × (id : GoString) × (outgoing es
            ≡ sent sess.tenant_id id (bridge_message decode_object b params req) ∷ [])
          × (bridge_for_mcp_tool ctx.profile params.name ≡ some b)
          × (allows_a2a_task ctx.profile (namespaced_task b) ≡ true)
          × MayReach a2a ctx.profile sess.tenant_id id
          × HasName a2a sess.tenant_id b.a2a_peer id)

  bridge_answer-quiet :
      (b : McpToA2aBridge) (reply : A2a.Reply)
      → outgoing (bridge_answer decode_object on sess b params reply).0 ≡ []
  unfolding bridge_answer
  bridge_answer-quiet b (A2a.Reply.ok raw) = outgoing-emitted on sess _ _
  bridge_answer-quiet b (A2a.Reply.error e) = outgoing-emitted on sess _ _

  send_bridged-Bridges :
      (a2a : A2a.Dispatcher) (b : McpToA2aBridge) (refusing : Option Profile)
      → bridge_for_mcp_tool ctx.profile params.name ≡ some b
      → task_refused ctx.profile (namespaced_task b) ≡ refusing
      → Bridges a2a (send_bridged decode_object a2a on ctx sess b params req refusing).0
  unfolding send_bridged emit_agent_profile_violation
  send_bridged-Bridges a2a b (some prof) h t = inl (outgoing-emitted on sess _ _)
  send_bridged-Bridges a2a b none h t =
      let m = bridge_message decode_object b params req in
      let q = send_message_by_peer_name a2a ctx.profile sess.tenant_id b.a2a_peer m in
      rw
        (
          outgoing-append q.0 (bridge_answer decode_object on sess b params q.1).0,
          bridge_answer-quiet b q.1,
          append-nil (outgoing q.0),
        )
        (elim (send_message_by_peer_name-SendsTo a2a ctx.profile sess.tenant_id m b.a2a_peer) [
          | inl quiet ↦ inl quiet
          | inr (id, one, may, has) ↦
              inr (b, id, one, h, task_refused-allows ctx.profile (namespaced_task b) t, may, has)
        ])

  -- What the bridge of the dispatcher lets out.
  abbrev pub BridgedBy : Option A2a.Dispatcher → Effects → Type 0
  BridgedBy none es = ⊥
  BridgedBy (some a2a) es = Bridges a2a es

  -- No bridge applies, or what is done lets out no more than that.
  pub try_mcp_to_a2a_bridge-BridgedBy :
      (a2a : Option A2a.Dispatcher)
      → (try_mcp_to_a2a_bridge decode_object a2a on ctx sess params req ≡ none)
        ⊎ ((es : Effects) × (answer : Response) × (try_mcp_to_a2a_bridge decode_object a2a on ctx
                sess params req
              ≡ some (es, answer))
            × BridgedBy a2a es)
  unfolding try_mcp_to_a2a_bridge
  try_mcp_to_a2a_bridge-BridgedBy none = inl refl
  try_mcp_to_a2a_bridge-BridgedBy (some a2a) = on_bridge-cases _ refl
    where
      on_bridge-cases :
          (b : Option McpToA2aBridge)
          → bridge_for_mcp_tool ctx.profile params.name ≡ b
          → (on_bridge decode_object a2a on ctx sess params req b ≡ none)
            ⊎ ((es : Effects) × (answer : Response) × (on_bridge decode_object a2a on ctx sess
                    params req b
                  ≡ some (es, answer))
                × Bridges a2a es)
      on_bridge-cases none h = unfold on_bridge in inl refl
      on_bridge-cases (some b) h =
          unfold on_bridge in inr (_, _, refl, send_bridged-Bridges a2a b _ h refl)
