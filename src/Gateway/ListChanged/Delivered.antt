-- ===== src/Gateway/ListChanged/Delivered.antt =====
-- Which sessions a change is delivered to.
use portico_gateway.Base.{
  true, false, ◌&&◌, Option, none, some, List, [], ◌∷◌, ◌≡◌, refl, sym, ap, subst, ◌∙◌, inl, inr,
  arith, if◌then◌else◌, GoString, str_eq, str_eq_iff, str_eq_refl, contains, Bool-cases,
}
use portico_gateway.Base.Assoc.{Assoc, lookup, lookup-set}
use portico_gateway.Gateway.Session.{
  Session, SessionRegistry, emit_notification, if_open, get_session,
}
use portico_gateway.Gateway.ListChanged.{
  mode_stable, Notification, ListChangedMux, mode_of, set_of, keys, World, forward, tell, tell_all,
  dispatch, handled, on_downstream,
}
use portico_gateway.Gateway.ListChanged.Subscribers.{
  Distinct, subscribers-Distinct, Reach, Reach-AllDistinct,
}

-- What is found is found under an equal key.
same_lookup :
    (id j : GoString) (sessions : Assoc Session)
    → lookup j sessions ≡ (if str_eq id j then lookup id sessions else lookup j sessions)
same_lookup id j sessions = elim (Bool-cases (str_eq id j)) [
  | inl e ↦ rw e (ap (λ k. lookup k sessions) (sym ((str_eq_iff id j).0 e)))
  | inr e ↦ rw e refl
]

module _ (rewrite_for_client : GoString → Notification → GoString) (m : ListChangedMux)
    (server : GoString) (n : Notification) where
  abbrev pub emitted : Option Session → Option Session → Option Session
  emitted none old = old
  emitted (some s) old = some (emit_notification (rewrite_for_client server n) s).0

  -- A session in live mode that is open gets the notification, another stays as it was.
  unfoldable pub heard : GoString → Option Session → Option Session
  heard id o = if str_eq (mode_of id m) mode_stable then o else emitted (if_open o) o

  forward-sessions :
      (id j : GoString) (o : Option Session) (r : SessionRegistry)
      → lookup j (forward rewrite_for_client server n id o r).sessions
        ≡ (if str_eq id j then emitted o (lookup id r.sessions) else lookup j r.sessions)
  unfolding forward
  forward-sessions id j none r = same_lookup id j r.sessions
  forward-sessions id j (some s) r =
      lookup-set id j (emit_notification (rewrite_for_client server n) s).0 r.sessions

  tell-sessions :
      (id j : GoString) (w : World)
      → lookup j (tell rewrite_for_client m server n id w).registry.sessions ≡ (
          if str_eq id j
          then heard id (lookup id w.registry.sessions)
          else lookup j w.registry.sessions)
  unfolding tell heard get_session
  tell-sessions id j w = elim (Bool-cases (str_eq (mode_of id m) mode_stable)) [
    | inl e ↦ rw e (same_lookup id j w.registry.sessions)
    | inr e ↦ rw e (forward-sessions id j (get_session id w.registry) w.registry)
  ]

  tell_self :
      (id : GoString) (w : World)
      → lookup id (tell rewrite_for_client m server n id w).registry.sessions
        ≡ heard id (lookup id w.registry.sessions)
  tell_self id w = tell-sessions id id w ∙ rw (str_eq_refl id) refl

  tell_other :
      (id j : GoString) (w : World)
      → str_eq id j ≡ false
      → lookup j (tell rewrite_for_client m server n id w).registry.sessions
        ≡ lookup j w.registry.sessions
  tell_other id j w e = tell-sessions id j w ∙ rw e refl

  tell_all-absent :
      (ids : List GoString) (j : GoString) (w : World)
      → contains ids j ≡ false
      → lookup j (tell_all rewrite_for_client m server n ids w).registry.sessions
        ≡ lookup j w.registry.sessions
  unfolding contains
  tell_all-absent [] j w h = refl
  tell_all-absent (id ∷ ids) j w h =
      tell_all-absent ids j (tell rewrite_for_client m server n id w) (ground arith)
      ∙ tell_other id j w (ground arith)

  -- A session of the list is told once.
  tell_all-present :
      (ids : List GoString) (j : GoString) (w : World)
      → Distinct ids
      → contains ids j ≡ true
      → lookup j (tell_all rewrite_for_client m server n ids w).registry.sessions
        ≡ heard j (lookup j w.registry.sessions)
  unfolding contains
  tell_all-present [] j w d h = absurd (cc)
  tell_all-present (id ∷ ids) j w d h = elim (Bool-cases (str_eq id j)) [
    | inl e ↦
        let q = (str_eq_iff id j).0 e in
        tell_all-absent ids j (tell rewrite_for_client m server n id w)
          (subst (λ k. contains ids k ≡ false) q d.0)
        ∙ subst
            (λ k.
              lookup k (tell rewrite_for_client m server n id w).registry.sessions
              ≡ heard k (lookup k w.registry.sessions))
            q (tell_self id w)
    | inr e ↦
        tell_all-present ids j (tell rewrite_for_client m server n id w) d.1 (ground arith)
        ∙ ap (heard j) (tell_other id j w e)
  ]

-- Whatever the mux has done before, a change that a server announces is emitted once to each of the
-- server's subscribers that is open and in live mode, and to no other session; an announcement of
-- another kind changes no session.
pub on_downstream-delivers :
    (rewrite_for_client : GoString → Notification → GoString) (m : ListChangedMux)
    (server : GoString) (n : Notification) (w : World) (id : GoString)
    → Reach m
    → lookup id (on_downstream rewrite_for_client m server n w).registry.sessions ≡ (
        if handled n.method && contains (keys (set_of (lookup server m.subs))) id
        then heard rewrite_for_client m server n id (lookup id w.registry.sessions)
        else lookup id w.registry.sessions)
unfolding on_downstream dispatch
on_downstream-delivers rewrite_for_client m server n w id r =
    let ids = keys (set_of (lookup server m.subs)) in
    elim (Bool-cases (handled n.method)) [
      | inr h ↦ rw h refl
      | inl h ↦ elim (Bool-cases (contains ids id)) [
        | inl c ↦
            rw (h, c)
              (tell_all-present rewrite_for_client m server n ids id w
                (subscribers-Distinct server m.subs (Reach-AllDistinct m r)) c)
        | inr c ↦ rw (h, c) (tell_all-absent rewrite_for_client m server n ids id w c)
      ]
    ]
