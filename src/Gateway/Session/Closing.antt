-- ===== src/Gateway/Session/Closing.antt =====
-- What closing a session does to the requests in flight and to those that come later.
use portico_gateway.Base.{
  Bool, true, false, Option, none, some, [], ◌∷◌, ◌++◌, ◌≡◌, refl, ap, ◌∙◌, subst, sym, inl, inr,
  arith, GoString, Memᴰ, Memᴰ-append_right, str_eq, Bool-cases, if◌then◌else◌,
}
use portico_gateway.Base.Assoc.{Assoc, lookup, delete, lookup-delete}
use portico_gateway.Gateway.Session.{
  Session, SessionRegistry, if_open, functions, lookup_in, fire, register_cancel, cancel_request,
  close_session, get_session, close_found, close_by_id,
}

-- A function that is found is one of the map.
functions_mem :
    (id cancel : GoString) (m : Assoc GoString)
    → lookup id m ≡ some cancel
    → Memᴰ cancel (functions (some m))
unfolding lookup
functions_mem id cancel [] h = absurd (cc)
functions_mem id cancel ((j, c) ∷ m) h = elim (Bool-cases (str_eq j id)) [
  | inl e ↦ Memᴰ.head (ground arith)
  | inr e ↦ Memᴰ.tail (functions_mem id cancel m (ground arith))
]

close_session-fields :
    (s : Session)
    → s.closed ≡ false
    → ((close_session s).cancels ≡ none)
      × ((close_session s).fired ≡ s.fired ++ functions s.cancels)
unfolding close_session
close_session-fields s o = (ground arith, ground arith)

cancel_request-nil :
    (j : GoString) (s : Session) → s.cancels ≡ none → cancel_request j s ≡ (s, false)
unfolding cancel_request
cancel_request-nil j s h = ap (λ m. fire j (lookup_in j m) s) h ∙ unfold fire in refl

register_cancel-nil :
    (j c : GoString) (s : Session) → s.cancels ≡ none → register_cancel j c s ≡ none
unfolding register_cancel
register_cancel-nil j c s h = ground arith

functions_of :
    (id cancel : GoString) (m : Option (Assoc GoString))
    → lookup_in id m ≡ some cancel
    → Memᴰ cancel (functions m)
functions_of id cancel none h = absurd (cc)
functions_of id cancel (some m) h = functions_mem id cancel m h

-- Closing a session that is open fires the cancel function of every request that is registered;
-- after that nothing can be cancelled, and the registration of a later request panics.
pub close_session-cancels :
    (id cancel : GoString) (s : Session)
    → s.closed ≡ false
    → lookup_in id s.cancels ≡ some cancel
    → Memᴰ cancel (close_session s).fired
      × ((j : GoString) → cancel_request j (close_session s) ≡ (close_session s, false))
      × ((j c : GoString) → register_cancel j c (close_session s) ≡ none)
close_session-cancels id cancel s o h =
    let (gone, fired) = close_session-fields s o in
    (
      subst (Memᴰ cancel) (sym fired)
          (Memᴰ-append_right s.fired _ (functions_of id cancel s.cancels h)),
      λ j. cancel_request-nil j (close_session s) gone,
      λ j c. register_cancel-nil j c (close_session s) gone,
    )

close_found-sessions :
    (id : GoString) (o : Option Session) (r : SessionRegistry)
    → (close_found id o r).0.sessions ≡ delete id r.sessions
unfolding close_found
close_found-sessions id none r = refl
close_found-sessions id (some s) r = refl

-- A session that is closed by its id is found no more, another is as before.
pub get_session-close_by_id :
    (id j : GoString) (r : SessionRegistry)
    → get_session j (close_by_id id r).0 ≡ (if str_eq id j then none else get_session j r)
unfolding get_session close_by_id
get_session-close_by_id id j r =
    ap (λ m. if_open (lookup j m)) (close_found-sessions id (lookup id r.sessions) r)
    ∙ (ap if_open (lookup-delete id j r.sessions) ∙ split_open (str_eq id j) (lookup j r.sessions))
  where
    split_open :
        (b : Bool) (o : Option Session)
        → if_open (if b then none else o) ≡ (if b then none else if_open o)
    split_open true o = refl
    split_open false o = refl
