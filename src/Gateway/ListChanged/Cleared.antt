-- ===== src/Gateway/ListChanged/Cleared.antt =====
-- Which cached lists a change clears.
use portico_gateway.Base.{
  Bool, true, not, ◌&&◌, some, List, [], ◌∷◌, ◌≡◌, refl, sym, ap, ◌∙◌, inl, inr, arith, GoString,
  is_empty, str_eq, str_eq_iff, contains, filter, Bool-cases,
}
use portico_gateway.Base.Assoc.{lookup}
use portico_gateway.Gateway.ListChanged.{
  mode_stable, Notification, CacheKey, ResourceCache, invalidate_session, ListChangedMux, mode_of,
  set_of, keys, World, invalidated, tell, tell_all, dispatch, handled, on_downstream,
}

module _ {ℓ} {A : Type ℓ} where
  filter-filter :
      (p q : A → Bool) (xs : List A) → filter p (filter q xs) ≡ filter (λ x. q x && p x) xs
  filter-filter p q [] = refl
  filter-filter p q (x ∷ xs) = elim (Bool-cases (q x)) [
    | inl e ↦ rw (e, filter-filter p q xs) refl
    | inr e ↦ rw (e, filter-filter p q xs) refl
  ]

  filter_cong : (p q : A → Bool) (xs : List A) → ((x : A) → p x ≡ q x) → filter p xs ≡ filter q xs
  filter_cong p q [] h = refl
  filter_cong p q (x ∷ xs) h = rw (h x, filter_cong p q xs h) refl

  filter-true : (xs : List A) → filter (λ x. true) xs ≡ xs
  filter-true [] = refl
  filter-true (x ∷ xs) = ap (λ ys. x ∷ ys) (filter-true xs)

invalidate_session-filter :
    (id : GoString) (cache : ResourceCache)
    → invalidate_session id cache
      ≡ filter (λ e. not (not (is_empty id) && str_eq e.0.session_id id)) cache
unfolding invalidate_session
invalidate_session-filter id cache = elim (Bool-cases (is_empty id)) [
  | inl e ↦ rw e (sym (filter-true cache))
  | inr e ↦ rw e refl
]

module _ (m : ListChangedMux) where
  -- A turn for the session clears its lists.
  abbrev pub clears : GoString → Bool
  clears id = str_eq (mode_of id m) mode_stable && not (is_empty id)

  abbrev stays : List GoString → GoString → Bool
  stays [] s = true
  stays (id ∷ ids) s = not (clears id && str_eq s id) && stays ids s

  stays_iff : (ids : List GoString) (s : GoString) → stays ids s ≡ not (contains ids s && clears s)
  unfolding contains
  stays_iff [] s = refl
  stays_iff (id ∷ ids) s = elim (Bool-cases (str_eq s id)) [
    | inl q ↦
        let same : clears id ≡ clears s = ap clears (sym ((str_eq_iff s id).0 q)) in
        ground (arith, same, stays_iff ids s, str_eq_iff s id, str_eq_iff id s)
    | inr q ↦ ground (arith, stays_iff ids s, str_eq_iff s id, str_eq_iff id s)
  ]

  module _ (rewrite_for_client : GoString → Notification → GoString) (server : GoString)
      (n : Notification) where
    tell-resources :
        (id : GoString) (cache : ResourceCache) (w : World)
        → w.resources ≡ some cache
        → (tell rewrite_for_client m server n id w).resources
          ≡ some (filter (λ e. not (clears id && str_eq e.0.session_id id)) cache)
    unfolding tell
    tell-resources id cache w h = elim (Bool-cases (str_eq (mode_of id m) mode_stable)) [
      | inl e ↦ rw e (ap (invalidated id) h ∙ ap some (invalidate_session-filter id cache))
      | inr e ↦ rw e (h ∙ ap some (sym (filter-true cache)))
    ]

    tell_all-resources :
        (ids : List GoString) (cache : ResourceCache) (w : World)
        → w.resources ≡ some cache
        → (tell_all rewrite_for_client m server n ids w).resources
          ≡ some (filter (λ e. stays ids e.0.session_id) cache)
    tell_all-resources [] cache w h = h ∙ ap some (sym (filter-true cache))
    tell_all-resources (id ∷ ids) cache w h =
        let first = λ (e : CacheKey × GoString). not (clears id && str_eq e.0.session_id id) in
        tell_all-resources ids (filter first cache) (tell rewrite_for_client m server n id w)
          (tell-resources id cache w h)
        ∙ ap some (filter-filter (λ e. stays ids e.0.session_id) first cache)

    tell-tools :
        (id : GoString) (w : World) → (tell rewrite_for_client m server n id w).tools ≡ w.tools
    unfolding tell
    tell-tools id w = elim (Bool-cases (str_eq (mode_of id m) mode_stable)) [
      | inl e ↦ rw e refl
      | inr e ↦ rw e refl
    ]

    tell_all-tools :
        (ids : List GoString) (w : World)
        → (tell_all rewrite_for_client m server n ids w).tools ≡ w.tools
    tell_all-tools [] w = refl
    tell_all-tools (id ∷ ids) w =
        tell_all-tools ids (tell rewrite_for_client m server n id w) ∙ tell-tools id w

-- A change that a server announces clears the resource and prompt lists that the aggregator caches
-- for the server's subscribers in stable mode, those and no others: a subscriber in live mode, who
-- is told of the change, keeps them. The tools listings that the dispatcher keeps stay as they are
-- for every session, in either mode, also when it is the tools that changed.
pub on_downstream-clears :
    (rewrite_for_client : GoString → Notification → GoString) (m : ListChangedMux)
    (server : GoString) (n : Notification) (w : World) (cache : ResourceCache)
    → w.resources ≡ some cache
    → handled n.method ≡ true
    → ((on_downstream rewrite_for_client m server n w).resources
        ≡ some (
            filter
              (λ e. not (
                contains (keys (set_of (lookup server m.subs))) e.0.session_id
                && clears m e.0.session_id))
              cache))
      × ((on_downstream rewrite_for_client m server n w).tools ≡ w.tools)
unfolding on_downstream dispatch
on_downstream-clears rewrite_for_client m server n w cache h k =
    let ids = keys (set_of (lookup server m.subs)) in
    rw k (
      tell_all-resources m rewrite_for_client server n ids cache w h
          ∙ ap some (filter_cong _ _ cache (λ e. stays_iff m ids e.0.session_id)),
      tell_all-tools m rewrite_for_client server n ids w,
    )
