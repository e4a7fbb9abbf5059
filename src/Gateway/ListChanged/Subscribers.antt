-- ===== src/Gateway/ListChanged/Subscribers.antt =====
-- The sets of subscribers hold each session once, whatever the mux has done.
use portico_gateway.Base.{
  false, not, ◌&&◌, ◌||◌, List, [], ◌∷◌, ◌≡◌, refl, sym, ◌∙◌, inl, inr, arith, GoString, is_empty,
  str_eq, str_eq_iff, contains, All, Bool-cases,
}
use portico_gateway.Base.Assoc.{Assoc, lookup, set, delete}
use portico_gateway.Gateway.ListChanged.{
  ListChangedMux, IdSet, new_list_changed_mux, set_mode, set_of, subscribe, keep_set, forget_in,
  forget_session, keys,
}

abbrev pub Distinct : List GoString → Type 0
Distinct [] = Unit
Distinct (id ∷ ids) = (contains ids id ≡ false) × Distinct ids

keys-set :
    (k j : GoString) (m : IdSet)
    → contains (keys (set k tt m)) j ≡ (str_eq k j || contains (keys m) j)
unfolding contains set
keys-set k j [] = refl
keys-set k j ((i, u) ∷ m) =
    ground (arith, str_eq_iff i k, str_eq_iff k j, str_eq_iff i j, keys-set k j m)

Distinct-set : (k : GoString) (m : IdSet) → Distinct (keys m) → Distinct (keys (set k tt m))
unfolding contains set
Distinct-set k [] d = (refl, tt)
Distinct-set k ((i, u) ∷ m) d = elim (Bool-cases (str_eq i k)) [
  | inl e ↦ rw (e, sym ((str_eq_iff i k).0 e)) d
  | inr e ↦
      rw e
        (keys-set k i m ∙ ground (arith, d.0, str_eq_iff k i, str_eq_iff i k), Distinct-set k m d.1)
]

keys-delete :
    (k j : GoString) (m : IdSet)
    → contains (keys (delete k m)) j ≡ (not (str_eq k j) && contains (keys m) j)
unfolding contains delete
keys-delete k j [] = ground arith
keys-delete k j ((i, u) ∷ m) =
    ground (arith, str_eq_iff i k, str_eq_iff k j, str_eq_iff i j, keys-delete k j m)

Distinct-delete : (k : GoString) (m : IdSet) → Distinct (keys m) → Distinct (keys (delete k m))
unfolding contains delete
Distinct-delete k [] d = tt
Distinct-delete k ((i, u) ∷ m) d = elim (Bool-cases (str_eq i k)) [
  | inl e ↦ rw e (Distinct-delete k m d.1)
  | inr e ↦ rw e (keys-delete k i m ∙ ground (arith, d.0), Distinct-delete k m d.1)
]

-- Every set of subscribers holds a session once.
abbrev pub AllDistinct : Assoc IdSet → Type 0
AllDistinct subs = All (λ (e : GoString × IdSet). Distinct (keys e.1)) subs

AllDistinct-set :
    (server : GoString) (ids : IdSet) (subs : Assoc IdSet)
    → Distinct (keys ids)
    → AllDistinct subs
    → AllDistinct (set server ids subs)
unfolding set
AllDistinct-set server ids [] d a = (d, tt)
AllDistinct-set server ids ((k, v) ∷ subs) d a = elim (Bool-cases (str_eq k server)) [
  | inl e ↦ rw e (d, a.1)
  | inr e ↦ rw e (a.0, AllDistinct-set server ids subs d a.1)
]

pub subscribers-Distinct :
    (server : GoString) (subs : Assoc IdSet)
    → AllDistinct subs
    → Distinct (keys (set_of (lookup server subs)))
unfolding lookup
subscribers-Distinct server [] a = tt
subscribers-Distinct server ((k, v) ∷ subs) a = elim (Bool-cases (str_eq k server)) [
  | inl e ↦ rw e a.0
  | inr e ↦ rw e (subscribers-Distinct server subs a.1)
]

keep_set-AllDistinct :
    (server : GoString) (ids : IdSet) (rest : Assoc IdSet)
    → Distinct (keys ids)
    → AllDistinct rest
    → AllDistinct (keep_set server ids rest)
keep_set-AllDistinct server [] rest d a = a
keep_set-AllDistinct server (e ∷ ids) rest d a = (d, a)

forget_in-AllDistinct :
    (id : GoString) (subs : Assoc IdSet) → AllDistinct subs → AllDistinct (forget_in id subs)
forget_in-AllDistinct id [] a = tt
forget_in-AllDistinct id ((server, ids) ∷ subs) a =
    keep_set-AllDistinct server (delete id ids) (forget_in id subs) (Distinct-delete id ids a.0)
      (forget_in-AllDistinct id subs a.1)

-- What the operations of the mux lead to.
pub data Reach : ListChangedMux → Type 0 where
  new : (mode : GoString) → Reach (new_list_changed_mux mode)
  moded : {m : ListChangedMux} (id mode : GoString) → Reach m → Reach (set_mode id mode m)
  subscribed : {m : ListChangedMux} (id server : GoString) → Reach m → Reach (subscribe id server m)
  forgotten : {m : ListChangedMux} (id : GoString) → Reach m → Reach (forget_session id m)

set_mode-subs : (id mode : GoString) (m : ListChangedMux) → (set_mode id mode m).subs ≡ m.subs
unfolding set_mode
set_mode-subs id mode m = ground arith

subscribe-AllDistinct :
    (id server : GoString) (m : ListChangedMux)
    → AllDistinct m.subs
    → AllDistinct (subscribe id server m).subs
unfolding subscribe
subscribe-AllDistinct id server m a = elim (Bool-cases (is_empty id || is_empty server)) [
  | inl e ↦ rw e a
  | inr e ↦
      let old = set_of (lookup server m.subs) in
      rw e (
        AllDistinct-set server (set id tt old) m.subs
          (Distinct-set id old (subscribers-Distinct server m.subs a)) a)
]

forget_session-AllDistinct :
    (id : GoString) (m : ListChangedMux)
    → AllDistinct m.subs
    → AllDistinct (forget_session id m).subs
unfolding forget_session
forget_session-AllDistinct id m a = elim (Bool-cases (is_empty id)) [
  | inl e ↦ rw e a
  | inr e ↦ rw e (forget_in-AllDistinct id m.subs a)
]

pub Reach-AllDistinct : (m : ListChangedMux) → Reach m → AllDistinct m.subs
unfolding new_list_changed_mux
Reach-AllDistinct _ (new mode) = tt
Reach-AllDistinct _ (moded {m} id mode r) = rw (set_mode-subs id mode m) (Reach-AllDistinct m r)
Reach-AllDistinct _ (subscribed {m} id server r) =
    subscribe-AllDistinct id server m (Reach-AllDistinct m r)
Reach-AllDistinct _ (forgotten {m} id r) = forget_session-AllDistinct id m (Reach-AllDistinct m r)
