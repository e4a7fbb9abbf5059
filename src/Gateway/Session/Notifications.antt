-- ===== src/Gateway/Session/Notifications.antt =====
-- What a session's consumer receives of what was emitted.
use portico_gateway.Base.{
  ℕ, ◌+◌, ◌≤◌, Bool, true, false, Option, none, some, List, [], ◌∷◌, ◌++◌, ◌≡◌, sym, subst, inl,
  inr, arith, GoString, ltb, length, length-append, Bool-cases,
}
use mathlib.Core.List.{append-nil, append_assoc}
use portico_gateway.Gateway.Pipeline.{Caller}
use portico_gateway.Gateway.Session.{
  Session, new_session, capacity, drop_oldest, offer, shed_oldest, push, take_oldest, receive,
}

-- The left list is what is left of the right one when some elements are taken away.
pub data Subsequence : List GoString → List GoString → Type 0 where
  nil : Subsequence [] []
  keep : {xs ys : List GoString} (n : GoString) → Subsequence xs ys → Subsequence (n ∷ xs) (n ∷ ys)
  skip : {xs ys : List GoString} (n : GoString) → Subsequence xs ys → Subsequence xs (n ∷ ys)

snoc :
    {xs ys : List GoString} (n : GoString)
    → Subsequence xs ys
    → Subsequence (xs ++ n ∷ []) (ys ++ n ∷ [])
snoc n nil = keep n nil
snoc n (keep m s) = keep m (snoc n s)
snoc n (skip m s) = skip m (snoc n s)

shed_head : (n : GoString) {xs ys : List GoString} → Subsequence (n ∷ xs) ys → Subsequence xs ys
shed_head n (keep _ s) = skip n s
shed_head n (skip m s) = skip m (shed_head n s)

-- An element in the middle may be taken away too.
shed :
    (ys xs : List GoString) (n : GoString) (zs : List GoString)
    → Subsequence (xs ++ n ∷ zs) ys
    → Subsequence (xs ++ zs) ys
shed ys [] n zs s = shed_head n s
shed [] (x ∷ xs) n zs s = elim s [ ]
shed (_ ∷ ys) (x ∷ xs) n zs (keep _ s) = keep x (shed ys xs n zs s)
shed (y ∷ ys) (x ∷ xs) n zs (skip _ s) = skip y (shed ys (x ∷ xs) n zs s)

-- Where the emitter is: outside EmitNotification, or with a notification before its second or before
-- its third select.
pub data Phase : Type 0 where
  idle : Phase
  draining : GoString → Phase
  pushing : GoString → Phase

-- The notification that the emitter has still to send.
abbrev pub held : Phase → List GoString
held idle = []
held (draining n) = n ∷ []
held (pushing n) = n ∷ []

-- The loss of which the emitter will be told, and the room that it has made.
abbrev pub shed_by : Phase → ℕ
shed_by idle = 0
shed_by (draining n) = 0
shed_by (pushing n) = 1

abbrev pub after : GoString → Option Bool → Phase
after n none = draining n
after n (some dropped) = idle

abbrev pub told_by : Option Bool → ℕ → ℕ
told_by (some true) told = told + 1
told_by (some false) told = told
told_by none told = told

-- The session after some notifications were emitted while it was open and some received, the
-- latest last, and the number of times that the emitter was told of a loss. The emitter holds
-- notifMu over its selects, and so is alone; the consumer, who takes no lock, receives at any time.
pub data Run (caller : Caller) : List GoString → List GoString → ℕ → Phase → Session → Type 0 where
  started :
      Run caller [] [] 0 idle
        (new_session caller.id caller.tenant_id caller.user_id caller.subject_token)
  offers :
      {es rs : List GoString} {told : ℕ} {s : Session} (n : GoString)
      → Run caller es rs told idle s
      → s.closed ≡ false
      → Run caller
          (es ++ n ∷ [])
          rs
          (told_by (offer n s).1 told)
          (after n (offer n s).1)
          (offer n s).0
  sheds :
      {es rs : List GoString} {told : ℕ} {s : Session} (n : GoString)
      → Run caller es rs told (draining n) s
      → Run caller es rs told (pushing n) (shed_oldest s)
  pushes :
      {es rs : List GoString} {told : ℕ} {s : Session} (n : GoString)
      → Run caller es rs told (pushing n) s
      → Run caller es rs (told + 1) idle (push n s)
  receives :
      {es rs : List GoString} {told : ℕ} {p : Phase} {s : Session} (n : GoString)
      → Run caller es rs told p s
      → (receive s).1 ≡ some n
      → Run caller es (rs ++ n ∷ []) told p (receive s).0

-- What was received, then what is queued and then what the emitter holds is a subsequence of what
-- was emitted; no more are missing than were reported or are about to be; and the queue keeps its
-- bound, with room for the notification that is about to be sent.
pub record IsFaithful (es rs : List GoString) (told : ℕ) (p : Phase) (queue : List GoString)
    : Type 0 where
  pub in_order : Subsequence (rs ++ (queue ++ held p)) es
  pub counted : length es ≤ length rs + length queue + length (held p) + told + shed_by p
  pub within : length queue + shed_by p ≤ capacity

enqueue-IsFaithful :
    (n : GoString) (es rs queue : List GoString) (told : ℕ)
    → IsFaithful es rs told idle queue
    → ltb (length queue) capacity ≡ true
    → IsFaithful (es ++ n ∷ []) rs told idle (queue ++ n ∷ [])
enqueue-IsFaithful n es rs queue told h room = record {
  in_order = rw (append-nil (queue ++ n ∷ [])) (
      subst (λ xs. Subsequence xs (es ++ n ∷ [])) (append_assoc rs queue (n ∷ []))
        (snoc n (rw (append-nil queue) at h.in_order)));
  counted = ground (arith, length-append es (n ∷ []), length-append queue (n ∷ []), h.counted);
  within = ground (arith, length-append queue (n ∷ []));
}

wait-IsFaithful :
    (n : GoString) (es rs queue : List GoString) (told : ℕ)
    → IsFaithful es rs told idle queue
    → IsFaithful (es ++ n ∷ []) rs told (draining n) queue
wait-IsFaithful n es rs queue told h = record {
  in_order =
      subst (λ xs. Subsequence xs (es ++ n ∷ [])) (append_assoc rs queue (n ∷ []))
        (snoc n (rw (append-nil queue) at h.in_order));
  counted = ground (arith, length-append es (n ∷ []), h.counted);
  within = h.within;
}

offer-IsFaithful :
    (n : GoString) (es rs : List GoString) (told : ℕ) (s : Session)
    → s.closed ≡ false
    → IsFaithful es rs told idle s.queue
    → IsFaithful
        (es ++ n ∷ [])
        rs
        (told_by (offer n s).1 told)
        (after n (offer n s).1)
        (offer n s).0.queue
unfolding offer
offer-IsFaithful n es rs told s o h = elim (Bool-cases (ltb (length s.queue) capacity)) [
  | inl room ↦ rw (o, room) (enqueue-IsFaithful n es rs s.queue told h room)
  | inr full ↦ rw (o, full) (wait-IsFaithful n es rs s.queue told h)
]

shed-IsFaithful :
    (n : GoString) (es rs : List GoString) (told : ℕ) (queue : List GoString)
    → IsFaithful es rs told (draining n) queue
    → IsFaithful es rs told (pushing n) (drop_oldest queue)
shed-IsFaithful n es rs told [] h = record {
  in_order = h.in_order;
  counted = ground (arith, h.counted);
  within = omega arith;
}
shed-IsFaithful n es rs told (q ∷ queue) h = record {
  in_order = shed es rs q (queue ++ n ∷ []) h.in_order;
  counted = ground (arith, h.counted);
  within = ground (arith, h.within);
}

push-IsFaithful :
    (n : GoString) (es rs : List GoString) (told : ℕ) (s : Session)
    → IsFaithful es rs told (pushing n) s.queue
    → IsFaithful es rs (told + 1) idle (push n s).queue
unfolding push
push-IsFaithful n es rs told s h =
    let room : ltb (length s.queue) capacity ≡ true = ground (arith, h.within) in
    rw room (record {
      in_order = rw (append-nil (s.queue ++ n ∷ [])) h.in_order;
      counted = ground (arith, length-append s.queue (n ∷ []), h.counted);
      within = ground (arith, length-append s.queue (n ∷ []), h.within);
    })

take-IsFaithful :
    (n : GoString) (es rs : List GoString) (told : ℕ) (p : Phase) (queue : List GoString)
    → (take_oldest queue).1 ≡ some n
    → IsFaithful es rs told p queue
    → IsFaithful es (rs ++ n ∷ []) told p (take_oldest queue).0
take-IsFaithful n es rs told p [] e h = absurd (cc)
take-IsFaithful n es rs told p (q ∷ queue) e h =
    let same : q ≡ n = ground arith in
    record {
      in_order =
          subst (λ xs. Subsequence xs es) (sym (append_assoc rs (n ∷ []) (queue ++ held p)))
            (subst (λ m. Subsequence (rs ++ m ∷ (queue ++ held p)) es) same h.in_order);
      counted = ground (arith, length-append rs (n ∷ []), h.counted);
      within = ground (arith, h.within);
    }

-- Whatever is emitted while a session is open, and whenever the consumer receives, also between the
-- selects of an emission, the consumer receives, and finds in the queue, a subsequence of what was
-- emitted, in its order; at most as many are missing as the emitter was told of, none if it was told
-- of none, but for the one that an emission under way has taken out; and the queue holds 256 at most.
pub Run-IsFaithful :
    (caller : Caller) (es rs : List GoString) (told : ℕ) (p : Phase) (s : Session)
    → Run caller es rs told p s
    → IsFaithful es rs told p s.queue
unfolding new_session receive shed_oldest
Run-IsFaithful caller _ _ _ _ _ started = record {
  in_order = nil;
  counted = omega arith;
  within = omega arith;
}
Run-IsFaithful caller _ _ _ _ _ (offers {es} {rs} {told} {s} n r o) =
    offer-IsFaithful n es rs told s o (Run-IsFaithful caller es rs told idle s r)
Run-IsFaithful caller _ _ _ _ _ (sheds {es} {rs} {told} {s} n r) =
    shed-IsFaithful n es rs told s.queue (Run-IsFaithful caller es rs told (draining n) s r)
Run-IsFaithful caller _ _ _ _ _ (pushes {es} {rs} {told} {s} n r) =
    push-IsFaithful n es rs told s (Run-IsFaithful caller es rs told (pushing n) s r)
Run-IsFaithful caller _ _ _ _ _ (receives {es} {rs} {told} {p} {s} n r e) =
    take-IsFaithful n es rs told p s.queue e (Run-IsFaithful caller es rs told p s r)
