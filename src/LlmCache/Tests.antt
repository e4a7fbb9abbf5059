-- ===== src/LlmCache/Tests.antt =====
-- A cache of one entry, and two requests.

use portico_gateway.Base.{
  ℕ, ◌≤◌, ◌≡◌, refl, subst, sym, true, false, none, some, List, [], ◌∷◌, take, arith, GoString,
  codes, str_eq, str_eq_iff, length, Memᴰ,
}
use portico_gateway.LlmCache.{
  Node, Key, Entry, Prefix, MemCache, new_driver, int_opt, find, is_expired, evict_from,
  evict_locked, served, stamped, compose, lookup, node_of, placed, store,
}
use portico_gateway.LlmCache.Lru.{Distinct, evict_from-take}
use portico_gateway.LlmCache.Bounds.{put, run, run_bounded}
use portico_gateway.LlmCache.Hits.{IsPlain, IsSamePlace, lookup_sound}
use portico_gateway.LlmCache.Effects.{lookup-store}

abbrev hex : GoString → GoString
hex s = s

abbrev question : Key
question = record {
  tenant_id = codes "acme";
  scope = codes "tenant";
  scope_id = [];
  alias = codes "gpt";
  normalized_input = codes "hi";
  mode = codes "exact";
  extra_salt = [];
}

abbrev answer : Entry
answer = record {
  payload = codes "hello";
  mode = codes "exact";
  created_at = none;
  expires_at = none;
  tokens = 3;
}

abbrev dated : Entry
dated = record answer { created_at = some 5; expires_at = some 15 }

abbrev small : MemCache
small = new_driver (some 1) (some 10)

question-IsPlain : IsPlain question
question-IsPlain = record {
  tenant_id = ground arith;
  scope = ground arith;
  scope_id = tt;
  alias = ground arith;
}

hits : (lookup hex 6 question (run hex (put 5 question answer ∷ []) small)).1 ≡ some dated
unfolding lookup served store placed node_of find compose stamped is_expired evict_locked evict_from
    new_driver int_opt str_eq
hits = refl

only : (at : ℕ) (k : Key) (y : Entry) → Memᴰ (put at k y) (put 5 question answer ∷ []) → IsPlain k
only at k y (Memᴰ.head e) =
    let q : k ≡ question = ground arith in subst IsPlain (sym q) question-IsPlain
only at k y (Memᴰ.tail m) = elim m [ ]

run_bounded_example :
    Distinct (run hex (put 5 question answer ∷ []) small).nodes
    × (length (run hex (put 5 question answer ∷ []) small).nodes ≤ small.max_entries)
run_bounded_example = run_bounded hex (some 1) (some 10) (put 5 question answer ∷ [])

lookup_sound_example :
    (at : ℕ) × (k : Key) × (y : Entry) × Memᴰ (put at k y) (put 5 question answer ∷ [])
    × IsSamePlace hex k question
    × (dated ≡ stamped at small.ttl y)
    × (is_expired 6 dated ≡ false)
lookup_sound_example =
    lookup_sound hex (some 1) (some 10) (put 5 question answer ∷ []) 6 question dated
      question-IsPlain only hits

lookup-store_example :
    (lookup hex 6 question (store hex 5 question answer small)).1
    ≡ some (stamped 5 small.ttl answer)
unfolding new_driver int_opt find stamped is_expired str_eq
lookup-store_example =
    lookup-store hex 5 6 0 question answer small refl
      (λ e. cc ((str_eq_iff (codes "exact") (codes "semantic")).1 e)) (λ m h. absurd (cc)) refl

abbrev everything : Prefix
everything = record { tenant_id = codes "acme"; alias = []; scope_id = []; all = true }

abbrev three : List Node
three =
    let n = node_of hex question answer in
    n ∷ record n { key = codes "b" } ∷ record n { key = codes "c" } ∷ []

evict_from-take_example : evict_from 2 5 three ≡ take 2 three
evict_from-take_example = evict_from-take 2 5 three (omega arith)
