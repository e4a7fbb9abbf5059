-- ===== src/Namespace/Names.antt =====
-- Qualified names are split where they were joined.
use portico_gateway.Base.{
  ℕ, suc, ◌-◌, ◌<◌, ◌≡◌, refl, ◌≢◌, ◌↔◌, true, some, [], ◌∷◌, ◌++◌, arith, GoString, Without,
  length, length-append, take, drop, index_byte, index_byte-append, index_byte-SplitsAt, SplitsAt,
  take-length-append, drop-length-append, Option-cases, inl, inr, ap, ◌∙◌,
}
use mathlib.Core.Path.{ap₂, subst}
use portico_gateway.Namespace.{
  validate_server_id, is_id_tail, all_id_tail, join_tool, split_at, split_tool, rewrite_prompt_name,
  restore_prompt_name,
}

is_id_tail_dot : (c : ℕ) → is_id_tail c ≡ true → c ≢ b'.'
unfolding is_id_tail
is_id_tail_dot c h = ground arith

all_id_tail-Without : (s : GoString) → all_id_tail s ≡ true → Without b'.' s
unfolding all_id_tail
all_id_tail-Without [] h = tt
all_id_tail-Without (c ∷ s) h =
    (ground (arith, is_id_tail_dot c), all_id_tail-Without s (ground arith))

-- A valid server id holds no dot and is not empty.
pub validate_server_id-Without : (s : GoString) → validate_server_id s ≡ true → Without b'.' s
unfolding validate_server_id
validate_server_id-Without [] h = tt
validate_server_id-Without (c ∷ s) h = (ground arith, all_id_tail-Without s (ground arith))

pub validate_server_id-ne-nil : (s : GoString) → validate_server_id s ≡ true → s ≢ []
unfolding validate_server_id
validate_server_id-ne-nil [] h = cc
validate_server_id-ne-nil (c ∷ s) h = cc

length-ne-zero : (s : GoString) → s ≢ [] → 0 < length s
length-ne-zero [] h = absurd (h refl)
length-ne-zero (c ∷ s) h = omega arith

split_at-append :
    (s t : GoString) → s ≢ [] → t ≢ [] → split_at (s ++ b'.' ∷ t) (length s) ≡ some (s, t)
unfolding split_at
split_at-append s t hs ht = ground (
  arith,
  length-ne-zero s hs,
  length-ne-zero t ht,
  length-append s (b'.' ∷ t),
  take-length-append s (b'.' ∷ t),
  drop-length-append s t b'.',
)

join-split :
    (s t : GoString) → s ≢ [] → t ≢ [] → Without b'.' s → split_tool (join_tool s t) ≡ some (s, t)
unfolding split_tool join_tool
join-split s t hs ht h = ground (arith, index_byte-append b'.' s t h, split_at-append s t hs ht)

-- Splitting a joined tool name gives back the server and the tool, dots in the tool's name
-- included, for a valid server id and a tool name that is not empty.
pub split_tool-join_tool :
    (s t : GoString)
    → validate_server_id s ≡ true
    → t ≢ []
    → split_tool (join_tool s t) ≡ some (s, t)
split_tool-join_tool s t h ht =
    join-split s t (validate_server_id-ne-nil s h) ht (validate_server_id-Without s h)

-- The four conditions on a name and its two parts.
pub record IsQualified (q s t : GoString) : Type 0 where
  pub joined : q ≡ join_tool s t
  pub no_dot : Without b'.' s
  pub has_server : s ≢ []
  pub has_tool : t ≢ []

split_at_parts :
    (q s t : GoString) (i : ℕ)
    → split_at q i ≡ some (s, t)
    → (take i q ≡ s) × (drop (suc i) q ≡ t) × (0 < i) × (i ≢ length q - 1)
unfolding split_at
split_at_parts q s t i h = (ground arith, ground arith, ground arith, ground arith)

split_at-IsQualified :
    (q s t : GoString) (i : ℕ) → SplitsAt q b'.' i → split_at q i ≡ some (s, t) → IsQualified q s t
unfolding split_at join_tool
split_at-IsQualified q s t i r h =
    let (ps, pt, pos, last) = split_at_parts q s t i h in
    record {
      joined = r.whole ∙ ap₂ (λ (a b : GoString). a ++ b'.' ∷ b) ps pt;
      no_dot = subst (Without b'.') ps r.first;
      has_server = λ e. omega (arith, ap (length {A = ℕ}) (ps ∙ e), r.at);
      has_tool = λ e. omega (
        arith,
        ap (length {A = ℕ}) (pt ∙ e),
        ap (length {A = ℕ}) r.whole,
        r.at,
        length-append (take i q) (b'.' ∷ drop (suc i) q),
      );
    }

split_tool-IsQualified : (q s t : GoString) → split_tool q ≡ some (s, t) → IsQualified q s t
unfolding split_tool
split_tool-IsQualified q s t h = elim (Option-cases (index_byte q b'.')) [
  | inl e ↦ absurd (ground arith)
  | inr (i, e) ↦ split_at-IsQualified q s t i (index_byte-SplitsAt q b'.' i e) (ground arith)
]

-- A name is split into a server and a tool exactly when it is their join, both are not empty, and
-- the server holds no dot.
pub split_tool_iff : (q s t : GoString) → (split_tool q ≡ some (s, t)) ↔ IsQualified q s t
split_tool_iff q s t = (
  split_tool-IsQualified q s t,
  λ r. rw r.joined (join-split s t r.has_server r.has_tool r.no_dot),
)

-- A prompt name is restored from its rewritten form, for a valid server id and a prompt name that
-- is not empty.
pub restore_prompt_name-rewrite_prompt_name :
    (s t : GoString)
    → validate_server_id s ≡ true
    → t ≢ []
    → restore_prompt_name (rewrite_prompt_name s t) ≡ some (s, t)
unfolding restore_prompt_name rewrite_prompt_name
restore_prompt_name-rewrite_prompt_name s t h ht = ground (
  arith,
  index_byte-append b'.' s t (validate_server_id-Without s h),
  split_at-append s t (validate_server_id-ne-nil s h) ht,
)
