-- ===== src/Policy/Glob/Fuel.antt =====
-- The loop over the chunks of a pattern ends.
use mathlib.Core.Path.{fun_ext}
use portico_gateway.Base.{
  ℕ, zero, suc, ◌<◌, ◌≤◌, Bool, true, false, not, ◌&&◌, [], ◌∷◌, ◌≡◌, refl, ap, inl, inr, arith,
  ◌==◌, if◌then◌else◌, GoString, length, Bool-cases,
}
use portico_gateway.Policy.Glob.{skip_stars, scan, scan_chunk, round, glob, path_match}

scan-length-le : (escape range : Bool) (p : GoString) → length (scan escape range p).1 ≤ length p
unfolding scan
scan-length-le escape range [] = omega arith
scan-length-le true range (c ∷ p) = omega (arith, scan-length-le false range p)
scan-length-le false range (c ∷ p) =
    let more =
      scan-length-le (c == 92) (if c == b'[' then true else if c == b']' then false else range) p in
    elim (Bool-cases (c == b'*' && not range)) [
      | inl e ↦ rw e (omega arith)
      | inr e ↦ rw e (omega (arith, more))
    ]

-- A chunk takes its first byte, if that is no star.
scan-length-lt :
    (c : ℕ) (p : GoString) → (c == b'*') ≡ false → length (scan false false (c ∷ p)).1 ≤ length p
unfolding scan
scan-length-lt c p e =
    let more =
      scan-length-le (c == 92) (if c == b'[' then true else if c == b']' then false else false) p in
    rw e more

skip_stars-length-le : (p : GoString) → length (skip_stars p) ≤ length p
unfolding skip_stars
skip_stars-length-le [] = omega arith
skip_stars-length-le (c ∷ p) = ground (arith, skip_stars-length-le p)

-- A round leaves a shorter pattern.
scan_chunk-length-lt : (c : ℕ) (p : GoString) → length (scan_chunk (c ∷ p)).1 < length (c ∷ p)
unfolding scan_chunk skip_stars
scan_chunk-length-lt c p = elim (Bool-cases (c == b'*')) [
  | inl e ↦ rw e (omega (arith, scan-length-le false false (skip_stars p), skip_stars-length-le p))
  | inr e ↦ rw e (omega (arith, scan-length-lt c p e))
]

-- More rounds than the pattern has bytes change nothing.
glob-fuel : (f g : ℕ) (p s : GoString) → length p < f → length p < g → glob f p s ≡ glob g p s
unfolding glob round scan_chunk
glob-fuel zero g p s h k = absurd (omega (arith, h))
glob-fuel (suc f) zero p s h k = absurd (omega (arith, k))
glob-fuel (suc f) (suc g) [] s h k = refl
glob-fuel (suc f) (suc g) (c ∷ p) s h k =
    let less = scan_chunk-length-lt c p in
    let more = (scan_chunk (c ∷ p)).1 in
    let rest : (λ t. glob f more t) ≡ (λ t. glob g more t) =
      fun_ext (λ t. glob-fuel f g more t (omega (arith, less, h)) (omega (arith, less, k))) in
    ap (round (c ∷ p) (scan_chunk (c ∷ p)).0 more s) rest

-- The loop over the chunks of a pattern ends after at most one round more than the pattern has
-- bytes: with any greater bound on the rounds the answer is that of path.Match.
pub path_match-fuel : (f : ℕ) (p s : GoString) → length p < f → glob f p s ≡ path_match p s
unfolding path_match
path_match-fuel f p s h = glob-fuel f (suc (length p)) p s h (omega arith)
