-- ===== src/CodeMode/Output.antt =====
-- What the output buffer holds.
use portico_gateway.Base.{
  ℕ, zero, suc, ◌-◌, ◌≤◌, ◌<◌, true, false, List, [], ◌∷◌, ◌++◌, ◌≡◌, refl, inl, inr, sym, ap, ap₂,
  ◌∙◌, subst, arith, GoString, Bool-cases, ltb, leb, length, length-append, take,
}
use portico_gateway.CodeMode.{
  BoundedBuffer, new_bounded_buffer, write, write_line, or_default, default_max_output_bytes,
}

take-append-le : (n : ℕ) (s t : GoString) → n ≤ length s → take n (s ++ t) ≡ take n s
take-append-le zero s t le = refl
take-append-le (suc n) [] t le = absurd (omega (arith, le))
take-append-le (suc n) (c ∷ s) t le = ap (λ r. c ∷ r) (take-append-le n s t (omega (arith, le)))

take-append-ge :
    (n : ℕ) (s t : GoString) → length s ≤ n → take n (s ++ t) ≡ s ++ take (n - length s) t
take-append-ge n [] t le = ap (λ k. take k t) (omega arith)
take-append-ge zero (c ∷ s) t le = absurd (omega (arith, le))
take-append-ge (suc n) (c ∷ s) t le =
    ap (λ r. c ∷ r)
      (take-append-ge n s t (omega (arith, le)) ∙ ap (λ k. s ++ take k t) (omega arith))

take_all : (n : ℕ) (s : GoString) → length s ≤ n → take n s ≡ s
take_all zero [] le = refl
take_all (suc n) [] le = refl
take_all zero (c ∷ s) le = absurd (omega (arith, le))
take_all (suc n) (c ∷ s) le = ap (λ r. c ∷ r) (take_all n s (omega (arith, le)))

-- The buffer against all that was written so far.
record Holds (max : ℕ) (out : GoString) (b : BoundedBuffer) : Type 0 where
  limit : b.max ≡ max
  front : b.buf ≡ take max out
  whole : b.truncated ≡ false → (length out ≤ max)
  lost : b.truncated ≡ true → max ≤ length out

Holds-write :
    (max : ℕ) (out s : GoString) (b : BoundedBuffer)
    → Holds max out b
    → Holds max (out ++ s) (write s b)
unfolding write
Holds-write max out s b h = elim (Bool-cases b.truncated) [
  | inl t ↦ rw t (record {
    limit = h.limit;
    front = h.front ∙ sym (take-append-le max out s (h.lost t));
    whole = λ q. absurd (ground arith);
    lost = λ q. omega (arith, length-append {0} out s, h.lost t);
  })
  | inr t ↦
      let whole : b.buf ≡ out = h.front ∙ take_all max out (h.whole t) in
      let room : b.max - length b.buf ≡ max - length out =
        omega (arith, h.limit, ap length whole) in
      let fits : length out ≤ max = h.whole t in
      elim (Bool-cases (leb (b.max - length b.buf) 0)) [
        | inl full ↦
            let none : max ≤ length out = ground arith in
            rw (t, full)
              (record {
                limit = h.limit;
                front = h.front ∙ sym (take-append-le max out s none);
                whole = λ q. absurd (cc);
                lost = λ q. omega (arith, length-append {0} out s, none);
              })
        | inr some ↦ elim (Bool-cases (ltb (b.max - length b.buf) (length s))) [
          | inl over ↦
              let long : max - length out < length s = ground arith in
              rw (t, some, over)
                (record {
                  limit = h.limit;
                  front =
                      ap₂ (λ (x : GoString) (k : ℕ). x ++ take k s) whole room
                      ∙ sym (take-append-ge max out s fits);
                  whole = λ q. absurd (cc);
                  lost = λ q. omega (arith, length-append {0} out s, long, fits);
                })
          | inr under ↦
              let short : length s ≤ max - length out = ground arith in
              let all : length (out ++ s) ≤ max =
                omega (arith, length-append {0} out s, short, fits) in
              rw (t, some, under)
                (record {
                  limit = h.limit;
                  front = ap (λ (x : GoString). x ++ s) whole ∙ sym (take_all max (out ++ s) all);
                  whole = λ q. all;
                  lost = λ q. absurd (ground arith);
                })
        ]
      ]
]

-- The lines that were written, one after the other.
abbrev pub output : List GoString → GoString
output [] = []
output (l ∷ ls) = output ls ++ (l ++ 10 ∷ [])

abbrev pub written : List GoString → BoundedBuffer → BoundedBuffer
written [] b = b
written (l ∷ ls) b = write_line l (written ls b)

append_assoc : (s t u : GoString) → (s ++ t) ++ u ≡ s ++ (t ++ u)
append_assoc [] t u = refl
append_assoc (c ∷ s) t u = ap (λ r. c ∷ r) (append_assoc s t u)

Holds-written :
    (max : ℕ) (ls : List GoString) (b : BoundedBuffer)
    → Holds max [] b
    → Holds max (output ls) (written ls b)
unfolding write_line
Holds-written max [] b h = h
Holds-written max (l ∷ ls) b h =
    let k = Holds-written max ls b h in
    subst (λ out. Holds max out (written (l ∷ ls) b)) (append_assoc (output ls) l (10 ∷ []))
      (Holds-write max (output ls ++ l) (10 ∷ []) (write l (written ls b))
        (Holds-write max (output ls) l (written ls b) k))

new_bounded_buffer-Holds :
    (n : ℕ) → Holds (or_default n default_max_output_bytes) [] (new_bounded_buffer n)
unfolding new_bounded_buffer
new_bounded_buffer-Holds n = record {
  limit = refl;
  front = sym (take_all (or_default n default_max_output_bytes) [] (omega arith));
  whole = λ q. omega arith;
  lost = λ q. absurd (cc);
}

-- The buffer holds the front of all the lines written, up to its limit, 1 MiB where none is given;
-- it is all of them unless the buffer says that it was truncated, and then it is full.
pub written_front :
    (n : ℕ) (ls : List GoString)
    → let max = or_default n default_max_output_bytes in
      let b = written ls (new_bounded_buffer n) in
      (b.buf ≡ take max (output ls))
      × (b.truncated ≡ false → b.buf ≡ output ls)
      × (b.truncated ≡ true → max ≤ length (output ls))
written_front n ls =
    let max = or_default n default_max_output_bytes in
    let h = Holds-written max ls (new_bounded_buffer n) (new_bounded_buffer-Holds n) in
    (h.front, λ t. h.front ∙ take_all max (output ls) (h.whole t), h.lost)
