-- ===== src/Proxy/Capture/Kept.antt =====
-- What is kept of a response (internal/proxy/capture.go).
use viiwork_freetoken.Prelude.{
  ℕ, ◌+◌, ◌≤◌, ◌<◌, ◌≡◌, ◌↔◌, refl, sym, ap, ◌∙◌, Bool, true, false, List, [], ◌∷◌, ◌++◌, Bytes,
  leb, length, length-append, append_assoc, append-nil, Bool-cases, inl, inr, if◌then◌else◌, arith,
}
use viiwork_freetoken.Proxy.Capture.{
  CaptureWriter, capture_raw_cap, new_capture_writer, write, write_all,
}

-- The bytes of all writes.
abbrev pub flat : List Bytes → Bytes
flat [] = []
flat (p ∷ ps) = p ++ flat ps

-- What is kept is bounded, and without an overflow it is all that the client got; there is an overflow
-- only if the client got more than the bound.
pub record IsCaptured (c : CaptureWriter) : Type 0 where
  pub bounded : length c.buf ≤ capture_raw_cap
  pub whole : c.overflow ≡ false → c.buf ≡ c.client
  pub shorter : length c.buf ≤ length c.client
  pub over : c.overflow ≡ true → capture_raw_cap < length c.client

write-IsCaptured : (p : Bytes) (c : CaptureWriter) → IsCaptured c → IsCaptured (write p c)
unfolding write
write-IsCaptured p c k = go (leb (length c.buf + length p) capture_raw_cap) refl
  where
    go :
        (b : Bool)
        → leb (length c.buf + length p) capture_raw_cap ≡ b
        → IsCaptured (
            if b
            then record c { buf = c.buf ++ p; client = c.client ++ p }
            else record c { overflow = true; client = c.client ++ p })
    go true e =
        let short : length c.buf + length p ≤ capture_raw_cap = ground arith in
        record {
          bounded = omega (arith, length-append c.buf p);
          whole = λ h. ap (λ l. l ++ p) (k.whole h);
          shorter = omega (arith, length-append c.buf p, length-append c.client p, k.shorter);
          over = λ h. omega (arith, length-append c.client p, k.over h);
        }
    go false e =
        let long : capture_raw_cap < length c.buf + length p = ground arith in
        record {
          bounded = k.bounded;
          whole = λ h. absurd (ground arith);
          shorter = omega (arith, length-append c.client p, k.shorter);
          over = λ h. omega (arith, length-append c.client p, k.shorter);
        }

write-client : (p : Bytes) (c : CaptureWriter) → (write p c).client ≡ c.client ++ p
unfolding write
write-client p c = elim (Bool-cases (leb (length c.buf + length p) capture_raw_cap)) [
  | inl e ↦ rw e
  | inr e ↦ rw e
]

write_all-client :
    (ps : List Bytes) (c : CaptureWriter) → (write_all ps c).client ≡ c.client ++ flat ps
unfolding write_all
write_all-client [] c = sym (append-nil c.client)
write_all-client (p ∷ ps) c =
    write_all-client ps (write p c)
    ∙ ap (λ l. l ++ flat ps) (write-client p c)
    ∙ append_assoc c.client p (flat ps)

write_all_kept : (ps : List Bytes) (c : CaptureWriter) → IsCaptured c → IsCaptured (write_all ps c)
unfolding write_all
write_all_kept [] c k = k
write_all_kept (p ∷ ps) c k = write_all_kept ps (write p c) (write-IsCaptured p c k)

-- However a response is cut into writes, the client gets all of its bytes, and what is kept has at
-- most 2 MB: all of the response if that fits, and otherwise the overflow is marked.
pub write_all-IsCaptured :
    (ps : List Bytes)
    → let c = write_all ps new_capture_writer in
      (c.client ≡ flat ps)
      × (length c.buf ≤ capture_raw_cap)
      × (length (flat ps) ≤ capture_raw_cap → c.buf ≡ flat ps)
      × (c.overflow ≡ true ↔ capture_raw_cap < length (flat ps))
unfolding new_capture_writer
write_all-IsCaptured ps =
    let c = write_all ps new_capture_writer in
    let k = write_all_kept ps new_capture_writer start in
    let sent : c.client ≡ flat ps = write_all-client ps new_capture_writer in
    let size : length c.client ≡ length (flat ps) = ap length sent in
    (
      sent,
      k.bounded,
      (λ fits. k.whole (none_over k.over size fits) ∙ sent),
      ((λ h. let long = k.over h in omega arith), (λ long. over_of c.overflow refl k long size)),
    )
  where
    start : IsCaptured new_capture_writer
    start = record {
      bounded = omega arith;
      whole = λ h. refl;
      shorter = omega arith;
      over = λ h. absurd (ground arith);
    }

    none_over :
        {b : Bool} {n m : ℕ}
        → (b ≡ true → capture_raw_cap < n)
        → n ≡ m
        → m ≤ capture_raw_cap
        → b ≡ false
    none_over {b = true} f e h = absurd (let g = f refl in omega arith)
    none_over {b = false} f e h = refl

    over_of :
        (b : Bool)
        → (write_all ps new_capture_writer).overflow ≡ b
        → IsCaptured (write_all ps new_capture_writer)
        → capture_raw_cap < length (flat ps)
        → length (write_all ps new_capture_writer).client ≡ length (flat ps)
        → b ≡ true
    over_of true e k long size = refl
    over_of false e k long size =
        let same = ap length (k.whole e) in absurd (let short = k.bounded in omega arith)
