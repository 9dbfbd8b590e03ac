-- ===== src/Freetoken/Prefix/Lines.antt =====
-- What `Write` of internal/freetoken/prefix.go makes of its input, however it is cut into pieces.
use viiwork_freetoken.Prelude.{
  ℕ, ◌≡◌, ◌≢◌, refl, sym, ap, ◌∙◌, subst, inl, inr, Bool, true, false, List, [], ◌∷◌, ◌++◌, map,
  append-nil, append_assoc, ◌==◌, All, Bool-cases, arith,
}
use viiwork_freetoken.Freetoken.Prefix.{Bytes, PrefixWriter, newline, drain, write}

abbrev pub IsPartial : Bytes → Type 0
IsPartial = All (λ b. b ≢ newline)

-- A line: some bytes that are no newlines, and a newline.
abbrev pub IsLine : Bytes → Type 0
IsLine l = (bs : Bytes) × IsPartial bs × (l ≡ bs ++ newline ∷ [])

abbrev pub join : List Bytes → Bytes
join [] = []
join (l ∷ ls) = l ++ join ls

IsPartial-append : (l : Bytes) (b : ℕ) → IsPartial l → b ≢ newline → IsPartial (l ++ b ∷ [])
IsPartial-append [] b h n = (n, tt)
IsPartial-append (c ∷ l) b h n = (h.0, IsPartial-append l b h.1 n)

-- What a run of the loop without an error has written.
abbrev pub Tagged : PrefixWriter → Bytes → PrefixWriter → Type 0
Tagged w input v =
    (ls : List Bytes) × (v.written ≡ w.written ++ map (w.prefix ++◌) ls)
    × (join ls ++ v.buf ≡ input)
    × All IsLine ls
    × IsPartial v.buf
    × (v.prefix ≡ w.prefix)

drain-Tagged :
    (accepts : List Bytes → Bytes → Bool) (w : PrefixWriter) (line bs : Bytes)
    → IsPartial line
    → (drain accepts w line bs).1 ≡ true
    → Tagged w (line ++ bs) (drain accepts w line bs).0
unfolding drain
drain-Tagged accepts w line [] h ok =
    ([], sym (append-nil w.written), sym (append-nil line), tt, h, refl)
drain-Tagged accepts w line (b ∷ bs) h ok = elim (Bool-cases (b == newline)) [
  | inr n ↦ rw n (
      subst (λ input. Tagged w input (drain accepts w (line ++ b ∷ []) bs).0)
        (append_assoc line (b ∷ []) bs)
        (drain-Tagged accepts w (line ++ b ∷ []) bs (IsPartial-append line b h (λ e. ground arith))
          (ground arith)))
  | inl e ↦
      let l : Bytes = line ++ b ∷ [] in
      let v : PrefixWriter = record w { written = w.written ++ (w.prefix ++ l) ∷ [] } in
      let taken : accepts w.written (w.prefix ++ l) ≡ true = ground arith in
      let (ls, out, all, lines, rest, same) = drain-Tagged accepts v [] bs tt (ground arith) in
      rw (e, taken)
        (
          l ∷ ls,
          out ∙ append_assoc w.written ((w.prefix ++ l) ∷ []) (map (w.prefix ++◌) ls),
          append_assoc l (join ls) _ ∙ ap (l ++◌) all ∙ append_assoc line (b ∷ []) bs,
          ((line, h, ap (λ c. line ++ c ∷ []) (ground arith)), lines),
          rest,
          same,
        )
]

drain_accepted :
    (accepts : List Bytes → Bytes → Bool) (w : PrefixWriter) (line bs : Bytes)
    → ((taken : List Bytes) (piece : Bytes) → accepts taken piece ≡ true)
    → (drain accepts w line bs).1 ≡ true
unfolding drain
drain_accepted accepts w line [] h = refl
drain_accepted accepts w line (b ∷ bs) h = ground (
  arith,
  h w.written (w.prefix ++ (line ++ b ∷ [])),
  drain_accepted accepts (record w { written = w.written ++ (w.prefix ++ (line ++ b ∷ [])) ∷ [] })
      [] bs h,
  drain_accepted accepts w (line ++ b ∷ []) bs h,
)

-- `Write` reports no error if the writer below takes everything. Without an error it has passed on
-- whole lines, each with the prefix in front, that make up, with the partial line that it keeps, what
-- it had kept and its argument: no byte is lost, doubled or moved.
pub write-Tagged :
    (accepts : List Bytes → Bytes → Bool) (w : PrefixWriter) (p : Bytes)
    → IsPartial w.buf
    → (((taken : List Bytes) (piece : Bytes) → accepts taken piece ≡ true)
        → (write accepts p w).1 ≡ true)
      × ((write accepts p w).1 ≡ true → Tagged w (w.buf ++ p) (write accepts p w).0)
unfolding write
write-Tagged accepts w p h =
    (drain_accepted accepts w [] (w.buf ++ p), drain-Tagged accepts w [] (w.buf ++ p) tt)

-- What the loop finds in `buf` does not matter to it.
drain-buf :
    (accepts : List Bytes → Bytes → Bool) (w : PrefixWriter) (x line bs : Bytes)
    → drain accepts (record w { buf = x }) line bs ≡ drain accepts w line bs
unfolding drain
drain-buf accepts w x line [] = refl
drain-buf accepts w x line (b ∷ bs) = ground (
  arith,
  drain-buf accepts (record w { written = w.written ++ (w.prefix ++ (line ++ b ∷ [])) ∷ [] }) x []
      bs,
  drain-buf accepts w x (line ++ b ∷ []) bs,
)

-- Reading a partial line again ends where the first reading ended.
drain-partial :
    (accepts : List Bytes → Bytes → Bool) (w : PrefixWriter) (read line bs : Bytes)
    → IsPartial line
    → drain accepts w read (line ++ bs) ≡ drain accepts w (read ++ line) bs
unfolding drain
drain-partial accepts w read [] bs h = ap (λ l. drain accepts w l bs) (sym (append-nil read))
drain-partial accepts w read (b ∷ line) bs h =
    let n : (b == newline) ≡ false = ground (arith, h.0) in
    rw n (
      drain-partial accepts w (read ++ b ∷ []) line bs h.1
      ∙ ap (λ l. drain accepts w l bs) (append_assoc read (b ∷ []) line))

drain-append :
    (accepts : List Bytes → Bytes → Bool) (w : PrefixWriter) (line bs cs : Bytes)
    → IsPartial line
    → (drain accepts w line bs).1 ≡ true
    → let v = (drain accepts w line bs).0 in
      drain accepts w line (bs ++ cs) ≡ drain accepts v [] (v.buf ++ cs)
unfolding drain
drain-append accepts w line [] cs h ok = sym (
    drain-partial accepts (record w { buf = line }) [] line cs h ∙ drain-buf accepts w line line cs)
drain-append accepts w line (b ∷ bs) cs h ok = elim (Bool-cases (b == newline)) [
  | inr n ↦ rw n (
      drain-append accepts w (line ++ b ∷ []) bs cs (IsPartial-append line b h (λ e. ground arith))
        (ground arith))
  | inl e ↦
      let l : Bytes = line ++ b ∷ [] in
      let taken : accepts w.written (w.prefix ++ l) ≡ true = ground arith in
      rw (e, taken)
        (drain-append accepts (record w { written = w.written ++ (w.prefix ++ l) ∷ [] }) [] bs cs tt
          (ground arith))
]

-- Writing two pieces, the first without an error, is writing them as one: where a line is tagged does
-- not depend on how the subprocess cuts its output.
pub write-append :
    (accepts : List Bytes → Bytes → Bool) (w : PrefixWriter) (p q : Bytes)
    → IsPartial w.buf
    → (write accepts p w).1 ≡ true
    → write accepts q (write accepts p w).0 ≡ write accepts (p ++ q) w
unfolding write
write-append accepts w p q h ok = sym (
    ap (drain accepts w []) (sym (append_assoc w.buf p q))
    ∙ drain-append accepts w [] (w.buf ++ p) q tt ok)
