-- ===== src/Gpu/Readings/Rows.antt =====
-- The rows of nvidia-smi's output (internal/gpu/parse.go) are read independently of one another.
use viiwork_freetoken.Prelude.{
  ℕ, ◌≡◌, ◌≢◌, refl, sym, ap, ◌∙◌, Bool, true, false, List, [], ◌∷◌, ◌++◌, map, Option, none, some,
  ℤ, ◌==◌, if◌then◌else◌, Bytes, is_empty_text, put_first, split, is_space, trim_left, trim_right,
  trim_space, All, Bool-cases, Option-cases, inl, inr, append_assoc, append-nil, arith,
}
use viiwork_freetoken.Gpu.History.{GpuSample}
use viiwork_freetoken.Gpu.Readings.{
  FloatReader, sample_of_fields, parse_line, parse_lines, keep_some, parse_csv,
}

-- Free of a separator.
abbrev pub IsFreeOf : ℕ → Bytes → Type 0
IsFreeOf sep xs = All (λ c. (c == sep) ≡ false) xs

put_first-append :
    (x : ℕ) (ls ms : List Bytes) → ls ≢ [] → put_first x ls ++ ms ≡ put_first x (ls ++ ms)
put_first-append x [] ms h = absurd (h refl)
put_first-append x (l ∷ ls) ms h = refl

split_some : (sep : ℕ) (xs : Bytes) → split sep xs ≢ []
split_some sep [] h = ground arith
split_some sep (x ∷ xs) h = go (x == sep) (split sep xs) h
  where
    go : (b : Bool) (rest : List Bytes) → (if b then [] ∷ rest else put_first x rest) ≡ [] → ⊥
    go true rest e = ground arith
    go false [] e = ground arith
    go false (l ∷ ls) e = ground arith

-- A separator between two texts separates their pieces.
split-append : (sep : ℕ) (xs ys : Bytes) → split sep (xs ++ sep ∷ ys) ≡ split sep xs ++ split sep ys
split-append sep [] ys = ground arith
split-append sep (x ∷ xs) ys = elim (Bool-cases (x == sep)) [
  | inl e ↦ rw (e, split-append sep xs ys)
  | inr e ↦
      rw (e, split-append sep xs ys)
        (sym (put_first-append x (split sep xs) (split sep ys) (split_some sep xs)))
]

parse_lines-append :
    (read : FloatReader) (ts : ℤ) (ls ms : List Bytes)
    → parse_lines read ts (ls ++ ms) ≡ parse_lines read ts ls ++ parse_lines read ts ms
unfolding parse_lines
parse_lines-append read ts [] ms = refl
parse_lines-append read ts (l ∷ ls) ms = elim (Option-cases (parse_line read ts l)) [
  | inl e ↦ rw (parse_lines, e, parse_lines-append read ts ls ms)
  | inr (s, e) ↦ rw (parse_lines, e, parse_lines-append read ts ls ms)
]

parse_csv-append :
    (read : FloatReader) (ts : ℤ) (xs ys : Bytes)
    → parse_csv read ts (xs ++ b'\n' ∷ ys) ≡ parse_csv read ts xs ++ parse_csv read ts ys
unfolding parse_csv
parse_csv-append read ts xs ys =
    ap (parse_lines read ts) (split-append b'\n' xs ys)
    ∙ parse_lines-append read ts (split b'\n' xs) (split b'\n' ys)

split-IsFreeOf : (sep : ℕ) (xs : Bytes) → IsFreeOf sep xs → split sep xs ≡ xs ∷ []
split-IsFreeOf sep [] h = refl
split-IsFreeOf sep (x ∷ xs) h = rw (h.0, split-IsFreeOf sep xs h.1)

IsFreeOf-append :
    (sep : ℕ) (xs ys : Bytes) → IsFreeOf sep xs → IsFreeOf sep ys → IsFreeOf sep (xs ++ ys)
IsFreeOf-append sep [] ys h k = k
IsFreeOf-append sep (x ∷ xs) ys h k = (h.0, IsFreeOf-append sep xs ys h.1 k)

-- A field as it is printed: something, without a comma, a newline, or space around it.
abbrev pub IsField : Bytes → Type 0
IsField f =
    ((x : ℕ) × (xs : Bytes) × (f ≡ x ∷ xs) × (is_space x ≡ false))
    × (trim_right f ≡ f)
    × IsFreeOf b',' f
    × IsFreeOf b'\n' f

-- The fields of a row, a comma and a space between them.
abbrev pub row_bytes : List Bytes → Bytes
row_bytes [] = []
row_bytes (f ∷ []) = f
row_bytes (f ∷ g ∷ fs) = f ++ b',' ∷ b' ' ∷ row_bytes (g ∷ fs)

abbrev pub output_bytes : List (List Bytes) → Bytes
output_bytes [] = []
output_bytes (r ∷ rs) = row_bytes r ++ b'\n' ∷ output_bytes rs

-- The samples of the rows that have one.
abbrev pub row_samples : FloatReader → ℤ → List (List Bytes) → List GpuSample
row_samples read ts [] = []
row_samples read ts (r ∷ rs) = keep_some (sample_of_fields read ts r) (row_samples read ts rs)

trim_left-field : (f ys : Bytes) → IsField f → trim_left (f ++ ys) ≡ f ++ ys
trim_left-field f ys ((x, xs, e, s), _, _, _) = rw (e, s)

field_some : (f ys : Bytes) → IsField f → is_empty_text (f ++ ys) ≡ false
field_some f ys ((x, xs, e, s), _, _, _) = rw e

trim_right-append :
    (xs ys : Bytes)
    → is_empty_text ys ≡ false
    → trim_right ys ≡ ys
    → trim_right (xs ++ ys) ≡ xs ++ ys
trim_right-append [] ys h e = e
trim_right-append (x ∷ xs) ys h e = rw (trim_right-append xs ys h e, append_some xs)
  where
    append_some : (zs : Bytes) → is_empty_text (zs ++ ys) ≡ false
    append_some [] = h
    append_some (z ∷ zs) = refl

row_some : (f : Bytes) (fs : List Bytes) → IsField f → is_empty_text (row_bytes (f ∷ fs)) ≡ false
row_some f [] h = ap is_empty_text (sym (append-nil f)) ∙ field_some f [] h
row_some f (g ∷ fs) h = field_some f (b',' ∷ b' ' ∷ row_bytes (g ∷ fs)) h

trim_right-row :
    (f : Bytes) (fs : List Bytes)
    → All IsField (f ∷ fs)
    → trim_right (row_bytes (f ∷ fs)) ≡ row_bytes (f ∷ fs)
trim_right-row f [] h = h.0.1
trim_right-row f (g ∷ fs) h =
    ap trim_right (sym (append_assoc f (b',' ∷ b' ' ∷ []) (row_bytes (g ∷ fs))))
    ∙ trim_right-append (f ++ b',' ∷ b' ' ∷ []) (row_bytes (g ∷ fs)) (row_some g fs h.1.0)
        (trim_right-row g fs h.1)
    ∙ append_assoc f (b',' ∷ b' ' ∷ []) (row_bytes (g ∷ fs))

trim_left-row :
    (f : Bytes) (fs : List Bytes)
    → All IsField (f ∷ fs)
    → trim_left (row_bytes (f ∷ fs)) ≡ row_bytes (f ∷ fs)
trim_left-row f [] h = ap trim_left (sym (append-nil f)) ∙ trim_left-field f [] h.0 ∙ append-nil f
trim_left-row f (g ∷ fs) h = trim_left-field f (b',' ∷ b' ' ∷ row_bytes (g ∷ fs)) h.0

-- The space before a field is trimmed off.
trim_pieces :
    (xs : Bytes) → map trim_space (split b',' (b' ' ∷ xs)) ≡ map trim_space (split b',' xs)
trim_pieces xs = go (split b',' xs) (split_some b',' xs)
  where
    go :
        (pieces : List Bytes)
        → pieces ≢ []
        → map trim_space (put_first b' ' pieces) ≡ map trim_space pieces
    go [] h = absurd (h refl)
    go (p ∷ ps) h = refl

trim_space-field : (f : Bytes) → IsField f → trim_space f ≡ f
trim_space-field f h =
    ap trim_right (ap trim_left (sym (append-nil f)) ∙ trim_left-field f [] h ∙ append-nil f) ∙ h.1

row_fields :
    (f : Bytes) (fs : List Bytes)
    → All IsField (f ∷ fs)
    → map trim_space (split b',' (row_bytes (f ∷ fs))) ≡ f ∷ fs
row_fields f [] h =
    ap (map trim_space) (split-IsFreeOf b',' f h.0.2) ∙ ap (λ x. x ∷ []) (trim_space-field f h.0)
row_fields f (g ∷ fs) h =
    ap (map trim_space) (
      split-append b',' f (b' ' ∷ row_bytes (g ∷ fs))
      ∙ ap (λ l. l ++ split b',' (b' ' ∷ row_bytes (g ∷ fs))) (split-IsFreeOf b',' f h.0.2))
    ∙ ap (λ l. trim_space f ∷ l) (trim_pieces (row_bytes (g ∷ fs)) ∙ row_fields g fs h.1)
    ∙ ap (λ x. x ∷ g ∷ fs) (trim_space-field f h.0)

IsFreeOf-row :
    (f : Bytes) (fs : List Bytes) → All IsField (f ∷ fs) → IsFreeOf b'\n' (row_bytes (f ∷ fs))
IsFreeOf-row f [] h = h.0.3
IsFreeOf-row f (g ∷ fs) h =
    IsFreeOf-append b'\n' f (b',' ∷ b' ' ∷ row_bytes (g ∷ fs)) h.0.3
      (refl, (refl, IsFreeOf-row g fs h.1))

parse_line-row :
    (read : FloatReader) (ts : ℤ) (f : Bytes) (fs : List Bytes)
    → All IsField (f ∷ fs)
    → parse_line read ts (row_bytes (f ∷ fs)) ≡ sample_of_fields read ts (f ∷ fs)
unfolding parse_line
parse_line-row read ts f fs h =
    let row = row_bytes (f ∷ fs) in
    let trimmed : trim_space row ≡ row =
      ap trim_right (trim_left-row f fs h) ∙ trim_right-row f fs h in
    let there = row_some f fs h.0 in
    rw (parse_line, trimmed, there) (ap (sample_of_fields read ts) (row_fields f fs h))

abbrev pub IsRow : List Bytes → Type 0
IsRow fs = (fs ≢ []) × All IsField fs

-- The output of nvidia-smi is read back row by row: each row with its fields, in the order of the
-- rows, has its sample, and a row that has none is left out without an effect on the others. A field
-- is some text without a comma, a newline or space around it, a row at least one field.
pub parse_csv-output_bytes :
    (read : FloatReader) (ts : ℤ) (rows : List (List Bytes))
    → All IsRow rows
    → parse_csv read ts (output_bytes rows) ≡ row_samples read ts rows
unfolding parse_csv parse_lines parse_line
parse_csv-output_bytes read ts [] h = refl
parse_csv-output_bytes read ts ([] ∷ rows) h = absurd (h.0.0 refl)
parse_csv-output_bytes read ts ((f ∷ fs) ∷ rows) h =
    let row = row_bytes (f ∷ fs) in
    let one : parse_csv read ts row ≡ keep_some (sample_of_fields read ts (f ∷ fs)) [] =
      ap (parse_lines read ts) (split-IsFreeOf b'\n' row (IsFreeOf-row f fs h.0.1))
      ∙ ap (λ o. keep_some o []) (parse_line-row read ts f fs h.0.1) in
    parse_csv-append read ts row (output_bytes rows)
    ∙ ap (λ l. l ++ parse_csv read ts (output_bytes rows)) one
    ∙ joined (sample_of_fields read ts (f ∷ fs)) (parse_csv-output_bytes read ts rows h.1)
  where
    joined :
        (o : Option GpuSample)
        → parse_csv read ts (output_bytes rows) ≡ row_samples read ts rows
        → keep_some o [] ++ parse_csv read ts (output_bytes rows)
          ≡ keep_some o (row_samples read ts rows)
    joined none e = e
    joined (some s) e = ap (λ l. s ∷ l) e
