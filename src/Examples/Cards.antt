-- ===== src/Examples/Cards.antt =====
-- Three readings of two cards (internal/gpu), the later card first.
use viiwork_freetoken.Prelude.{
  ℕ, ◌≡◌, ◌≢◌, refl, Bool, true, false, not, ◌&&◌, ◌==◌, if◌then◌else◌, is_empty_text, none, some,
  Option, last_n, List, [], ◌∷◌, map, All, ℤ, pos, ◌+ℤ◌, eqb_ℤ, Bytes, codes, atoi, is_space,
  trim_right, arith,
}
use viiwork_freetoken.Gpu.History.{history_slots, GpuSample, new_history, add, add_sample, latest}
use viiwork_freetoken.Gpu.History.Recent.{of_card, add-Stands}
use viiwork_freetoken.Gpu.Watts.{FloatAdd, Sum, watts, available, readings as shares}
use viiwork_freetoken.Peer.State.{zero_ratio}
use viiwork_freetoken.Gpu.Readings.{FloatReader, parse_csv, parse_float, sample_of_fields}
use viiwork_freetoken.Gpu.Readings.Rows.{
  IsField, IsFreeOf, IsRow, output_bytes, row_samples, parse_csv-output_bytes,
}

abbrev pub reading : ℤ → ℤ → GpuSample
reading id at = record {
  gpu_id = id;
  utilization = record { num = pos 0; den = pos 1 };
  vram_used_mb = record { num = pos 100; den = pos 1 };
  vram_total_mb = record { num = pos 24000; den = pos 1 };
  power_w = record { num = pos 30; den = pos 1 };
  timestamp = at;
}

abbrev readings : List GpuSample
readings = reading (pos 4) (pos 1) ∷ reading (pos 2) (pos 1) ∷ reading (pos 4) (pos 6) ∷ []

two_cards :
    latest (add readings new_history) ≡ reading (pos 2) (pos 1) ∷ reading (pos 4) (pos 6) ∷ []
unfolding latest add add_sample new_history
two_cards = refl

add-Stands_example :
    (of_card (pos 4) readings ≡ [] → (add readings new_history).series (pos 4) ≡ none)
    × (of_card (pos 4) readings ≢ []
        → (add readings new_history).series (pos 4)
          ≡ some (last_n history_slots (of_card (pos 4) readings)))
add-Stands_example = add-Stands readings (pos 4)

-- A reader of whole numbers, which serves the example only.
abbrev read_whole : FloatReader
read_whole s = elim (atoi s) [ none ↦ none | some n ↦ some (record { num = n; den = pos 1 }) ]

-- Two cards, the second without utilisation and power, and between them one without an index.
abbrev rows : List (List Bytes)
rows =
    (codes "0" ∷ codes "45" ∷ codes "1000" ∷ codes "24000" ∷ codes "120" ∷ [])
    ∷ (codes "[N/A]" ∷ codes "45" ∷ codes "1000" ∷ codes "24000" ∷ [])
    ∷ (codes "1" ∷ codes "[N/A]" ∷ codes "5" ∷ codes "24000" ∷ [])
    ∷ []

printed :
    output_bytes rows
    ≡ codes "0, 45, 1000, 24000, 120\n[N/A], 45, 1000, 24000\n1, [N/A], 5, 24000\n"
printed = refl

-- Neither space nor a separator in it.
abbrev is_plain : Bytes → Bool
is_plain [] = true
is_plain (x ∷ xs) =
    let rest = is_plain xs in not (is_space x) && (not (x == b',') && (not (x == b'\n') && rest))

four :
    (a b c d : Bool)
    → (not a && (not b && (not c && d))) ≡ true
    → (a ≡ false) × (b ≡ false) × (c ≡ false) × (d ≡ true)
four a b c d h = ground arith

plain_parts :
    (x : ℕ) (xs : Bytes)
    → is_plain (x ∷ xs) ≡ true
    → (is_space x ≡ false) × ((x == b',') ≡ false) × ((x == b'\n') ≡ false) × (is_plain xs ≡ true)
plain_parts x xs h = four (is_space x) (x == b',') (x == b'\n') (is_plain xs) h

trim_right_plain : (xs : Bytes) → is_plain xs ≡ true → trim_right xs ≡ xs
trim_right_plain [] h = refl
trim_right_plain (x ∷ xs) h =
    let (word, c, n, rest) = plain_parts x xs h in
    let after = trim_right_plain xs rest in rw (word, after) (keeps (is_empty_text xs))
  where
    keeps : (b : Bool) → (if b && false then [] else x ∷ xs) ≡ x ∷ xs
    keeps true = refl
    keeps false = refl

plain_free : (xs : Bytes) → is_plain xs ≡ true → IsFreeOf b',' xs × IsFreeOf b'\n' xs
plain_free [] h = (tt, tt)
plain_free (x ∷ xs) h =
    let (word, comma, newline, rest) = plain_parts x xs h in
    let (c, n) = plain_free xs rest in ((comma, c), (newline, n))

plain-IsField : (x : ℕ) (xs : Bytes) → is_plain (x ∷ xs) ≡ true → IsField (x ∷ xs)
plain-IsField x xs h =
    let (c, n) = plain_free (x ∷ xs) h in
    let parts = plain_parts x xs h in ((x, xs, refl, parts.0), trim_right_plain (x ∷ xs) h, c, n)

rows-IsRow : All IsRow rows
rows-IsRow = (
  (
    (λ e. ground arith),
    (
      plain-IsField _ _ refl,
      (
        plain-IsField _ _ refl,
        (plain-IsField _ _ refl, (plain-IsField _ _ refl, (plain-IsField _ _ refl, tt))),
      ),
    ),
  ),
  (
    (
      (λ e. ground arith),
      (
        plain-IsField _ _ refl,
        (plain-IsField _ _ refl, (plain-IsField _ _ refl, (plain-IsField _ _ refl, tt))),
      ),
    ),
    (
      (
        (λ e. ground arith),
        (
          plain-IsField _ _ refl,
          (plain-IsField _ _ refl, (plain-IsField _ _ refl, (plain-IsField _ _ refl, tt))),
        ),
      ),
      tt,
    ),
  ),
)

parse_csv-output_bytes_example :
    parse_csv read_whole (pos 7) (output_bytes rows) ≡ row_samples read_whole (pos 7) rows
parse_csv-output_bytes_example = parse_csv-output_bytes read_whole (pos 7) rows rows-IsRow

-- The row without an index has no sample.
two_samples :
    map (λ s. GpuSample.gpu_id s) (row_samples read_whole (pos 7) rows) ≡ pos 0 ∷ pos 1 ∷ []
unfolding sample_of_fields parse_float atoi
two_samples = refl

-- Whole watts, added as integers.
abbrev add_whole : FloatAdd
add_whole a b = record { num = a.num +ℤ b.num; den = pos 1 }

abbrev measured : Option Bool → Sum
measured answer = record { history = add readings new_history; power_available = answer }

both_cards : watts add_whole (measured (some true)) ≡ record { num = pos 60; den = pos 1 }
unfolding watts available latest add add_sample new_history ◌+ℤ◌
both_cards = refl

no_wattage : watts add_whole (measured (some false)) ≡ zero_ratio
unfolding watts available
no_wattage = refl

no_judgement : watts add_whole (measured none) ≡ zero_ratio
unfolding watts available
no_judgement = refl

-- The card that no model is on has the empty name.
card_names :
    shares
      (λ _ _ name. name)
      (add readings new_history)
      (λ id. if eqb_ℤ id (pos 4) then some "m" else none)
    ≡ "" ∷ "m" ∷ []
unfolding shares latest add add_sample new_history
card_names = refl
