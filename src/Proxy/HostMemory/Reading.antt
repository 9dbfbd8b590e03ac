-- ===== src/Proxy/HostMemory/Reading.antt =====
-- internal/proxy/status.go: the host's memory out of the lines of /proc/meminfo.
-- The file is its lines as `bufio.Scanner` gives them, `none` if it does not open. An int64 is an
-- integer without a bound.
use viiwork_freetoken.Prelude.{
  ◌≡◌, refl, ap, ◌∙◌, Bool, true, false, ◌&&◌, List, [], ◌∷◌, ◌++◌, Option, none, some, ℤ, pos,
  ◌-ℤ◌, ltb_ℤ, quot_ℤ, All, if◌then◌else◌, Bytes, codes, is_prefix, words, parse_int, arith,
}

-- The second word; of a number that does not fit, the nearest that does.
second_value : List Bytes → ℤ
second_value [] = pos 0
second_value (w ∷ []) = pos 0
second_value (w ∷ v ∷ vs) = (parse_int v).0

unfoldable pub parse_mem_info_kb : Bytes → ℤ
unfolding second_value
parse_mem_info_kb line = second_value (words line)

pub record MemInfo : Type 0 where
  pub total : ℤ
  pub available : ℤ

abbrev pub is_total : Bytes → Bool
is_total line = is_prefix (codes "MemTotal:") line

abbrev pub is_available : Bytes → Bool
is_available line = is_prefix (codes "MemAvailable:") line

unfoldable pub see_line : Bytes → MemInfo → MemInfo
see_line line m =
    if is_total line
    then record m { total = parse_mem_info_kb line }
    else if is_available line
    then record m { available = parse_mem_info_kb line }
    else m

-- The loop; it ends early once both figures are above 0.
unfoldable pub scan_lines : List Bytes → MemInfo → MemInfo
scan_lines [] m = m
scan_lines (line ∷ lines) m =
    let n = see_line line m in
    let rest = scan_lines lines n in
    if ltb_ℤ (pos 0) n.total && ltb_ℤ (pos 0) n.available then n else rest

unfoldable pub read_host_memory : Option (List Bytes) → ℤ × ℤ
read_host_memory none = (pos 0, pos 0)
read_host_memory (some lines) =
    let m = scan_lines lines (record { total = pos 0; available = pos 0 }) in
    (quot_ℤ m.total 1024, quot_ℤ (m.total -ℤ m.available) 1024)

-- A line of neither figure.
abbrev pub IsOther : Bytes → Type 0
IsOther line = (is_total line ≡ false) × (is_available line ≡ false)

abbrev Missing : MemInfo → Type 0
Missing m = (ltb_ℤ (pos 0) m.total && ltb_ℤ (pos 0) m.available) ≡ false

scan_lines-skip :
    (before rest : List Bytes) (m : MemInfo)
    → All IsOther before
    → Missing m
    → scan_lines (before ++ rest) m ≡ scan_lines rest m
unfolding scan_lines see_line
scan_lines-skip [] rest m others missing = refl
scan_lines-skip (line ∷ before) rest m ((t, a), others) missing =
    rw (scan_lines, t, a, missing) (scan_lines-skip before rest m others missing)

-- A file in which the total comes first, other lines before, between and behind the two figures, and
-- in which both are above 0: the host's total and what of it is not available, in MB, whatever follows.
pub read_host_memory-lines :
    (before between rest : List Bytes) (t a : Bytes)
    → All IsOther before
    → All IsOther between
    → is_total t ≡ true
    → (is_total a ≡ false) × (is_available a ≡ true)
    → ltb_ℤ (pos 0) (parse_mem_info_kb t) ≡ true
    → ltb_ℤ (pos 0) (parse_mem_info_kb a) ≡ true
    → read_host_memory (some (before ++ (t ∷ (between ++ (a ∷ rest))))) ≡ (
      quot_ℤ (parse_mem_info_kb t) 1024,
      quot_ℤ (parse_mem_info_kb t -ℤ parse_mem_info_kb a) 1024,
    )
unfolding read_host_memory scan_lines see_line
read_host_memory-lines before between rest t a first second is_t (not_t, is_a) high low =
    let none_yet : MemInfo = record { total = pos 0; available = pos 0 } in
    let one : MemInfo = record { total = parse_mem_info_kb t; available = pos 0 } in
    let both : MemInfo = record { total = parse_mem_info_kb t; available = parse_mem_info_kb a } in
    let half : Missing one = ground arith in
    let last : scan_lines (a ∷ rest) one ≡ both = rw (scan_lines, not_t, is_a, high, low) refl in
    let middle : scan_lines (t ∷ (between ++ (a ∷ rest))) none_yet ≡ both =
      rw (scan_lines, is_t, half) (scan_lines-skip between (a ∷ rest) one second half ∙ last) in
    let whole : scan_lines (before ++ (t ∷ (between ++ (a ∷ rest)))) none_yet ≡ both =
      scan_lines-skip before (t ∷ (between ++ (a ∷ rest))) none_yet first refl ∙ middle in
    ap (λ (m : MemInfo). (quot_ℤ m.total 1024, quot_ℤ (m.total -ℤ m.available) 1024)) whole
