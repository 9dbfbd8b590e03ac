-- ===== src/Freetoken/Health/Limits.antt =====
-- What the readings of internal/freetoken/metrics.go mean.
use viiwork_freetoken.Prelude.{
  ℕ, ◌*◌, ◌<◌, ◌≡◌, ◌↔◌, true, List, [], ◌∷◌, Option, none, some, str_eq_iff, ℤ, pos, ◌<ℤ◌,
  pos_part, ◌⊎◌, arith,
}
use viiwork_freetoken.Freetoken.Health.{
  Health, ready, no_text, describe, ModelDoc, context_len_of, parse_context_len, Geometry,
  parse_kv_capacity,
}

-- A description is empty exactly for a backend that is ready, and ready means the status `ok` with a
-- maintenance state that is absent or `serving`.
pub describe_iff :
    (h : Health)
    → ((describe h ≡ no_text) ↔ (ready h ≡ true))
      × ((ready h ≡ true)
          ↔ ((h.status ≡ "ok") × ((h.maintenance ≡ "") ⊎ (h.maintenance ≡ "serving"))))
unfolding describe
describe_iff h = (
  (ground arith, ground arith),
  (
    ground (
      arith,
      str_eq_iff h.status "ok",
      str_eq_iff h.maintenance "",
      str_eq_iff h.maintenance "serving",
    ),
    ground (
      arith,
      str_eq_iff h.status "ok",
      str_eq_iff h.maintenance "",
      str_eq_iff h.maintenance "serving",
    ),
  ),
)

context_len_of_pos : (ms : List ModelDoc) (n : ℤ) → context_len_of ms ≡ some n → pos 0 <ℤ n
unfolding context_len_of
context_len_of_pos [] n h = absurd (ground arith)
context_len_of_pos (m ∷ ms) n h = ground (arith, context_len_of_pos ms n)

-- The limits that the two readings accept are above zero.
pub parse_context_len_pos :
    (docs : Option (List ModelDoc)) (n : ℤ) → parse_context_len docs ≡ some n → pos 0 <ℤ n
unfolding parse_context_len
parse_context_len_pos none n h = absurd (ground arith)
parse_context_len_pos (some ms) n h = context_len_of_pos ms n h

mul_pos : (a b : ℕ) → 0 < a → 0 < b → 0 < a * b
mul_pos a b h k = grind arith

pub parse_kv_capacity_pos :
    (g : Option Geometry) (n : ℤ) → parse_kv_capacity g ≡ some n → pos 0 <ℤ n
unfolding parse_kv_capacity
parse_kv_capacity_pos none n h = absurd (ground arith)
parse_kv_capacity_pos (some g) n h =
    ground (arith, mul_pos (pos_part g.num_pages) (pos_part g.page_size))
