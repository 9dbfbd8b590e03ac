-- ===== src/Freetoken/Health.antt =====
-- internal/freetoken/metrics.go: the engine's control plane as the node reads it.
-- `encoding/json` is taken by its result: a body is `none` where it does not decode, and otherwise the
-- record with Go's zero values for what is absent. A description is the choice of the format and its
-- arguments, `no_text` the empty one. The bytes of a load stay far below 2 ^ 63 / 100.
pub mod Limits
use viiwork_freetoken.Prelude.{
  ℕ, suc, ◌+◌, ◌*◌, ◌/◌, Bool, true, false, ◌&&◌, ◌||◌, List, [], ◌∷◌, Option, none, some, String,
  str_eq, ℤ, pos, negsuc, pos_part, neg_part, sub_ℕ, ltb_ℤ, leb_ℤ, if◌then◌else◌,
}

pub record Health : Type 0 where
  pub status : String
  pub maintenance : String
  pub model : String
  pub version : String
  pub message : String
  pub phase : String
  pub done_bytes : ℤ
  pub total_bytes : ℤ

abbrev pub no_health : Health
no_health = record {
  status = "";
  maintenance = "";
  model = "";
  version = "";
  message = "";
  phase = "";
  done_bytes = pos 0;
  total_bytes = pos 0;
}

unfoldable pub ready : Health → Bool
ready h = str_eq h.status "ok" && (str_eq h.maintenance "" || str_eq h.maintenance "serving")

pub data Description : Type 0 where
  no_text failed loading : Description
  failed_with loading_phase under_maintenance not_ready : String → Description
  loading_percent : String → ℤ → Description

-- Division of Go's integers, by a positive number: towards zero.
abbrev quotient : ℤ → ℤ → ℤ
quotient a b = sub_ℕ (pos_part a / pos_part b) (neg_part a / pos_part b)

abbrev hundredfold : ℤ → ℤ
hundredfold a = sub_ℕ (100 * pos_part a) (100 * neg_part a)

describe_loading : Health → Description
describe_loading h =
    if ltb_ℤ (pos 0) h.total_bytes
    then loading_percent h.phase (quotient (hundredfold h.done_bytes) h.total_bytes)
    else if str_eq h.phase ""
    then loading
    else loading_phase h.phase

unfoldable pub describe : Health → Description
unfolding ready describe_loading
describe h =
    if ready h
    then no_text
    else if str_eq h.status "error"
    then if str_eq h.message "" then failed else failed_with h.message
    else if str_eq h.status "loading"
    then describe_loading h
    else if str_eq h.maintenance ""
    then not_ready h.status
    else under_maintenance h.maintenance

unfoldable pub parse_health : Option Health → Health × Bool
parse_health none = (no_health, false)
parse_health (some h) = if str_eq h.status "" then (no_health, false) else (h, true)

pub record ModelDoc : Type 0 where
  pub max_model_len : ℤ
  pub context_length : ℤ

-- The loop over `doc.Data`.
context_len_of : List ModelDoc → Option ℤ
context_len_of [] = none
context_len_of (m ∷ ms) =
    if ltb_ℤ (pos 0) m.context_length
    then some m.context_length
    else if ltb_ℤ (pos 0) m.max_model_len
    then some m.max_model_len
    else context_len_of ms

unfoldable pub parse_context_len : Option (List ModelDoc) → Option ℤ
unfolding context_len_of
parse_context_len none = none
parse_context_len (some docs) = context_len_of docs

pub record Geometry : Type 0 where
  pub num_pages : ℤ
  pub page_size : ℤ

-- The product is that of the two numbers of tokens, which are positive where it is taken.
kv_capacity : Geometry → Option ℤ
kv_capacity g =
    if leb_ℤ g.num_pages (pos 0) || leb_ℤ g.page_size (pos 0)
    then none
    else some (pos (pos_part g.num_pages * pos_part g.page_size))

unfoldable pub parse_kv_capacity : Option Geometry → Option ℤ
unfolding kv_capacity
parse_kv_capacity none = none
parse_kv_capacity (some g) = kv_capacity g
