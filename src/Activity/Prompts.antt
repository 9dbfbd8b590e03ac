-- ===== src/Activity/Prompts.antt =====
-- internal/activity/prompts.go: the last prompts and outputs in memory.
-- A Go string is the list of its bytes. The loops from the end of the slice are recursion on the list,
-- the later entries first.
pub mod Lookup
use viiwork_freetoken.Prelude.{
  ℕ, Bool, true, false, List, [], ◌∷◌, ◌++◌, Option, none, some, ℤ, pos, pos_part, ltb_ℤ, eqb_ℤ,
  leb, length, take, last_n, if◌then◌else◌,
}

abbrev pub Bytes : Type 0
Bytes = List ℕ

-- `meshapi.PromptEntry`, with the fields that the source writes.
pub record PromptEntry : Type 0 where
  pub request_id : ℤ
  pub time : ℤ
  pub model : Bytes
  pub prompt : Bytes
  pub output : Bytes
  pub elapsed_ms : ℤ

pub record PromptStore : Type 0 where
  pub entries : List PromptEntry
  pub max : ℤ

abbrev pub default_prompt_history : ℤ
default_prompt_history = pos 1000

abbrev pub max_prompt_chars : ℕ
max_prompt_chars = 50000

unfoldable pub new_prompt_store : ℤ → PromptStore
new_prompt_store max = record {
  entries = [];
  max = if ltb_ℤ max (pos 1) then default_prompt_history else max;
}

unfoldable pub truncate : Bytes → Bytes
truncate s = if leb (length s) max_prompt_chars then s else take max_prompt_chars s

pub append : PromptEntry → PromptStore → PromptStore
append e p =
    let entries = p.entries ++ e ∷ [] in
    record p {
      entries =
          if ltb_ℤ p.max (pos (length entries)) then last_n (pos_part p.max) entries else entries;
    }

abbrev pub is_blank : Bytes → Bool
is_blank [] = true
is_blank (_ ∷ _) = false

unfoldable pub store : ℤ → ℤ → Bytes → Bytes → PromptStore → PromptStore
unfolding append
store rid t model prompt p =
    if is_blank prompt
    then p
    else append
        (record {
          request_id = rid;
          time = t;
          model = model;
          prompt = truncate prompt;
          output = [];
          elapsed_ms = pos 0;
        })
        p

-- The last entry with the id has its output set; `none` where there is none.
pub set_output : ℤ → Bytes → ℤ → List PromptEntry → Option (List PromptEntry)
set_output rid output elapsed [] = none
set_output rid output elapsed (e ∷ es) = elim (set_output rid output elapsed es) [
  | some later ↦ some (e ∷ later)
  | none ↦
      if eqb_ℤ e.request_id rid
      then some (record e { output = output; elapsed_ms = elapsed } ∷ es)
      else none
]

pub attach : ℤ → ℤ → Bytes → Bytes → ℤ → PromptStore → Option (List PromptEntry) → PromptStore
attach rid t model output elapsed p (some entries) = record p { entries = entries }
attach rid t model output elapsed p none =
    append
      (record {
        request_id = rid;
        time = t;
        model = model;
        prompt = [];
        output = output;
        elapsed_ms = elapsed;
      })
      p

unfoldable pub store_output : ℤ → ℤ → Bytes → Bytes → ℤ → PromptStore → PromptStore
unfolding attach append set_output
store_output rid t model output elapsed p =
    if is_blank output
    then p
    else attach rid t model (truncate output) elapsed p
        (set_output rid (truncate output) elapsed p.entries)

pub find_last : ℤ → List PromptEntry → Option PromptEntry
find_last rid [] = none
find_last rid (e ∷ es) = elim (find_last rid es) [
  | some later ↦ some later
  | none ↦ if eqb_ℤ e.request_id rid then some e else none
]

unfoldable pub get : ℤ → PromptStore → Option PromptEntry
unfolding find_last
get rid p = find_last rid p.entries
