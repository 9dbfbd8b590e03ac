-- ===== src/Examples/Feed.antt =====
-- An event log with a subscriber and a store of prompts (internal/activity).
use viiwork_freetoken.Prelude.{◌≡◌, ◌≢◌, refl, [], ◌∷◌, none, some, ℤ, pos, Memᴰ, arith}
use viiwork_freetoken.Activity.Log.{
  Event, Hub, node_event, new_channel, new_log, subscribe, unsubscribe, log_event, send_all, emit,
  backlog, replayed,
}
use viiwork_freetoken.Activity.Log.Wiring.{Reach, Step, Wired, Reach-Wired, unsubscribe-send_all}
use viiwork_freetoken.Activity.Log.Delivery.{emit_all, subscribe-backlog}
use viiwork_freetoken.Activity.Prompts.{PromptStore, new_prompt_store, store_output, get}
use viiwork_freetoken.Activity.Prompts.Lookup.{IsSized, Held, store_output-get}

abbrev event : ℤ → Event
event at = node_event at "backend" (pos 0) "healthy"

-- A log with room for two events.
abbrev small_hub : Hub
small_hub = record { log = new_log (pos 2); channels = λ i. new_channel; next = 5 }

small_hub-Reach : Reach small_hub
small_hub-Reach = Reach.created (pos 2) (λ i. new_channel) 5

abbrev watched_hub : Hub
watched_hub = (subscribe small_hub).1

watched_hub-Reach : Reach watched_hub
watched_hub-Reach = Reach.continues small_hub-Reach (Step.subscribes small_hub)

Reach-Wired_example : Wired watched_hub × ((e : Event) → (g : Hub) × (emit e watched_hub ≡ some g))
Reach-Wired_example = Reach-Wired watched_hub watched_hub-Reach

-- Three events before the backlog is read, one after.
subscribe-backlog_example :
    (g k : Hub) × (emit_all (event (pos 1) ∷ event (pos 2) ∷ event (pos 3) ∷ []) watched_hub
      ≡ some g)
    × (backlog g.log ≡ replayed (event (pos 2)) ∷ replayed (event (pos 3)) ∷ [])
    × (emit_all (event (pos 4) ∷ []) g ≡ some k)
    × ((k.channels 5).queue ≡ event (pos 1) ∷ event (pos 2) ∷ event (pos 3) ∷ event (pos 4) ∷ [])
unfolding new_log
subscribe-backlog_example =
    subscribe-backlog (event (pos 1) ∷ event (pos 2) ∷ event (pos 3) ∷ []) (event (pos 4) ∷ []) 1
      small_hub small_hub-Reach refl

subscribed : Memᴰ 5 watched_hub.log.subs
unfolding subscribe
subscribed = Memᴰ.head refl

unsubscribe-send_all_example :
    send_all
      (event (pos 1))
      (log_event (event (pos 1)) watched_hub.log).subs
      (unsubscribe 5 watched_hub).channels
    ≡ none
unsubscribe-send_all_example = unsubscribe-send_all (event (pos 1)) 5 watched_hub subscribed

abbrev two_prompts : PromptStore
two_prompts = new_prompt_store (pos 2)

two_prompts-IsSized : IsSized two_prompts
unfolding new_prompt_store
two_prompts-IsSized = (1, refl, omega arith)

abbrev late : PromptStore
late = store_output (pos 7) (pos 20) [] (104 ∷ []) (pos 9) two_prompts

store_output-get_example :
    IsSized late
    × Held (pos 7) (104 ∷ []) (pos 9) (get (pos 7) two_prompts) (get (pos 7) late)
    × (get (pos 7) two_prompts ≢ none → (j : ℤ) → j ≢ pos 7 → get j late ≡ get j two_prompts)
store_output-get_example =
    store_output-get (pos 7) (pos 20) [] (104 ∷ []) (pos 9) two_prompts two_prompts-IsSized
      (λ e. ground (arith, e))
