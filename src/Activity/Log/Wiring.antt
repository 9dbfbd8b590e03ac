-- ===== src/Activity/Log/Wiring.antt =====
-- What holds of the event log (internal/activity/activity.go) whatever calls came before, and what a
-- call between the two halves of an `emit` does.
use viiwork_freetoken.Prelude.{
  ℕ, zero, suc, ◌≤◌, ◌<◌, ◌≡◌, ◌≢◌, refl, sym, ap, ◌∙◌, subst, inl, inr, Bool, true, not, List, [],
  ◌∷◌, ◌++◌, none, some, ℤ, pos, ltb_ℤ, ltb, ◌==◌, any, any-mem, keep, keep-mem, length, last_n,
  last_n-all, last_n-short, All, All-get, All-of, All-map, Memᴰ, Bool-cases, some-injective,
  if◌then◌else◌, arith,
}
use viiwork_freetoken.Activity.Log.{
  Event, Channel, Log, Hub, new_log, set_channel, new_channel, subscribe, unsubscribe, log_event,
  send_all, emit,
}
use viiwork_freetoken.Activity.Log.Sends.{
  Distinct, IsOpen, set_channel_here, Sent, others-IsOpen, send_all_open, send_all_closed,
}

-- The channels of the subscribers are open, known and apart; the ring is within its size.
pub record Wired (h : Hub) : Type 0 where
  pub opened : All (IsOpen h.channels) h.log.subs
  pub known : All (λ i. i < h.next) h.log.subs
  pub apart : Distinct h.log.subs
  pub sized : (m : ℕ) × (h.log.max ≡ pos (suc m)) × (length h.log.ring ≤ suc m)

pub log_event_subs : (e : Event) (l : Log) → (log_event e l).subs ≡ l.subs
unfolding log_event
log_event_subs e l = refl

pub log_event_ring :
    (e : Event) (l : Log) (m : ℕ)
    → l.max ≡ pos (suc m)
    → (log_event e l).ring ≡ last_n (suc m) (l.ring ++ e ∷ [])
unfolding log_event
log_event_ring e l m h = rw h (elim (Bool-cases (ltb (suc m) (length (l.ring ++ e ∷ [])))) [
  | inl k ↦ ground arith
  | inr k ↦ ground (arith, last_n-all (suc m) (l.ring ++ e ∷ []) (ground arith))
])

-- An event that is logged and then sent to every subscriber.
pub emit_lem :
    (e : Event) (h : Hub)
    → Wired h
    → (after : ℕ → Channel) × (emit e h
        ≡ some (record h { log = log_event e h.log; channels = after }))
      × Sent e h.log.subs h.channels after
unfolding emit
emit_lem e h w =
    let (after, done, sent) = send_all_open e h.log.subs h.channels w.apart w.opened in
    (after, rw (emit, done), sent)

-- No send closes or opens a channel.
pub Sent-closed :
    (e : Event) (is : List ℕ) (before after : ℕ → Channel) (i : ℕ)
    → Memᴰ i is
    → Sent e is before after
    → (after i).closed ≡ (before i).closed
Sent-closed e is before after i m sent = ap (λ (c : Channel). c.closed) ((sent i).0 m)

pub emitted-Wired :
    (e : Event) (h : Hub) (after : ℕ → Channel)
    → Wired h
    → Sent e h.log.subs h.channels after
    → Wired (record h { log = log_event e h.log; channels = after })
unfolding log_event
emitted-Wired e h after w sent =
    let (m, size, short) = w.sized in
    record {
      opened = All-of _ h.log.subs (λ i k.
          Sent-closed e h.log.subs h.channels after i k sent ∙ All-get _ h.log.subs k w.opened);
      known = w.known;
      apart = w.apart;
      sized = (
        m,
        size,
        rw (log_event_ring e h.log m size) (last_n-short (suc m) (h.log.ring ++ e ∷ [])),
      );
    }

pub subscribe-Wired : (h : Hub) → Wired h → Wired (subscribe h).1
unfolding subscribe
subscribe-Wired h w =
    let apart : All (λ j. j ≢ h.next) h.log.subs =
      All-map _ _ h.log.subs (λ j l e. omega arith) w.known in
    record {
      opened = (
        ap (λ (c : Channel). c.closed) (set_channel_here h.next new_channel h.channels),
        others-IsOpen h.next new_channel h.channels h.log.subs apart w.opened,
      );
      known = (omega arith, All-map _ _ h.log.subs (λ j l. omega arith) w.known);
      apart = (apart, w.apart);
      sized = w.sized;
    }

pub keep-Distinct : (p : ℕ → Bool) (is : List ℕ) → Distinct is → Distinct (keep p is)
keep-Distinct p [] d = tt
keep-Distinct p (i ∷ is) d = elim (Bool-cases (p i)) [
  | inl e ↦
      rw e
        (All-of _ (keep p is) (λ j m. All-get _ is (keep-mem p is m).0 d.0), keep-Distinct p is d.1)
  | inr e ↦ rw e (keep-Distinct p is d.1)
]

pub unsubscribe-Wired : (i : ℕ) (h : Hub) → Wired h → Wired (unsubscribe i h)
unfolding unsubscribe
unsubscribe-Wired i h w = elim (Bool-cases (any (λ j. j == i) h.log.subs)) [
  | inl e ↦ rw e (
      let left : (j : ℕ)
          → Memᴰ j (keep (λ j. not (j == i)) h.log.subs)
          → Memᴰ j h.log.subs × (j ≢ i) =
        λ j m. let (k, n) = keep-mem (λ j. not (j == i)) h.log.subs m in (k, λ f. ground arith) in
      record {
        opened =
            others-IsOpen i _ h.channels _ (All-of _ _ (λ j m. (left j m).1))
              (All-of _ _ (λ j m. All-get _ h.log.subs (left j m).0 w.opened));
        known = All-of _ _ (λ j m. All-get _ h.log.subs (left j m).0 w.known);
        apart = keep-Distinct _ h.log.subs w.apart;
        sized = w.sized;
      })
  | inr e ↦ rw e w
]

-- A call on the hub, or a subscriber that takes the first event off its channel.
pub data Step : Hub → Hub → Type 0 where
  subscribes : (h : Hub) → Step h (subscribe h).1
  unsubscribes : (i : ℕ) (h : Hub) → Step h (unsubscribe i h)
  emits : (e : Event) (h g : Hub) → emit e h ≡ some g → Step h g
  receives :
      (i : ℕ) (e : Event) (q : List Event) (h : Hub)
      → (h.channels i).queue ≡ e ∷ q
      → Step h
          (record h { channels = set_channel i (record (h.channels i) { queue = q }) h.channels })

pub data Reach : Hub → Type 0 where
  created :
      (max : ℤ) (channels : ℕ → Channel) (next : ℕ)
      → Reach (record { log = new_log max; channels = channels; next = next })
  continues : {h g : Hub} → Reach h → Step h g → Reach g

new_log-Wired :
    (max : ℤ) (channels : ℕ → Channel) (next : ℕ)
    → Wired (record { log = new_log max; channels = channels; next = next })
unfolding new_log
new_log-Wired max channels next = record { opened = tt; known = tt; apart = tt; sized = size max }
  where
    size :
        (max : ℤ)
        → (m : ℕ) × ((if ltb_ℤ max (pos 1) then pos 2000 else max) ≡ pos (suc m)) × (0 ≤ suc m)
    size (pos zero) = (1999, refl, omega arith)
    size (pos (suc m)) = (m, ground arith, omega arith)
    size (ℤ.negsuc n) = (1999, ground arith, omega arith)

received-Wired :
    (i : ℕ) (q : List Event) (h : Hub)
    → Wired h
    → Wired (record h { channels = set_channel i (record (h.channels i) { queue = q }) h.channels })
received-Wired i q h w = record {
  opened = All-map _ _ h.log.subs (λ j o. same j o) w.opened;
  known = w.known;
  apart = w.apart;
  sized = w.sized;
}
  where
    same :
        (j : ℕ)
        → IsOpen h.channels j
        → IsOpen (set_channel i (record (h.channels i) { queue = q }) h.channels) j
    same j o = ground arith

Step-Wired : (h g : Hub) → Step h g → Wired h → Wired g
Step-Wired h g (Step.subscribes _) w = subscribe-Wired h w
Step-Wired h g (Step.unsubscribes i _) w = unsubscribe-Wired i h w
Step-Wired h g (Step.emits e _ _ done) w =
    let (after, known, sent) = emit_lem e h w in
    subst Wired (some-injective _ _ (sym known ∙ done)) (emitted-Wired e h after w sent)
Step-Wired h g (Step.receives i e q _ _) w = received-Wired i q h w

-- Whatever calls came before, in whatever order, the subscribers' channels are open, known and apart
-- and the ring is within its size; and an `emit` that no other call comes between does not panic.
pub Reach-Wired : (h : Hub) → Reach h → Wired h × ((e : Event) → (g : Hub) × (emit e h ≡ some g))
Reach-Wired h r = (wired h r, λ e. let (after, done, _) = emit_lem e h (wired h r) in (_, done))
  where
    wired : (h : Hub) → Reach h → Wired h
    wired h (Reach.created max channels next) = new_log-Wired max channels next
    wired h (Reach.continues {h = g} before step) = Step-Wired g h step (wired g before)

shut :
    (h : Hub) (i : ℕ)
    → (set_channel i (record (h.channels i) { closed = true }) h.channels i).closed ≡ true
shut h i = ground arith

-- Between the lock that `emit` gives back and its sends, the subscriber that it saw may unsubscribe,
-- which closes the channel: then the sends panic, whatever the event and the other subscribers.
pub unsubscribe-send_all :
    (e : Event) (i : ℕ) (h : Hub)
    → Memᴰ i h.log.subs
    → send_all e (log_event e h.log).subs (unsubscribe i h).channels ≡ none
unfolding log_event unsubscribe
unsubscribe-send_all e i h m =
    let found : any (λ j. j == i) h.log.subs ≡ true =
      any-mem (λ j. j == i) h.log.subs m (ground arith) in
    send_all_closed e i h.log.subs _ m (rw found (shut h i))
