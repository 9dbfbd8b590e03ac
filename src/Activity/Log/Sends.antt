-- ===== src/Activity/Log/Sends.antt =====
-- The sends of one event (internal/activity/activity.go), channel by channel.
use viiwork_freetoken.Prelude.{
  ℕ, ◌≡◌, ◌≢◌, refl, sym, ap, ◌∙◌, subst, inl, inr, true, false, List, [], ◌∷◌, ◌++◌, none, some,
  ltb, length, All, All-get, All-of, Memᴰ, Bool-cases, if◌then◌else◌, arith,
}
use viiwork_freetoken.Activity.Log.{Event, Channel, set_channel, send, send_all, channel_size}

abbrev pub Distinct : List ℕ → Type 0
Distinct [] = Unit {0}
Distinct (i ∷ is) = All (λ j. j ≢ i) is × Distinct is

abbrev pub IsOpen : (ℕ → Channel) → ℕ → Type 0
IsOpen channels i = (channels i).closed ≡ false

-- The queue of a channel after one more send.
abbrev pub push : Event → List Event → List Event
push e q = if ltb (length q) channel_size then q ++ e ∷ [] else q

pub send_open :
    (e : Event) (c : Channel)
    → c.closed ≡ false
    → send e c ≡ some (record c { queue = push e c.queue })
unfolding send
send_open e c h = ground arith

pub send_closed : (e : Event) (c : Channel) → c.closed ≡ true → send e c ≡ none
unfolding send
send_closed e c h = ground arith

pub set_channel_here :
    (i : ℕ) (c : Channel) (channels : ℕ → Channel) → set_channel i c channels i ≡ c
set_channel_here i c channels = ground arith

pub set_channel_other :
    (i j : ℕ) (c : Channel) (channels : ℕ → Channel)
    → j ≢ i
    → set_channel i c channels j ≡ channels j
set_channel_other i j c channels h = ground arith

-- What the sends of one event make of the channels.
abbrev pub Sent : Event → List ℕ → (ℕ → Channel) → (ℕ → Channel) → Type 0
Sent e is before after =
    (j : ℕ)
    → (Memᴰ j is → after j ≡ record (before j) { queue = push e (before j).queue })
      × (¬ Memᴰ j is → after j ≡ before j)

abbrev pub pushed : Event → Channel → Channel
pushed e c = record c { queue = push e c.queue }

-- One send before the others, to a channel that is not among theirs.
pub Sent-cons :
    (e : Event) (i : ℕ) (is : List ℕ) (before after : ℕ → Channel)
    → All (λ j. j ≢ i) is
    → Sent e is (set_channel i (pushed e (before i)) before) after
    → Sent e (i ∷ is) before after
Sent-cons e i is before after apart sent j = (hit, miss)
  where
    next : ℕ → Channel
    next = set_channel i (pushed e (before i)) before

    hit : Memᴰ j (i ∷ is) → after j ≡ pushed e (before j)
    hit (Memᴰ.head h) =
        subst (λ k. after k ≡ pushed e (before k)) (sym h)
          ((sent i).1 (λ m. All-get _ is m apart refl) ∙ set_channel_here i _ before)
    hit (Memᴰ.tail m) =
        (sent j).0 m ∙ ap (pushed e) (set_channel_other i j _ before (All-get _ is m apart))

    miss : ¬ Memᴰ j (i ∷ is) → after j ≡ before j
    miss n =
        (sent j).1 (λ m. n (Memᴰ.tail m)) ∙ set_channel_other i j _ before (λ h. n (Memᴰ.head h))

-- The other channels are as open as they were.
pub others-IsOpen :
    (i : ℕ) (c : Channel) (channels : ℕ → Channel) (is : List ℕ)
    → All (λ j. j ≢ i) is
    → All (IsOpen channels) is
    → All (IsOpen (set_channel i c channels)) is
others-IsOpen i c channels is apart o = All-of _ is (λ j m.
    ap (λ (x : Channel). x.closed) (set_channel_other i j c channels (All-get _ is m apart))
    ∙ All-get _ is m o)

pub send_all_open :
    (e : Event) (is : List ℕ) (channels : ℕ → Channel)
    → Distinct is
    → All (IsOpen channels) is
    → (after : ℕ → Channel) × (send_all e is channels ≡ some after) × Sent e is channels after
unfolding send_all
send_all_open e [] channels d o = (channels, refl, λ j. ((λ m. elim m [ ]), (λ n. refl)))
send_all_open e (i ∷ is) channels d o =
    let (after, done, sent) =
      send_all_open e is (set_channel i (pushed e (channels i)) channels) d.1
        (others-IsOpen i _ channels is d.0 o.1) in
    (
      after,
      rw (send_all, send_open e (channels i) o.0) done,
      Sent-cons e i is channels after d.0 sent,
    )

pub closed_same :
    (e : Event) (i j : ℕ) (channels : ℕ → Channel)
    → (set_channel j (pushed e (channels j)) channels i).closed ≡ (channels i).closed
closed_same e i j channels = ground arith

pub send_all_closed :
    (e : Event) (i : ℕ) (is : List ℕ) (channels : ℕ → Channel)
    → Memᴰ i is
    → (channels i).closed ≡ true
    → send_all e is channels ≡ none
unfolding send_all
send_all_closed e i [] channels m c = elim m [ ]
send_all_closed e i (j ∷ js) channels m c = elim (Bool-cases (channels j).closed) [
  | inl shut ↦ rw (send_all, send_closed e (channels j) shut) refl
  | inr live ↦
      rw (send_all, send_open e (channels j) live)
        (send_all_closed e i js _ (later m live) (closed_same e i j channels ∙ c))
]
  where
    later : Memᴰ i (j ∷ js) → (channels j).closed ≡ false → Memᴰ i js
    later (Memᴰ.head h) live = absurd (clash (ap (λ k. (channels k).closed) h) live)
      where
        clash : (channels i).closed ≡ (channels j).closed → (channels j).closed ≡ false → ⊥
        clash p q = ground arith
    later (Memᴰ.tail n) live = n
