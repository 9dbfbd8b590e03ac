-- ===== src/Gpu/Broadcaster/Delivery.antt =====
-- What a subscriber of the samples (internal/gpu/broadcaster.go) gets, whatever calls came before.
use viiwork_freetoken.Prelude.{
  ℕ, ◌<◌, ◌≡◌, ◌≢◌, refl, sym, ap, ◌∙◌, subst, inl, inr, Bool, false, not, List, [], ◌∷◌, ◌++◌,
  some, ltb, ◌==◌, any, keep, keep-mem, length, All, All-get, All-of, All-map, Memᴰ, Bool-cases,
  some-injective, if◌then◌else◌, arith,
}
use viiwork_freetoken.Gpu.History.{GpuSample}
use viiwork_freetoken.Gpu.Broadcaster.{
  Channel, Broadcaster, channel_size, new_channel, set_channel, new_broadcaster, subscribe,
  unsubscribe, offer, offer_all, publish,
}

-- The channel after one more offer, which it takes if it has room.
abbrev pub offered : List GpuSample → Channel → Channel
offered s c =
    if ltb (length c.queue) channel_size then record c { queue = c.queue ++ s ∷ [] } else c

-- The channels of the subscribers are known, open and apart.
abbrev pub Wired : List ℕ → (ℕ → Channel) → ℕ → Type 0
Wired [] channels next = Unit {0}
Wired (i ∷ is) channels next =
    (i < next) × ((channels i).closed ≡ false) × All (λ j. j ≢ i) is × Wired is channels next

offer_open : (s : List GpuSample) (c : Channel) → c.closed ≡ false → offer s c ≡ some (offered s c)
unfolding offer
offer_open s c h = ground arith

set_channel_other :
    (i j : ℕ) (c : Channel) (channels : ℕ → Channel)
    → j ≢ i
    → set_channel i c channels j ≡ channels j
set_channel_other i j c channels h = ground arith

set_channel_here : (i : ℕ) (c : Channel) (channels : ℕ → Channel) → set_channel i c channels i ≡ c
set_channel_here i c channels = ground arith

offered_closed : (s : List GpuSample) (c : Channel) → (offered s c).closed ≡ c.closed
offered_closed s c = ground arith

-- Channels that are as open as others, known to a counter that is no smaller.
Wired-same :
    (is : List ℕ) (before after : ℕ → Channel) (n m : ℕ)
    → ((j : ℕ) → j < n → j < m)
    → ((j : ℕ) → Memᴰ j is → (after j).closed ≡ (before j).closed)
    → Wired is before n
    → Wired is after m
Wired-same [] before after n m grow same w = tt
Wired-same (i ∷ is) before after n m grow same (k, o, apart, w) = (
  grow i k,
  same i (Memᴰ.head refl) ∙ o,
  apart,
  Wired-same is before after n m grow (λ j e. same j (Memᴰ.tail e)) w,
)

-- What one round of offers makes of the channels.
abbrev pub Delivered : List GpuSample → List ℕ → (ℕ → Channel) → (ℕ → Channel) → Type 0
Delivered s is before after =
    (j : ℕ) → (Memᴰ j is → after j ≡ offered s (before j)) × (¬ Memᴰ j is → after j ≡ before j)

Delivered-cons :
    (s : List GpuSample) (i : ℕ) (is : List ℕ) (before after : ℕ → Channel)
    → All (λ j. j ≢ i) is
    → Delivered s is (set_channel i (offered s (before i)) before) after
    → Delivered s (i ∷ is) before after
Delivered-cons s i is before after apart sent j = (hit, miss)
  where
    hit : Memᴰ j (i ∷ is) → after j ≡ offered s (before j)
    hit (Memᴰ.head h) =
        subst (λ k. after k ≡ offered s (before k)) (sym h)
          ((sent i).1 (λ m. All-get _ is m apart refl) ∙ set_channel_here i _ before)
    hit (Memᴰ.tail m) =
        (sent j).0 m ∙ ap (offered s) (set_channel_other i j _ before (All-get _ is m apart))

    miss : ¬ Memᴰ j (i ∷ is) → after j ≡ before j
    miss n =
        (sent j).1 (λ m. n (Memᴰ.tail m)) ∙ set_channel_other i j _ before (λ h. n (Memᴰ.head h))

offer_all-Delivered :
    (s : List GpuSample) (is : List ℕ) (channels : ℕ → Channel) (next : ℕ)
    → Wired is channels next
    → (after : ℕ → Channel) × (offer_all s is channels ≡ some after) × Delivered s is channels after
unfolding offer_all
offer_all-Delivered s [] channels next w = (channels, refl, λ j. ((λ m. elim m [ ]), (λ n. refl)))
offer_all-Delivered s (i ∷ is) channels next (k, o, apart, w) =
    let later : Wired is (set_channel i (offered s (channels i)) channels) next =
      Wired-same is channels _ next next (λ j l. l)
        (λ j m.
          ap (λ (c : Channel). c.closed) (set_channel_other i j _ channels (All-get _ is m apart)))
        w in
    let (after, done, sent) = offer_all-Delivered s is _ next later in
    (
      after,
      rw (offer_all, offer_open s (channels i) o) done,
      Delivered-cons s i is channels after apart sent,
    )

pub IsWired : Broadcaster → Type 0
IsWired b = Wired b.subs b.channels b.next

-- A call, or a subscriber that takes the first samples off its channel.
pub data Step : Broadcaster → Broadcaster → Type 0 where
  subscribes : (b : Broadcaster) → Step b (subscribe b).0
  unsubscribes : (i : ℕ) (b : Broadcaster) → Step b (unsubscribe i b)
  publishes : (s : List GpuSample) (b c : Broadcaster) → publish s b ≡ some c → Step b c
  receives :
      (i : ℕ) (s : List GpuSample) (q : List (List GpuSample)) (b : Broadcaster)
      → (b.channels i).queue ≡ s ∷ q
      → Step b
          (record b { channels = set_channel i (record (b.channels i) { queue = q }) b.channels })

pub data Reach : Broadcaster → Type 0 where
  created : (channels : ℕ → Channel) (next : ℕ) → Reach (new_broadcaster channels next)
  continues : {b c : Broadcaster} → Reach b → Step b c → Reach c

Wired-known :
    (is : List ℕ) (channels : ℕ → Channel) (n : ℕ) → Wired is channels n → All (λ j. j < n) is
Wired-known [] channels n w = tt
Wired-known (i ∷ is) channels n (k, o, apart, w) = (k, Wired-known is channels n w)

subscribe-IsWired : (b : Broadcaster) → IsWired b → IsWired (subscribe b).0
unfolding subscribe IsWired
subscribe-IsWired b w =
    let fresh : All (λ j. j ≢ b.next) b.subs =
      All-map _ _ b.subs (λ j l e. omega arith) (Wired-known b.subs b.channels b.next w) in
    (
      omega arith,
      ap (λ (c : Channel). c.closed) (set_channel_here b.next new_channel b.channels),
      fresh,
      Wired-same b.subs b.channels _ b.next _ (λ j l. omega arith)
          (λ j m.
            ap (λ (c : Channel). c.closed)
              (set_channel_other b.next j _ b.channels (All-get _ b.subs m fresh)))
          w,
    )

keep-Wired :
    (p : ℕ → Bool) (is : List ℕ) (channels : ℕ → Channel) (n : ℕ)
    → Wired is channels n
    → Wired (keep p is) channels n
keep-Wired p [] channels n w = tt
keep-Wired p (i ∷ is) channels n (k, o, apart, w) = elim (Bool-cases (p i)) [
  | inl e ↦ rw e (
    k,
    o,
    All-of _ (keep p is) (λ j m. All-get _ is (keep-mem p is m).0 apart),
    keep-Wired p is channels n w,
  )
  | inr e ↦ rw e (keep-Wired p is channels n w)
]

unsubscribe-IsWired : (i : ℕ) (b : Broadcaster) → IsWired b → IsWired (unsubscribe i b)
unfolding unsubscribe IsWired
unsubscribe-IsWired i b w = elim (Bool-cases (any (λ j. j == i) b.subs)) [
  | inl e ↦ rw e (
      Wired-same _ b.channels _ b.next b.next (λ j l. l)
        (λ j m.
          let kept = (keep-mem (λ j. not (j == i)) b.subs m).1 in
          ap (λ (c : Channel). c.closed) (set_channel_other i j _ b.channels (λ f. ground arith)))
        (keep-Wired _ b.subs b.channels b.next w))
  | inr e ↦ rw e w
]

publish_lem :
    (s : List GpuSample) (b : Broadcaster)
    → IsWired b
    → (after : ℕ → Channel) × (publish s b ≡ some (record b { channels = after }))
      × Delivered s b.subs b.channels after
unfolding publish IsWired
publish_lem s b w =
    let (after, done, sent) = offer_all-Delivered s b.subs b.channels b.next w in
    (after, rw (publish, done) refl, sent)

Step-IsWired : (b c : Broadcaster) → Step b c → IsWired b → IsWired c
unfolding IsWired
Step-IsWired b c (Step.subscribes _) w = subscribe-IsWired b w
Step-IsWired b c (Step.unsubscribes i _) w = unsubscribe-IsWired i b w
Step-IsWired b c (Step.publishes s _ _ done) w =
    let (after, known, sent) = publish_lem s b w in
    subst IsWired (some-injective _ _ (sym known ∙ done)) (
      Wired-same b.subs b.channels after b.next b.next (λ j l. l)
        (λ j m. ap (λ (x : Channel). x.closed) ((sent j).0 m) ∙ offered_closed s (b.channels j)) w)
Step-IsWired b c (Step.receives i s q _ _) w =
    Wired-same b.subs b.channels _ b.next b.next (λ j l. l) (λ j m. ground arith) w

Reach-IsWired : (b : Broadcaster) → Reach b → IsWired b
unfolding new_broadcaster IsWired
Reach-IsWired b (Reach.created channels next) = tt
Reach-IsWired b (Reach.continues {b = a} before step) =
    Step-IsWired a b step (Reach-IsWired a before)

-- Whatever calls came before, in whatever order, a publication does not panic and changes neither the
-- subscribers nor a channel that is not theirs; a subscriber whose channel holds fewer than eight
-- publications gets this one behind them, and the channel of any other stays as it is.
pub publish-Delivered :
    (s : List GpuSample) (b : Broadcaster)
    → Reach b
    → (after : ℕ → Channel) × (publish s b ≡ some (record b { channels = after }))
      × Delivered s b.subs b.channels after
publish-Delivered s b r = publish_lem s b (Reach-IsWired b r)
