-- ===== src/Proxy/Metrics/Shown.antt =====
-- What waits for a metrics stream (internal/proxy/meshactivity.go) that has taken nothing so far.
use viiwork_freetoken.Prelude.{
  ℕ, zero, suc, ◌≤◌, ◌≡◌, refl, sym, ap, ◌∙◌, subst, inl, inr, true, List, [], ◌∷◌, ◌++◌, none,
  some, Option, append-nil, append_assoc, length-append, ltb, length, take, Memᴰ, Bool-cases, arith,
}
use viiwork_freetoken.Gpu.History.{GpuSample}
use viiwork_freetoken.Gpu.Broadcaster.{Broadcaster, channel_size, new_channel, subscribe, publish}
use viiwork_freetoken.Gpu.Broadcaster.Delivery.{Reach, Step, offered, publish-Delivered}
use viiwork_freetoken.Proxy.Metrics.{streams, open_metrics_stream}

-- One publication after another.
unfoldable pub publish_all : List (List GpuSample) → Broadcaster → Option Broadcaster
publish_all [] b = some b
publish_all (s ∷ ss) b = elim (publish s b) [ none ↦ none | some c ↦ publish_all ss c ]

module _ {ℓ} {A : Type ℓ} where
  take_whole : (n : ℕ) (xs ys : List A) → length xs ≡ n → take n (xs ++ ys) ≡ xs
  take_whole zero [] ys h = refl
  take_whole zero (x ∷ xs) ys h = absurd (omega arith)
  take_whole (suc n) [] ys h = absurd (omega arith)
  take_whole (suc n) (x ∷ xs) ys h = rw (take_whole n xs ys (omega arith)) refl

  take_short : (n : ℕ) (xs : List A) → length xs ≤ n → take n xs ≡ xs
  take_short zero [] h = refl
  take_short zero (x ∷ xs) h = absurd (omega arith)
  take_short (suc n) [] h = refl
  take_short (suc n) (x ∷ xs) h = rw (take_short n xs (omega arith)) refl

-- A queue that takes the items one by one, up to its size.
offered-take :
    (s : List GpuSample) (ss q : List (List GpuSample)) (closed : _)
    → length q ≤ channel_size
    → let p = (offered s (record { queue = q; closed = closed })).queue in
      (length p ≤ channel_size) × (take channel_size (p ++ ss) ≡ take channel_size (q ++ s ∷ ss))
offered-take s ss q closed h = elim (Bool-cases (ltb (length q) channel_size)) [
  | inl e ↦ rw e (
    ground (arith, length-append q (s ∷ [])),
    ap (take channel_size) (append_assoc q (s ∷ []) ss),
  )
  | inr e ↦
      let full : length q ≡ channel_size = ground arith in
      rw e (h, take_whole channel_size q ss full ∙ sym (take_whole channel_size q (s ∷ ss) full))
]

publish_all-queue :
    (ss : List (List GpuSample)) (i : ℕ) (b : Broadcaster)
    → Reach b
    → Memᴰ i b.subs
    → length (b.channels i).queue ≤ channel_size
    → (g : Broadcaster) × (publish_all ss b ≡ some g)
      × ((g.channels i).queue ≡ take channel_size ((b.channels i).queue ++ ss))
unfolding publish_all
publish_all-queue [] i b r m h =
    let whole : take channel_size ((b.channels i).queue ++ []) ≡ (b.channels i).queue =
      ap (take channel_size) (append-nil (b.channels i).queue)
      ∙ take_short channel_size (b.channels i).queue h in
    (b, refl, sym whole)
publish_all-queue (s ∷ ss) i b r m h =
    let (after, done, sent) = publish-Delivered s b r in
    let (short, same) = offered-take s ss (b.channels i).queue (b.channels i).closed h in
    let here = ap (λ c. c.queue) ((sent i).0 m) in
    let (g, ran, queue) =
      publish_all-queue ss i (record b { channels = after })
        (Reach.continues r (Step.publishes s b _ done)) m
        (subst (λ q. length q ≤ channel_size) (sym here) short) in
    (g, rw (publish_all, done) ran, queue ∙ ap (λ q. take channel_size (q ++ ss)) here ∙ same)

-- A stream that is opened whatever calls came before, and that takes nothing off its channel, finds
-- there the first eight of the publications since, in their order, and no publication panics.
pub open_metrics_stream-publish_all :
    (ss : List (List GpuSample)) (b : Broadcaster)
    → Reach b
    → (i : ℕ) × (c : Broadcaster) × (open_metrics_stream (some b) true ≡ streams i c)
      × ((g : Broadcaster) × (publish_all ss c ≡ some g)
          × ((g.channels i).queue ≡ take channel_size ss))
unfolding open_metrics_stream subscribe
open_metrics_stream-publish_all ss b r =
    let c = (subscribe b).0 in
    let fresh : c.channels b.next ≡ new_channel = ground arith in
    let empty : (c.channels b.next).queue ≡ [] = ap (λ k. k.queue) fresh in
    let (g, ran, queue) =
      publish_all-queue ss b.next c (Reach.continues r (Step.subscribes b)) (Memᴰ.head refl)
        (subst (λ q. length q ≤ channel_size) (sym empty) (omega arith)) in
    (b.next, c, refl, (g, ran, queue ∙ ap (λ q. take channel_size (q ++ ss)) empty))
