-- ===== src/Examples/Fanout.antt =====
-- Two streams of samples (internal/gpu/broadcaster.go), and one that has ended.
use viiwork_freetoken.Prelude.{List, [], ◌∷◌, true, take, ℕ, ◌≡◌, some, pos}
use viiwork_freetoken.Gpu.History.{GpuSample}
use viiwork_freetoken.Gpu.Broadcaster.{
  Channel, Broadcaster, new_channel, new_broadcaster, subscribe, unsubscribe, publish,
}
use viiwork_freetoken.Gpu.Broadcaster.Delivery.{Reach, Step, Delivered, publish-Delivered}
use viiwork_freetoken.Gpu.Broadcaster.{channel_size}
use viiwork_freetoken.Proxy.Metrics.{streams, open_metrics_stream}
use viiwork_freetoken.Proxy.Metrics.Shown.{publish_all, open_metrics_stream-publish_all}
use viiwork_freetoken.Examples.Cards.{reading}

abbrev quiet : Broadcaster
quiet = new_broadcaster (λ i. new_channel) 3

abbrev followed : Broadcaster
followed = (subscribe (unsubscribe 3 (subscribe (subscribe quiet).0).0)).0

followed-Reach : Reach followed
followed-Reach =
    Reach.continues
      (Reach.continues
        (Reach.continues
          (Reach.continues (Reach.created (λ i. new_channel) 3) (Step.subscribes quiet))
          (Step.subscribes (subscribe quiet).0))
        (Step.unsubscribes 3 (subscribe (subscribe quiet).0).0))
      (Step.subscribes (unsubscribe 3 (subscribe (subscribe quiet).0).0))

publish-Delivered_example :
    (after : ℕ → Channel) × (publish (reading (pos 4) (pos 1) ∷ []) followed
      ≡ some (record followed { channels = after }))
    × Delivered (reading (pos 4) (pos 1) ∷ []) followed.subs followed.channels after
publish-Delivered_example = publish-Delivered (reading (pos 4) (pos 1) ∷ []) followed followed-Reach

abbrev publications : List (List GpuSample)
publications = (reading (pos 4) (pos 1) ∷ []) ∷ (reading (pos 2) (pos 6) ∷ []) ∷ []

open_metrics_stream-publish_all_example :
    (i : ℕ) × (c : Broadcaster) × (open_metrics_stream (some followed) true ≡ streams i c)
    × ((g : Broadcaster) × (publish_all publications c ≡ some g)
        × ((g.channels i).queue ≡ take channel_size publications))
open_metrics_stream-publish_all_example =
    open_metrics_stream-publish_all publications followed followed-Reach
