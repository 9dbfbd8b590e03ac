-- ===== src/Gpu/Broadcaster.antt =====
-- internal/gpu/broadcaster.go: the samples of the cards, fanned out to the streams of the dashboards.
-- A channel is a number, the heap of channels a function from numbers; `next` is the first number that
-- no channel has. A send on a closed channel is Go's panic, `none`. The order in which `range` visits
-- the map of subscribers is that of the list. Every method holds the lock to its end, so a method is
-- one step; a subscriber that takes samples off its channel in the meantime is left out of it.
pub mod Delivery
pub mod Sampling
use viiwork_freetoken.Prelude.{
  ℕ, ◌+◌, Bool, true, false, not, List, [], ◌∷◌, ◌++◌, Option, none, some, ltb, ◌==◌, any, keep,
  length, if◌then◌else◌,
}
use viiwork_freetoken.Gpu.History.{GpuSample}

pub record Channel : Type 0 where
  pub queue : List (List GpuSample)
  pub closed : Bool

pub record Broadcaster : Type 0 where
  pub subs : List ℕ
  pub channels : ℕ → Channel
  pub next : ℕ

abbrev pub channel_size : ℕ
channel_size = 8

abbrev pub new_channel : Channel
new_channel = record { queue = []; closed = false }

abbrev pub set_channel : ℕ → Channel → (ℕ → Channel) → ℕ → Channel
set_channel i c channels j = if j == i then c else channels j

unfoldable pub new_broadcaster : (ℕ → Channel) → ℕ → Broadcaster
new_broadcaster channels next = record { subs = []; channels = channels; next = next }

-- The broadcaster with the new channel, and the channel.
unfoldable pub subscribe : Broadcaster → Broadcaster × ℕ
subscribe b = (
  record {
    subs = b.next ∷ b.subs;
    channels = set_channel b.next new_channel b.channels;
    next = b.next + 1;
  },
  b.next,
)

abbrev pub closing : Channel → Channel
closing c = record c { closed = true }

unfoldable pub unsubscribe : ℕ → Broadcaster → Broadcaster
unsubscribe i b =
    if any (λ j. j == i) b.subs
    then record b {
      subs = keep (λ j. not (j == i)) b.subs;
      channels = set_channel i (closing (b.channels i)) b.channels;
    }
    else b

-- The `select` with its default: a full channel loses the samples.
unfoldable pub offer : List GpuSample → Channel → Option Channel
offer s c =
    if c.closed
    then none
    else if ltb (length c.queue) channel_size
    then some (record c { queue = c.queue ++ s ∷ [] })
    else some c

unfoldable pub offer_all : List GpuSample → List ℕ → (ℕ → Channel) → Option (ℕ → Channel)
offer_all s [] channels = some channels
offer_all s (i ∷ is) channels = elim (offer s (channels i)) [
  | none ↦ none
  | some c ↦ offer_all s is (set_channel i c channels)
]

unfoldable pub publish : List GpuSample → Broadcaster → Option Broadcaster
publish s b = elim (offer_all s b.subs b.channels) [
  | none ↦ none
  | some channels ↦ some (record b { channels = channels })
]

unfoldable pub subscriber_count : Broadcaster → ℕ
subscriber_count b = length b.subs
