-- ===== src/Activity/Log.antt =====
-- internal/activity/activity.go: the bounded ring of events and its live subscribers.
-- A channel is a number, the heap of channels a function from numbers; `next` is the first number
-- that no channel has. A send on a closed channel is Go's panic, `none`. The order in which `range`
-- visits the map of subscribers is that of the list. `time.Now` and `fmt.Sprintf` are taken by their
-- results.
pub mod Sends
pub mod Wiring
pub mod Delivery
use viiwork_freetoken.Prelude.{
  ℕ, ◌+◌, ◌-◌, Bool, true, false, not, List, [], ◌∷◌, ◌++◌, map, Option, none, some, String, ℤ, pos,
  pos_part, ltb_ℤ, ltb, ◌==◌, any, keep, length, last_n, if◌then◌else◌,
}

-- `meshapi.Event`, with the fields that the source writes.
pub record Event : Type 0 where
  pub time : ℤ
  pub kind : String
  pub message : String
  pub gpu_id : ℤ
  pub request_id : ℤ
  pub task_id : String
  pub replay : Bool

pub record Channel : Type 0 where
  pub queue : List Event
  pub closed : Bool

pub record Log : Type 0 where
  pub ring : List Event
  pub max : ℤ
  pub subs : List ℕ

-- The log and the heap of channels.
pub record Hub : Type 0 where
  pub log : Log
  pub channels : ℕ → Channel
  pub next : ℕ

unfoldable pub new_log : ℤ → Log
new_log max = record { ring = []; max = if ltb_ℤ max (pos 1) then pos 2000 else max; subs = [] }

abbrev pub set_channel : ℕ → Channel → (ℕ → Channel) → ℕ → Channel
set_channel i c channels j = if j == i then c else channels j

abbrev pub new_channel : Channel
new_channel = record { queue = []; closed = false }

-- The new channel, and the hub with it among the subscribers.
unfoldable pub subscribe : Hub → ℕ × Hub
subscribe h = (
  h.next,
  record {
    log = record h.log { subs = h.next ∷ h.log.subs };
    channels = set_channel h.next new_channel h.channels;
    next = h.next + 1;
  },
)

close : Channel → Channel
close c = record c { closed = true }

unfoldable pub unsubscribe : ℕ → Hub → Hub
unfolding close
unsubscribe i h =
    if any (λ j. j == i) h.log.subs
    then record h {
      log = record h.log { subs = keep (λ j. not (j == i)) h.log.subs };
      channels = set_channel i (close (h.channels i)) h.channels;
    }
    else h

abbrev pub replayed : Event → Event
replayed e = record e { replay = true }

unfoldable pub backlog : Log → List Event
backlog l = map replayed l.ring

unfoldable pub recent : Log → List Event
recent l = l.ring

unfoldable pub subscriber_count : Log → ℕ
subscriber_count l = length l.subs

-- What `emit` does under the lock.
unfoldable pub log_event : Event → Log → Log
log_event e l =
    let ring = l.ring ++ e ∷ [] in
    record l {
      ring = if ltb_ℤ l.max (pos (length ring)) then last_n (pos_part l.max) ring else ring;
    }

abbrev pub channel_size : ℕ
channel_size = 256

-- The `select` with its default: a full channel loses the event.
pub send : Event → Channel → Option Channel
send e c =
    if c.closed
    then none
    else if ltb (length c.queue) channel_size
    then some (record c { queue = c.queue ++ e ∷ [] })
    else some c

-- What `emit` does after the lock, over the subscribers that it saw under it.
unfoldable pub send_all : Event → List ℕ → (ℕ → Channel) → Option (ℕ → Channel)
unfolding send
send_all e [] channels = some channels
send_all e (i ∷ is) channels = elim (send e (channels i)) [
  | none ↦ none
  | some c ↦ send_all e is (set_channel i c channels)
]

-- An `emit` that no other call comes between.
unfoldable pub emit : Event → Hub → Option Hub
emit e h = elim (send_all e h.log.subs h.channels) [
  | none ↦ none
  | some channels ↦ some (record h { log = log_event e h.log; channels = channels })
]

-- The event of `Emit`, and that of `EmitRequestTask`; `EmitRequest` has the empty task.
abbrev pub node_event : ℤ → String → ℤ → String → Event
node_event time kind gpu_id message = record {
  time = time;
  kind = kind;
  message = message;
  gpu_id = gpu_id;
  request_id = pos 0;
  task_id = "";
  replay = false;
}

-- The kind is a constant of `meshapi`.
abbrev pub request_event : String → ℤ → ℤ → ℤ → String → String → Event
request_event request_kind time rid gpu_id task_id message = record {
  time = time;
  kind = request_kind;
  message = message;
  gpu_id = gpu_id;
  request_id = rid;
  task_id = task_id;
  replay = false;
}
