-- ===== src/Proxy/Request/Balance.antt =====
-- The counts of a node agree with its requests, whatever overlaps (internal/proxy/handler.go).
use viiwork_freetoken.Prelude.{
  ℕ, zero, suc, ◌+◌, ◌≡◌, refl, sym, ap, ◌∙◌, Bool, true, false, not, ◌&&◌, List, [], ◌∷◌, ◌++◌, ℤ,
  pos, eqb_ℤ, if◌then◌else◌, Bytes, arith,
}
use viiwork_freetoken.Balancer.State.{BackendState, BackendStatus, set_status, take_hard_failure}
use viiwork_freetoken.Peer.State.{PeerState, update, mark_unreachable}
use viiwork_freetoken.Peer.Route.{RouteType, route_local, route_peer}
use viiwork_freetoken.Peer.Registry.{Registry, PollResult, poll_peer, poll_all, poll_once}
use viiwork_freetoken.Proxy.Dispatch.{Upstream, not_made, fails, responds}
use viiwork_freetoken.Proxy.Request.{
  Labels, Stage, started, done, aborted, Notice, Node, Call, update_at, notice, last_stage,
  open_request, close_request,
}
use viiwork_freetoken.Proxy.Request.Ledger.{
  Tally, Tally-kept, at_backend, at_peer, at_backend-remove, at_peer-remove, BackendsTally,
  PeersTally, opens_tally, closes_tally,
}

abbrev with_backends : (List BackendState → List BackendState) → Node → Node
with_backends f n = record n { registry = record n.registry { backends = f n.registry.backends } }

abbrev pub polled : List PollResult → Node → Node
polled results n = record n { registry = poll_once results n.registry }

-- A request that has come to its end, with what became of the upstream call.
pub record Ended : Type 0 where
  pub call : Call
  pub upstream : Upstream

-- A node, the requests that it has under way and those that have ended, the last one first. Meanwhile it polls its peers, and the manager writes
-- the status of a backend and reads its latch.
pub data Running : List Call → List Ended → Node → Type 0 where
  idle :
      (n : Node)
      → BackendsTally n.registry (λ i. 0)
      → PeersTally n.registry (λ i. 0)
      → n.feed ≡ []
      → Running [] [] n
  opens :
      {cs : List Call} {es : List Ended} {n : Node} (labels : Labels) (time : ℤ) (c : Call)
      → Running cs es n
      → Running (c ∷ cs) es (open_request labels time c n)
  closes :
      (front back : List Call) {es : List Ended} {n : Node} (labels : Labels) (time elapsed : ℤ)
      (now dur : ℕ) (output : Bytes) (u : Upstream) (c : Call)
      → Running (front ++ c ∷ back) es n
      → Running
          (front ++ back)
          (record { call = c; upstream = u } ∷ es)
          (close_request labels time elapsed now dur output u c n)
  polls :
      {cs : List Call} {es : List Ended} {n : Node} (results : List PollResult)
      → Running cs es n
      → Running cs es (polled results n)
  marks :
      {cs : List Call} {es : List Ended} {n : Node} (i : ℕ) (s : BackendStatus)
      → Running cs es n
      → Running cs es (with_backends (λ bs. update_at (set_status s) i bs) n)
  reads :
      {cs : List Call} {es : List Ended} {n : Node} (i : ℕ)
      → Running cs es n
      → Running cs es (with_backends (λ bs. update_at (λ b. (take_hard_failure b).1) i bs) n)

abbrev same_stage : Stage → Stage → Bool
same_stage started started = true
same_stage done done = true
same_stage aborted aborted = true
same_stage _ _ = false

abbrev pub count {ℓ} : {A : Type ℓ} → (A → Bool) → List A → ℕ
count p [] = 0
count p (x ∷ xs) = if p x then suc (count p xs) else count p xs

count-append {ℓ} :
    {A : Type ℓ} (p : A → Bool) (xs ys : List A) → count p (xs ++ ys) ≡ count p xs + count p ys
count-append p [] ys = omega arith
count-append p (x ∷ xs) ys = ground (arith, count-append p xs ys)

count-remove {ℓ} :
    {A : Type ℓ} (p : A → Bool) (front back : List A) (c : A)
    → count p (front ++ c ∷ back) ≡ count p (c ∷ front ++ back)
count-remove p [] back c = refl
count-remove p (d ∷ front) back c = ground (arith, count-remove p front back c)

-- How often the feed shows a request at a stage.
abbrev pub shown : ℤ → Stage → List Notice → ℕ
shown id s es = count (λ e. eqb_ℤ e.request_id id && same_stage s e.stage) es

abbrev pub asks : ℤ → Call → Bool
asks id c = eqb_ℤ c.request_id id

-- The client of a request to a backend of the node went away. Of one to a peer that is not looked at.
abbrev pub abandoned : RouteType → Upstream → Bool
abandoned route_peer u = false
abandoned route_local not_made = false
abandoned route_local (fails gone hard) = gone
abandoned route_local (responds status gone) = gone

abbrev pub gave_up : Ended → Bool
gave_up e = abandoned e.call.route.kind e.upstream

poll_peer-local :
    (res : PollResult) (q : PeerState) → (poll_peer res q).local_in_flight ≡ q.local_in_flight
unfolding poll_peer update mark_unreachable
poll_peer-local res q = ground arith

-- A poll leaves this node's own count of a peer alone.
poll_all-Tally :
    (results : List PollResult) (ps : List PeerState) (k : ℕ → ℕ)
    → Tally (λ p. PeerState.local_in_flight p) ps k
    → Tally (λ p. PeerState.local_in_flight p) (poll_all results ps) k
unfolding poll_all poll_peer update mark_unreachable
poll_all-Tally results [] k h i p e = absurd (ground arith)
poll_all-Tally [] (q ∷ qs) k h i p e = h i p e
poll_all-Tally (res ∷ results) (q ∷ qs) k h zero p e =
    let same : poll_peer res q ≡ p = ground arith in
    ap (λ x. PeerState.local_in_flight x) (sym same) ∙ poll_peer-local res q ∙ h 0 q refl
poll_all-Tally (res ∷ results) (q ∷ qs) k h (suc i) p e =
    poll_all-Tally results qs (λ n. k (suc n)) (λ n x g. h (suc n) x g) i p e

abbrev one_if : Bool → ℕ
one_if b = if b then 1 else 0

-- One more stage at the end of the feed.
shown-notice :
    (labels : Labels) (r : Registry) (stage s : Stage) (id : ℤ) (c : Call) (es : List Notice)
    → shown id s (es ++ notice labels r stage c ∷ [])
      ≡ shown id s es + one_if (asks id c && same_stage s stage)
unfolding notice
shown-notice labels r stage s id c es =
    count-append (λ e. eqb_ℤ e.request_id id && same_stage s e.stage) es
      (notice labels r stage c ∷ [])

last_stage_lem :
    (kind : RouteType) (u : Upstream)
    → last_stage kind u ≡ (if abandoned kind u then aborted else done)
unfolding last_stage
last_stage_lem route_peer u = refl
last_stage_lem route_local not_made = refl
last_stage_lem route_local (fails gone hard) = refl
last_stage_lem route_local (responds status gone) = refl

-- What holds of a node with requests under way and others at their end.
pub record IsBalanced (cs : List Call) (es : List Ended) (n : Node) : Type 0 where
  pub backends_counted : BackendsTally n.registry (at_backend cs)
  pub peers_counted : PeersTally n.registry (at_peer cs)
  pub begun_shown :
      (id : ℤ) → shown id started n.feed ≡ count (asks id) cs + count (λ e. asks id e.call) es
  pub done_shown :
      (id : ℤ) → shown id done n.feed ≡ count (λ e. asks id e.call && not (gave_up e)) es
  pub aborted_shown :
      (id : ℤ) → shown id aborted n.feed ≡ count (λ e. asks id e.call && gave_up e) es

opens-IsBalanced :
    (labels : Labels) (time : ℤ) (cs : List Call) (es : List Ended) (c : Call) (n : Node)
    → IsBalanced cs es n
    → IsBalanced (c ∷ cs) es (open_request labels time c n)
unfolding open_request
opens-IsBalanced labels time cs es c n h =
    let (b, p) =
      opens_tally c.route c.route.kind n.registry (at_backend cs) (at_peer cs) h.backends_counted
        h.peers_counted in
    record {
      backends_counted = b;
      peers_counted = p;
      begun_shown = λ id.
          shown-notice labels n.registry started started id c n.feed
          ∙ ground (arith, h.begun_shown id);
      done_shown = λ id.
          shown-notice labels n.registry started done id c n.feed ∙ ground (arith, h.done_shown id);
      aborted_shown = λ id.
          shown-notice labels n.registry started aborted id c n.feed
          ∙ ground (arith, h.aborted_shown id);
    }

closes-IsBalanced :
    (labels : Labels) (time elapsed : ℤ) (now dur : ℕ) (output : Bytes) (u : Upstream)
    (front back : List Call) (es : List Ended) (c : Call) (n : Node)
    → IsBalanced (front ++ c ∷ back) es n
    → IsBalanced
        (front ++ back)
        (record { call = c; upstream = u } ∷ es)
        (close_request labels time elapsed now dur output u c n)
unfolding close_request
closes-IsBalanced labels time elapsed now dur output u front back es c n h =
    let rest = front ++ back in
    let last = last_stage_lem c.route.kind u in
    let (b, p) =
      closes_tally now dur u c.route c.route.kind n.registry (at_backend rest) (at_peer rest)
        (λ i x e. h.backends_counted i x e ∙ ap pos (at_backend-remove front back c i))
        (λ i x e. h.peers_counted i x e ∙ ap pos (at_peer-remove front back c i)) in
    let shows : (s : Stage) (id : ℤ)
        → shown id s (n.feed ++ notice labels n.registry (last_stage c.route.kind u) c ∷ [])
          ≡ shown id s n.feed
            + one_if
                (asks id c && same_stage s (if abandoned c.route.kind u then aborted else done)) =
      λ s id.
        shown-notice labels n.registry (last_stage c.route.kind u) s id c n.feed
        ∙ ap (λ t. shown id s n.feed + one_if (asks id c && same_stage s t)) last in
    record {
      backends_counted = b;
      peers_counted = p;
      begun_shown = λ id.
          shows started id ∙ ground (arith, h.begun_shown id, count-remove (asks id) front back c);
      done_shown = λ id. shows done id ∙ ground (arith, h.done_shown id);
      aborted_shown = λ id. shows aborted id ∙ ground (arith, h.aborted_shown id);
    }

with_backends-IsBalanced :
    (f : BackendState → BackendState) (i : ℕ) (cs : List Call) (es : List Ended) (n : Node)
    → ((b : BackendState) → (f b).in_flight ≡ b.in_flight)
    → IsBalanced cs es n
    → IsBalanced cs es (with_backends (λ bs. update_at f i bs) n)
with_backends-IsBalanced f i cs es n same h = record {
  backends_counted =
      Tally-kept (λ b. BackendState.in_flight b) f i n.registry.backends (at_backend cs) same
        h.backends_counted;
  peers_counted = h.peers_counted;
  begun_shown = h.begun_shown;
  done_shown = h.done_shown;
  aborted_shown = h.aborted_shown;
}

polls-IsBalanced :
    (results : List PollResult) (cs : List Call) (es : List Ended) (n : Node)
    → IsBalanced cs es n
    → IsBalanced cs es (polled results n)
unfolding poll_once
polls-IsBalanced results cs es n h = record {
  backends_counted = h.backends_counted;
  peers_counted = poll_all-Tally results n.registry.peers (at_peer cs) h.peers_counted;
  begun_shown = h.begun_shown;
  done_shown = h.done_shown;
  aborted_shown = h.aborted_shown;
}

-- However requests overlap and end, and whatever the polls of the peers and the manager do between the
-- two halves of a request: the number in flight of each backend and this node's own count of each peer
-- are those of the requests that are under way to it. For each request id, the feed shows as many
-- starts as requests with it were begun; as many aborted as those of them that ended on a backend of the
-- node with the client gone; and as many done as the others that ended.
pub Running-IsBalanced :
    (cs : List Call) (es : List Ended) (n : Node) → Running cs es n → IsBalanced cs es n
unfolding set_status take_hard_failure
Running-IsBalanced cs es n (Running.idle _ b p f) = record {
  backends_counted = b;
  peers_counted = p;
  begun_shown = λ id. rw f refl;
  done_shown = λ id. rw f refl;
  aborted_shown = λ id. rw f refl;
}
Running-IsBalanced cs es n (Running.opens {cs = ds} {n = m} labels time c before) =
    opens-IsBalanced labels time ds es c m (Running-IsBalanced ds es m before)
Running-IsBalanced cs es n
      (Running.closes front back {es = fs} {n = m} labels time elapsed now dur output u c before) =
    closes-IsBalanced labels time elapsed now dur output u front back fs c m
      (Running-IsBalanced (front ++ c ∷ back) fs m before)
Running-IsBalanced cs es n (Running.polls {n = m} results before) =
    polls-IsBalanced results cs es m (Running-IsBalanced cs es m before)
Running-IsBalanced cs es n (Running.marks {n = m} i s before) =
    with_backends-IsBalanced (set_status s) i cs es m (λ b. refl)
      (Running-IsBalanced cs es m before)
Running-IsBalanced cs es n (Running.reads {n = m} i before) =
    with_backends-IsBalanced (λ b. (take_hard_failure b).1) i cs es m (λ b. refl)
      (Running-IsBalanced cs es m before)
