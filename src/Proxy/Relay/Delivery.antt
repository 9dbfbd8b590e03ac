-- ===== src/Proxy/Relay/Delivery.antt =====
-- What reaches the client of a response, and what a request leaves with the backend
-- (internal/proxy/streaming.go).
use viiwork_freetoken.Prelude.{
  ℕ, ◌≡◌, ◌≢◌, refl, sym, ap, ◌∙◌, inl, inr, Bool, true, false, not, ◌&&◌, ◌||◌, List, [], ◌∷◌,
  ◌++◌, ℤ, pos, ltb_ℤ, Bytes, is_empty_text, append-nil, append_assoc, Bool-cases, arith,
}
use viiwork_freetoken.Balancer.State.{
  BackendState, note_hard_failure, record_latency, decr_in_flight, evict_locked,
}
use viiwork_freetoken.Proxy.Dispatch.{responds, finish_request}
use viiwork_freetoken.Proxy.Headers.{Header}
use viiwork_freetoken.Proxy.Relay.{
  NetError, is_hard_failure, is_client_abort, Body, more, ends, stream_body, UpstreamCall, unmade,
  errs, answers, upstream_of, at_end,
}

-- All that is read of the body.
abbrev pub sent_bytes : Body → Bytes
sent_bytes (more p _ rest) = p ++ sent_bytes rest
sent_bytes (ends p _ _ _) = p

-- Some write fails.
abbrev pub refused : Body → Bool
refused (more p takes rest) = (not (is_empty_text p) && not takes) || refused rest
refused (ends p takes _ _) = not (is_empty_text p) && not takes

-- The last read fails because the client is gone.
abbrev pub cut_off : Body → Bool
cut_off (more _ _ rest) = cut_off rest
cut_off (ends _ _ gone e) = not e.is_eof && is_client_abort gone e

-- The body as it would be if its last read had come to the end.
abbrev eof : NetError
eof = record {
  is_eof = true;
  is_unexpected_eof = false;
  is_refused = false;
  is_op_error = false;
  is_handler_timeout = false;
  text = [];
}

abbrev pub completed : Body → Body
completed (more p takes rest) = more p takes (completed rest)
completed (ends p takes gone _) = ends p takes gone eof

abbrev IsRelayed : Body → Bytes × Bool → Type 0
IsRelayed body (got, aborted) =
    ((lost : Bytes) × (sent_bytes body ≡ got ++ lost))
    × (aborted ≡ (refused body || cut_off body))
    × (aborted ≡ false → got ≡ sent_bytes body)

at_end_lem : (gone : Bool) (e : NetError) → at_end gone e ≡ (not e.is_eof && is_client_abort gone e)
at_end_lem gone e = elim (Bool-cases e.is_eof) [ inl h ↦ rw h | inr h ↦ rw h ]

-- The client gets the first part of what is read of the body, in order; the request counts as abandoned
-- exactly if a write fails or the last read does for the client's sake; and else the client gets all
-- that is read.
pub stream_body-IsRelayed : (body : Body) → IsRelayed body (stream_body body)
unfolding stream_body
stream_body-IsRelayed (more [] takes rest) = stream_body-IsRelayed rest
stream_body-IsRelayed (more (x ∷ p) true rest) =
    let ((lost, all), why, whole) = stream_body-IsRelayed rest in
    (
      (lost, ap (λ l. (x ∷ p) ++ l) all ∙ sym (append_assoc (x ∷ p) (stream_body rest).0 lost)),
      why,
      (λ h. ap (λ l. (x ∷ p) ++ l) (whole h)),
    )
stream_body-IsRelayed (more (x ∷ p) false rest) =
    (((x ∷ p) ++ sent_bytes rest, refl), refl, (λ h. absurd (ground arith)))
stream_body-IsRelayed (ends [] takes gone e) = (([], refl), at_end_lem gone e, (λ h. refl))
stream_body-IsRelayed (ends (x ∷ p) true gone e) =
    (([], sym (append-nil (x ∷ p))), at_end_lem gone e, (λ h. refl))
stream_body-IsRelayed (ends (x ∷ p) false gone e) =
    ((x ∷ p, refl), refl, (λ h. absurd (ground arith)))

and_true : (a b : Bool) → (a && b) ≡ true → (a ≡ true) × (b ≡ true)
and_true true b h = (refl, h)
and_true false b h = absurd (ground arith)

not-true : (a : Bool) → not a ≡ true → a ≡ false
not-true a h = ground arith

-- A call that fails otherwise than by the client, with an error that tells of a dead process.
abbrev pub is_latched : UpstreamCall → Bool
is_latched unmade = false
is_latched (errs gone e) = not (is_client_abort gone e) && is_hard_failure e
is_latched (answers _ _ _) = false

-- A response without a server error of which the client got all that was read.
abbrev pub IsDelivered : UpstreamCall → Type 0
IsDelivered unmade = ⊥
IsDelivered (errs _ _) = ⊥
IsDelivered (answers status _ body) =
    (ltb_ℤ status (pos 500) ≡ true) × ((stream_body body).0 ≡ sent_bytes body)

-- A request latches a hard failure exactly if its call fails with one and not for the client's sake,
-- and it leaves a latency sample only if the client got all that was read of a response without a
-- server error, whether or not the backend broke that response off.
pub finish_request-upstream_of :
    (now dur : ℕ) (call : UpstreamCall) (b : BackendState)
    → let s = finish_request now dur (upstream_of call) b in
      (s.hard_failure ≡ (b.hard_failure || is_latched call))
      × (s.samples ≢ b.samples → IsDelivered call)
unfolding finish_request upstream_of note_hard_failure record_latency decr_in_flight evict_locked
finish_request-upstream_of now dur unmade b = (ground arith, (λ h. absurd (h refl)))
finish_request-upstream_of now dur (errs gone e) b =
    (ground arith, (λ h. absurd (h (ground arith))))
finish_request-upstream_of now dur (answers status hs body) b =
    let ((lost, all), why, whole) = stream_body-IsRelayed body in
    elim (Bool-cases (not (stream_body body).1 && ltb_ℤ status (pos 500))) [
      | inl e ↦
          (rw e (ground arith), λ h. ((and_true _ _ e).1, whole (not-true _ (and_true _ _ e).0)))
      | inr e ↦ (rw e (ground arith), λ h. absurd (h (rw e refl)))
    ]

stream_body-completed :
    (body : Body) → cut_off body ≡ false → stream_body body ≡ stream_body (completed body)
unfolding stream_body
stream_body-completed (more p takes rest) h = rw (stream_body-completed rest h) refl
stream_body-completed (ends p takes gone e) h = rw (at_end_lem gone e ∙ h) refl

-- A response that the backend breaks off leaves the client and the backend's state as one does that
-- is complete with the same bytes.
pub completed-stream_body :
    (now dur : ℕ) (status : ℤ) (hs : List Header) (body : Body) (b : BackendState)
    → cut_off body ≡ false
    → (stream_body body ≡ stream_body (completed body))
      × (finish_request now dur (upstream_of (answers status hs body)) b
          ≡ finish_request now dur (upstream_of (answers status hs (completed body))) b)
unfolding upstream_of
completed-stream_body now dur status hs body b h =
    let same = stream_body-completed body h in
    (same, ap (λ (r : Bytes × Bool). finish_request now dur (responds status r.1) b) same)
