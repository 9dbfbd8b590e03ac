-- ===== src/Proxy/MeshStream/Followed.antt =====
-- What a node forwards of a peer's feed (internal/proxy/meshactivity.go).
use viiwork_freetoken.Prelude.{
  ◌≡◌, refl, sym, ap, ◌∙◌, inl, inr, List, [], ◌∷◌, ◌++◌, map, Option, none, some, Bytes, All,
  Option-cases,
}
use viiwork_freetoken.Activity.Log.{Event, Log, backlog}
use viiwork_freetoken.Peer.State.{PeerState}
use viiwork_freetoken.Proxy.Stream.{sent, stream_bytes, read_lines, received}
use viiwork_freetoken.Proxy.Stream.Delivered.{IsLine, IsClean, payloads, received-stream_bytes}
use viiwork_freetoken.Proxy.MeshStream.{
  MeshEvent, peer_event, follow, activity_frame, handle_activity_stream,
}

module _ (encode : Event → Option Bytes) (decode : Bytes → Option Event) where
  -- The encoding of the event, if it has one, is a line and decodes to it.
  abbrev pub IsCoded : Option Event → Type 0
  IsCoded none = Unit
  IsCoded (some e) = (p : Bytes) → encode e ≡ some p → (decode p ≡ some e) × IsLine p

  -- The events among the frames that can be encoded.
  abbrev pub encodable : List (Option Event) → List Event
  encodable [] = []
  encodable (none ∷ os) = encodable os
  encodable (some e ∷ os) =
      let rest = encodable os in elim (encode e) [ none ↦ rest | some _ ↦ e ∷ rest ]

  frames-IsClean :
      (os : List (Option Event)) → All IsCoded os → All IsClean (map (activity_frame encode) os)
  unfolding activity_frame
  frames-IsClean [] c = tt
  frames-IsClean (none ∷ os) c = (tt, frames-IsClean os c.1)
  frames-IsClean (some e ∷ os) c = (clean (encode e) refl, frames-IsClean os c.1)
    where
      clean : (o : Option Bytes) → encode e ≡ o → IsClean (sent [] o)
      clean none h = tt
      clean (some p) h = (tt, (c.0 p h).1)

  follow-payloads :
      (p : PeerState) (os : List (Option Event))
      → All IsCoded os
      → follow decode p (payloads (map (activity_frame encode) os))
        ≡ map (peer_event p) (encodable os)
  unfolding follow activity_frame
  follow-payloads p [] c = refl
  follow-payloads p (none ∷ os) c = follow-payloads p os c.1
  follow-payloads p (some e ∷ os) c = elim (Option-cases (encode e)) [
    | inl h ↦ rw (h, encodable) (follow-payloads p os c.1)
    | inr (q, h) ↦
        rw (h, encodable, follow, (c.0 q h).0)
          (ap (λ l. peer_event p e ∷ l) (follow-payloads p os c.1))
  ]

  follow-append :
      (p : PeerState) (xs ys : List Bytes)
      → follow decode p (xs ++ ys) ≡ follow decode p xs ++ follow decode p ys
  unfolding follow
  follow-append p [] ys = refl
  follow-append p (x ∷ xs) ys = elim (Option-cases (decode x)) [
    | inl h ↦ rw (h, follow) (follow-append p xs ys)
    | inr (e, h) ↦ rw (h, follow) (ap (λ l. peer_event p e ∷ l) (follow-append p xs ys))
  ]

  -- Where each event is sent as a line that decodes to it, or not at all, what a node forwards of
  -- a peer's feed is the peer's backlog and live events, in order, under the peer's identity, without
  -- those that could not be encoded; and where the connection breaks after the bytes `xs`, it is the
  -- first ones of them.
  pub follow-handle_activity_stream :
      (p : PeerState) (log : Log) (live : List (Option Event)) (xs ys : Bytes)
      → All IsCoded (map some (backlog log) ++ live)
      → xs ++ ys ≡ stream_bytes (handle_activity_stream encode log live)
      → let all = map (peer_event p) (encodable (map some (backlog log) ++ live)) in
        (follow decode p
            (received (read_lines (stream_bytes (handle_activity_stream encode log live))).0)
          ≡ all)
        × ((lost : List MeshEvent) × (all ≡ follow decode p (received (read_lines xs).0) ++ lost))
  unfolding handle_activity_stream
  follow-handle_activity_stream p log live xs ys c h =
      let os = map some (backlog log) ++ live in
      let (whole, (lost, first)) =
        received-stream_bytes (map (activity_frame encode) os) xs ys (frames-IsClean os c) h in
      (
        ap (follow decode p) whole ∙ follow-payloads p os c,
        (
          follow decode p lost,
          sym (follow-payloads p os c)
              ∙ ap (follow decode p) first
              ∙ follow-append p (received (read_lines xs).0) lost,
        ),
      )
