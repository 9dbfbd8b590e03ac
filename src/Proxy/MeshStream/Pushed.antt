-- ===== src/Proxy/MeshStream/Pushed.antt =====
-- What a dashboard gets over its connection (internal/proxy/meshactivity.go).
use viiwork_freetoken.Prelude.{
  ◌≡◌, refl, sym, ap, ◌∙◌, subst, inl, inr, Bool, true, false, List, [], ◌∷◌, ◌++◌, Option, none,
  some, ℤ, pos, if◌then◌else◌, Bytes, same_bytes, same_bytes_iff, append-nil, append_assoc,
  Bool-cases, arith,
}
use viiwork_freetoken.Activity.Log.{Event, Log, backlog}
use viiwork_freetoken.Peer.Registry.{Registry}
use viiwork_freetoken.Proxy.HostMemory.{coarsen_host_mem}
use viiwork_freetoken.Proxy.MeshStream.{
  Snapshot, Encoder, Push, activity, cluster, idle, Viewer, write, send_event, push_snapshot,
  push_encoded, Input, arrives, ticks, beats, leaves, step, serve, new_viewer, own_event,
  backlog_inputs, handle_mesh_stream,
}

-- The payloads of the one event, and of the other, in their order.
abbrev pub activities : List Push → List Bytes
activities [] = []
activities (activity p ∷ ps) = p ∷ activities ps
activities (cluster _ ∷ ps) = activities ps
activities (idle ∷ ps) = activities ps

abbrev pub clusters : List Push → List Bytes
clusters [] = []
clusters (activity _ ∷ ps) = clusters ps
clusters (cluster p ∷ ps) = p ∷ clusters ps
clusters (idle ∷ ps) = clusters ps

abbrev pub put : Option Bytes → List Bytes → List Bytes
put none rest = rest
put (some p) rest = p ∷ rest

-- The encodings of the events that arrive.
abbrev pub arrived : Encoder → List Input → List Bytes
arrived enc [] = []
arrived enc (arrives e _ ∷ is) = put (enc.encode_event e) (arrived enc is)
arrived enc (ticks _ _ ∷ is) = arrived enc is
arrived enc (beats _ ∷ is) = arrived enc is
arrived enc (leaves ∷ is) = arrived enc is

abbrev pub coarsened : ℤ → Snapshot → Snapshot
coarsened mem s = record s {
  host_mem_used_mb = coarsen_host_mem mem s.host_mem_total_mb s.host_mem_used_mb;
}

-- The encodings of the snapshots, each with its memory coarsened by the one before.
abbrev pub snapshots : Encoder → ℤ → List Input → List Bytes
snapshots enc mem [] = []
snapshots enc mem (arrives _ _ ∷ is) = snapshots enc mem is
snapshots enc mem (ticks s _ ∷ is) =
    put (enc.encode_snapshot (coarsened mem s))
      (snapshots enc (coarsened mem s).host_mem_used_mb is)
snapshots enc mem (beats _ ∷ is) = snapshots enc mem is
snapshots enc mem (leaves ∷ is) = snapshots enc mem is

-- Those that differ from the one before, `last` standing before the first.
abbrev pub changes : Bytes → List Bytes → List Bytes
changes last [] = []
changes last (e ∷ es) =
    let same = changes last es in
    let new = changes e es in if same_bytes e last then same else e ∷ new

-- The last of the payloads, or else `last`.
abbrev pub newest : Bytes → List Bytes → Bytes
newest last [] = last
newest last (e ∷ es) = newest e es

changes-newest : (last : Bytes) (es : List Bytes) → newest last (changes last es) ≡ newest last es
changes-newest last [] = refl
changes-newest last (e ∷ es) = elim (Bool-cases (same_bytes e last)) [
  | inl same ↦
      rw same
        (changes-newest last es ∙ ap (λ x. newest x es) (sym ((same_bytes_iff e last).0 same)))
  | inr new ↦ rw new (changes-newest e es)
]

activities-append : (ps qs : List Push) → activities (ps ++ qs) ≡ activities ps ++ activities qs
activities-append [] qs = refl
activities-append (activity p ∷ ps) qs = ap (λ xs. p ∷ xs) (activities-append ps qs)
activities-append (cluster _ ∷ ps) qs = activities-append ps qs
activities-append (idle ∷ ps) qs = activities-append ps qs

clusters-append : (ps qs : List Push) → clusters (ps ++ qs) ≡ clusters ps ++ clusters qs
clusters-append [] qs = refl
clusters-append (activity _ ∷ ps) qs = clusters-append ps qs
clusters-append (cluster p ∷ ps) qs = ap (λ xs. p ∷ xs) (clusters-append ps qs)
clusters-append (idle ∷ ps) qs = clusters-append ps qs

put-append : (o : Option Bytes) (xs ys zs : List Bytes) → xs ≡ ys ++ zs → put o xs ≡ put o ys ++ zs
put-append none xs ys zs h = h
put-append (some p) xs ys zs h = ap (λ l. p ∷ l) h

module _ (enc : Encoder) where
  serve-gone : (is : List Input) (v : Viewer) → v.present ≡ false → serve enc is v ≡ v
  unfolding serve
  serve-gone [] v h = refl
  serve-gone (i ∷ is) v h = rw h

  -- A dashboard that is there at the end has been there all along.
  serve-stayed : (is : List Input) (v : Viewer) → (serve enc is v).present ≡ true → v.present ≡ true
  serve-stayed is v h = elim (Bool-cases v.present) [
    | inl e ↦ e
    | inr e ↦ sym (ap (λ (w : Viewer). w.present) (serve-gone is v e)) ∙ h
  ]

  -- What some inputs add to what a dashboard has.
  abbrev Adds : List Input → Viewer → Viewer → Type 0
  Adds is v w =
      (activities w.out ≡ activities v.out ++ arrived enc is)
      × (clusters w.out ≡ clusters v.out ++ changes v.last_snapshot (snapshots enc v.last_mem is))

  -- One more push comes before what is added afterwards.
  pushed :
      (p : Push) (v : Viewer) (xs : List Bytes)
      → (activities (v.out ++ p ∷ []) ++ xs ≡ activities v.out ++ (activities (p ∷ []) ++ xs))
        × (clusters (v.out ++ p ∷ []) ++ xs ≡ clusters v.out ++ (clusters (p ∷ []) ++ xs))
  pushed p v xs = (
    rw (activities-append v.out (p ∷ [])) (append_assoc (activities v.out) _ xs),
    rw (clusters-append v.out (p ∷ [])) (append_assoc (clusters v.out) _ xs),
  )

  arrives-Adds :
      (o : Option Bytes) (takes : Bool) (is : List Input) (v w : Viewer)
      → (send_event takes o v).present ≡ true
      → Adds is (send_event takes o v) w
      → (activities w.out ≡ activities v.out ++ put o (arrived enc is))
        × (clusters w.out ≡ clusters v.out ++ changes v.last_snapshot (snapshots enc v.last_mem is))
  unfolding send_event
  arrives-Adds none takes is v w h a = a
  arrives-Adds (some p) true is v w h a =
      (a.0 ∙ (pushed (activity p) v _).0, a.1 ∙ (pushed (activity p) v _).1)
  arrives-Adds (some p) false is v w h a = absurd (ground arith)

  beats-Adds :
      (takes : Bool) (is : List Input) (v w : Viewer)
      → (write takes idle v).present ≡ true
      → Adds is (write takes idle v) w
      → Adds is v w
  beats-Adds true is v w h a = (a.0 ∙ (pushed idle v _).0, a.1 ∙ (pushed idle v _).1)
  beats-Adds false is v w h a = absurd (ground arith)

  -- A snapshot that is encoded.
  changed-Adds :
      (new : Bool) (e : Bytes) (takes : Bool) (is : List Input) (v w : Viewer)
      → same_bytes e v.last_snapshot ≡ new
      → let t = if new then v else write takes (cluster e) (record v { last_snapshot = e }) in
        t.present ≡ true
        → Adds is t w
        → (activities w.out ≡ activities v.out ++ arrived enc is)
          × (clusters w.out
              ≡ clusters v.out ++ changes v.last_snapshot (e ∷ snapshots enc v.last_mem is))
  changed-Adds true e takes is v w k h a = rw k a
  changed-Adds false e true is v w k h a =
      rw k (a.0 ∙ (pushed (cluster e) v _).0, a.1 ∙ (pushed (cluster e) v _).1)
  changed-Adds false e false is v w k h a = absurd (ground arith)

  ticks-Adds :
      (o : Option Bytes) (takes : Bool) (is : List Input) (v w : Viewer)
      → (push_encoded takes o v).present ≡ true
      → Adds is (push_encoded takes o v) w
      → (activities w.out ≡ activities v.out ++ arrived enc is)
        × (clusters w.out
            ≡ clusters v.out ++ changes v.last_snapshot (put o (snapshots enc v.last_mem is)))
  unfolding push_encoded
  ticks-Adds none takes is v w h a = a
  ticks-Adds (some e) takes is v w h a =
      changed-Adds (same_bytes e v.last_snapshot) e takes is v w refl h a

  step-Adds :
      (i : Input) (is : List Input) (v w : Viewer)
      → (step enc i v).present ≡ true
      → Adds is (step enc i v) w
      → Adds (i ∷ is) v w
  unfolding step push_snapshot
  step-Adds (arrives e takes) is v w h a = arrives-Adds (enc.encode_event e) takes is v w h a
  step-Adds (ticks s takes) is v w h a =
      ticks-Adds (enc.encode_snapshot (coarsened v.last_mem s)) takes is
        (record v { last_mem = (coarsened v.last_mem s).host_mem_used_mb }) w h a
  step-Adds (beats takes) is v w h a = beats-Adds takes is v w h a
  step-Adds leaves is v w h a = absurd (ground arith)

  serve-Adds :
      (is : List Input) (v : Viewer) → (serve enc is v).present ≡ true → Adds is v (serve enc is v)
  unfolding serve
  serve-Adds [] v h = (sym (append-nil _), sym (append-nil _))
  serve-Adds (i ∷ is) v h =
      let here = serve-stayed (i ∷ is) v h in
      let on : (serve enc (i ∷ is) v) ≡ serve enc is (step enc i v) = rw (serve, here) refl in
      let later = sym (ap (λ (w : Viewer). w.present) on) ∙ h in
      subst (Adds (i ∷ is) v) (sym on) (
        step-Adds i is v (serve enc is (step enc i v)) (serve-stayed is _ later)
          (serve-Adds is (step enc i v) later))

  backlog-arrived :
      (r : Registry) (takes : Event → Bool) (es : List Event) (is : List Input)
      → arrived enc (backlog_inputs r takes es ++ is)
        ≡ arrived enc (backlog_inputs r takes es) ++ arrived enc is
  unfolding backlog_inputs
  backlog-arrived r takes [] is = refl
  backlog-arrived r takes (e ∷ es) is =
      put-append (enc.encode_event (own_event r e)) _ _ _ (backlog-arrived r takes es is)

  backlog-snapshots :
      (r : Registry) (takes : Event → Bool) (es : List Event) (mem : ℤ) (is : List Input)
      → snapshots enc mem (backlog_inputs r takes es ++ is) ≡ snapshots enc mem is
  unfolding backlog_inputs
  backlog-snapshots r takes [] mem is = refl
  backlog-snapshots r takes (e ∷ es) mem is = backlog-snapshots r takes es mem is

  -- A dashboard that is still there has got every event of the backlog and every one that arrived, in
  -- order; of the snapshots exactly those that differ from the one before them, the first one included;
  -- and the snapshot that it got last is the newest one. Left out are events and snapshots that cannot
  -- be encoded.
  pub handle_mesh_stream-pushes :
      (r : Registry) (log : Log) (takes : Event → Bool) (first : Snapshot) (taken : Bool)
      (is : List Input)
      → (handle_mesh_stream enc r log takes first taken is).present ≡ true
      → let w = handle_mesh_stream enc r log takes first taken is in
        let all = snapshots enc (pos 0) (ticks first taken ∷ is) in
        (activities w.out ≡ arrived enc (backlog_inputs r takes (backlog log)) ++ arrived enc is)
        × (clusters w.out ≡ changes [] all)
        × (newest [] (clusters w.out) ≡ newest [] all)
  unfolding handle_mesh_stream
  handle_mesh_stream-pushes r log takes first taken is h =
      let (events, states) =
        serve-Adds (backlog_inputs r takes (backlog log) ++ ticks first taken ∷ is) new_viewer h in
      let sent = states ∙ ap (changes []) (backlog-snapshots r takes (backlog log) (pos 0) _) in
      (
        events ∙ backlog-arrived r takes (backlog log) (ticks first taken ∷ is),
        sent,
        ap (newest []) sent ∙ changes-newest [] (snapshots enc (pos 0) (ticks first taken ∷ is)),
      )
