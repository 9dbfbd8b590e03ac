-- ===== src/Activity/Log/Delivery.antt =====
-- What reaches a subscriber of the event log (internal/activity/activity.go), and what the ring keeps.
use viiwork_freetoken.Prelude.{
  ℕ, suc, ◌+◌, ◌-◌, ◌≤◌, ◌≡◌, refl, sym, ap, ◌∙◌, subst, inl, inr, List, [], ◌∷◌, ◌++◌, map, Option,
  none, some, pos, pos_part, ltb, length, length-append, last_n, last_n-append, last_n-all,
  last_n-short, take-nil, append_assoc, append-nil, take, Memᴰ, Bool-cases, arith,
}
use viiwork_freetoken.Activity.Log.{
  Event, Channel, Hub, new_channel, replayed, backlog, subscribe, log_event, emit, channel_size,
}
use viiwork_freetoken.Activity.Log.Sends.{push, set_channel_here}
use viiwork_freetoken.Activity.Log.Wiring.{
  Wired, log_event_ring, emit_lem, emitted-Wired, subscribe-Wired, Reach, Reach-Wired,
}

-- The queue of a channel after some more sends.
fill : List Event → List Event → List Event
fill q [] = q
fill q (e ∷ es) = fill (push e q) es

fill_lem :
    (q es : List Event)
    → length q ≤ channel_size
    → fill q es ≡ q ++ take (channel_size - length q) es
unfolding fill
fill_lem q [] h = sym (ap (q ++◌) (take-nil (channel_size - length q)) ∙ append-nil q)
fill_lem q (e ∷ es) h = elim (Bool-cases (ltb (length q) channel_size)) [
  | inl room ↦
      let size : length (q ++ e ∷ []) ≡ length q + 1 = length-append q (e ∷ []) in
      let left : channel_size - length q ≡ suc (channel_size - length (q ++ e ∷ [])) =
        ground (arith, size) in
      rw (room, left) (fill_lem (q ++ e ∷ []) es (ground arith) ∙ append_assoc q (e ∷ []) _)
  | inr full ↦
      let left : channel_size - length q ≡ 0 = ground arith in
      rw (full, left) (subst (λ k. fill q es ≡ q ++ take k es) left (fill_lem q es h))
]

-- Emits one event after the other.
abbrev pub emit_all : List Event → Hub → Option Hub
emit_all [] h = some h
emit_all (e ∷ es) h = elim (emit e h) [ none ↦ none | some g ↦ emit_all es g ]

-- What some emitted events come to, for the ring and for one subscriber.
abbrev Emitted : List Event → ℕ → Hub → Hub → Type 0
Emitted es i h g =
    Wired g
    × ((m : ℕ)
        → h.log.max ≡ pos (suc m)
        → (length h.log.ring ≤ suc m)
        → (g.log.ring ≡ last_n (suc m) (h.log.ring ++ es)) × (g.log.max ≡ pos (suc m)))
    × (Memᴰ i h.log.subs
        → Memᴰ i g.log.subs × ((g.channels i).queue ≡ fill (h.channels i).queue es))

emit_all-Emitted :
    (es : List Event) (i : ℕ) (h : Hub)
    → Wired h
    → (g : Hub) × (emit_all es h ≡ some g) × Emitted es i h g
unfolding fill log_event
emit_all-Emitted [] i h w = (
  h,
  refl,
  (
    w,
    (λ m e l. (sym (ap (last_n (suc m)) (append-nil h.log.ring) ∙ last_n-all _ _ l), e)),
    (λ k. (k, refl)),
  ),
)
emit_all-Emitted (e ∷ es) i h w =
    let (after, done, sent) = emit_lem e h w in
    let h1 : Hub = record h { log = log_event e h.log; channels = after } in
    let (g, all, (wired, ring, queue)) =
      emit_all-Emitted es i h1 (emitted-Wired e h after w sent) in
    (
      g,
      rw (emit_all, done) all,
      (
        wired,
        (λ m s l.
            let r = log_event_ring e h.log m s in
            let (now, size) = ring m s (rw r (last_n-short (suc m) (h.log.ring ++ e ∷ []))) in
            (
              now
                  ∙ ap (λ xs. last_n (suc m) (xs ++ es)) r
                  ∙ last_n-append (suc m) (h.log.ring ++ e ∷ []) es
                  ∙ ap (last_n (suc m)) (append_assoc h.log.ring (e ∷ []) es),
              size,
            )),
        (λ k.
            let (there, filled) = queue k in
            (there, filled ∙ ap (λ (c : Channel). fill c.queue es) ((sent i).0 k))),
      ),
    )

fill-append : (q es fs : List Event) → fill q (es ++ fs) ≡ fill (fill q es) fs
unfolding fill
fill-append q [] fs = refl
fill-append q (e ∷ es) fs = fill-append (push e q) es fs

ring_short : (h : Hub) → Wired h → (m : ℕ) → h.log.max ≡ pos (suc m) → length h.log.ring ≤ suc m
ring_short h w m size =
    let (n, size', short) = w.sized in
    let same : pos (suc n) ≡ pos (suc m) = sym size' ∙ size in
    let equal : suc n ≡ suc m = ap pos_part same in omega arith

-- Who subscribes and reads the backlog afterwards misses nothing: with `es` emitted in between and
-- `fs` after the reading, the backlog is the replay of the latest events up to `es`, as many as the
-- ring has room for, and the channel holds the events of `es` and `fs`, up to its size.
pub subscribe-backlog :
    (es fs : List Event) (m : ℕ) (h : Hub)
    → Reach h
    → h.log.max ≡ pos (suc m)
    → (g k : Hub) × (emit_all es (subscribe h).1 ≡ some g)
      × (backlog g.log ≡ map replayed (last_n (suc m) (h.log.ring ++ es)))
      × (emit_all fs g ≡ some k)
      × ((k.channels h.next).queue ≡ take channel_size (es ++ fs))
unfolding subscribe backlog
subscribe-backlog es fs m h r size =
    let w = (Reach-Wired h r).0 in
    let i = h.next in
    let (g, first, (wg, ring, queue)) =
      emit_all-Emitted es i (subscribe h).1 (subscribe-Wired h w) in
    let (k, second, (_, _, queue')) = emit_all-Emitted fs i g wg in
    let (there, filled) = queue (Memᴰ.head refl) in
    let short : length h.log.ring ≤ suc m = ring_short h w m size in
    (
      g,
      k,
      first,
      ap (map replayed) (ring m size short).0,
      second,
      (queue' there).1
          ∙ ap (λ q. fill q fs)
              (filled
                ∙ ap (λ (c : Channel). fill c.queue es) (set_channel_here i new_channel h.channels))
          ∙ sym (fill-append [] es fs)
          ∙ fill_lem [] (es ++ fs) (omega arith),
    )
