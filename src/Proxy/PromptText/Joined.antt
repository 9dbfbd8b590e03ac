-- ===== src/Proxy/PromptText/Joined.antt =====
-- The prompt that is kept (internal/proxy/capture.go), said of the messages.
use viiwork_freetoken.Prelude.{
  ◌≡◌, ◌⊎◌, refl, ap, ◌∙◌, inl, inr, Bool, true, false, not, List, [], ◌∷◌, ◌++◌, map, keep, none,
  some, if◌then◌else◌, Bytes, codes, is_empty_text, append_assoc, Bool-cases, arith,
}
use viiwork_freetoken.Proxy.PromptText.{
  Message, PromptBody, Decoders, append_piece, join_parts, join, content_text, join_messages,
  prompt_of, extract, extract_prompt_text,
}

abbrev has_text : Bytes → Bool
has_text t = not (is_empty_text t)

-- What is joined to pieces that are there already.
abbrev after : Bytes → Bytes → List Bytes → Bytes
after sep sb [] = sb
after sep sb (t ∷ ts) = append_piece sep (join sep (t ∷ ts)) sb

not_empty : (t : Bytes) → has_text t ≡ true → is_empty_text t ≡ false
not_empty [] h = absurd (ground arith)
not_empty (x ∷ t) h = refl

lead : Bytes → Bytes → Bytes
lead sep sb = if is_empty_text sb then sb else sb ++ sep

append-has_text : (a t : Bytes) → has_text t ≡ true → has_text (a ++ t) ≡ true
append-has_text [] t h = h
append-has_text (x ∷ a) t h = refl

append_piece_assoc :
    (sep t : Bytes) (ts : List Bytes) (sb : Bytes)
    → has_text t ≡ true
    → after sep (append_piece sep t sb) ts ≡ after sep sb (t ∷ ts)
unfolding join lead
append_piece_assoc sep t [] sb h = refl
append_piece_assoc sep t (u ∷ ts) sb h =
    let full : is_empty_text (lead sep sb ++ t) ≡ false =
      not_empty (lead sep sb ++ t) (append-has_text (lead sep sb) t h) in
    let rest = join sep (u ∷ ts) in
    ap (λ (b : Bool). (if b then lead sep sb ++ t else (lead sep sb ++ t) ++ sep) ++ rest) full
    ∙ ap (λ l. l ++ rest) (append_assoc (lead sep sb) t sep)
    ∙ append_assoc (lead sep sb) (t ++ sep) rest

join_parts-after :
    (ts : List Bytes) (sb : Bytes) → join_parts ts sb ≡ after (codes " ") sb (keep has_text ts)
unfolding join_parts
join_parts-after [] sb = refl
join_parts-after (t ∷ ts) sb = elim (Bool-cases (is_empty_text t)) [
  | inl e ↦ rw (e) (join_parts-after ts sb)
  | inr e ↦ rw (e) (
      join_parts-after ts (append_piece (codes " ") t sb)
      ∙ append_piece_assoc (codes " ") t (keep has_text ts) sb (rw e refl))
]

-- What a message says, headed by its role; nothing where its content has no text.
abbrev pub said : Decoders → Message → Bytes
said d m =
    let text = content_text d m.content in
    if is_empty_text text then [] else m.role ++ codes ": " ++ text

said-text :
    (d : Decoders) (m : Message)
    → is_empty_text (content_text d m.content) ≡ false
    → has_text (m.role ++ codes ": " ++ content_text d m.content) ≡ true
said-text d m e = append-has_text (m.role ++ codes ": ") (content_text d m.content) (rw e refl)

join_messages-after :
    (d : Decoders) (ms : List Message) (sb : Bytes)
    → join_messages d ms sb ≡ after (codes "\n\n") sb (keep has_text (map (said d) ms))
unfolding join_messages
join_messages-after d [] sb = refl
join_messages-after d (m ∷ ms) sb = elim (Bool-cases (is_empty_text (content_text d m.content))) [
  | inl e ↦ rw (e) (join_messages-after d ms sb)
  | inr e ↦
      let t = said-text d m e in
      rw (e, t)
        (join_messages-after d ms (append_piece (codes "\n\n") _ sb)
          ∙ append_piece_assoc (codes "\n\n") _ (keep has_text (map (said d) ms)) sb t)
]

after-nil : (sep : Bytes) (ts : List Bytes) → after sep [] ts ≡ join sep ts
unfolding join
after-nil sep [] = refl
after-nil sep (t ∷ ts) = refl

-- The prompt of a request is that of its messages, each headed by its role, and without those that say
-- nothing, or without messages its prompt; of a list of parts it is the texts that are there, and of a
-- body that does not decode it is empty.
pub extract_prompt_text-join :
    (d : Decoders) (body raw : Bytes)
    → (d.request body ≡ none → extract_prompt_text d body ≡ [])
      × ((b : PromptBody) (m : Message) (ms : List Message)
          → d.request body ≡ some b
          → b.messages ≡ m ∷ ms
          → extract_prompt_text d body
            ≡ join (codes "\n\n") (keep has_text (map (said d) (m ∷ ms))))
      × ((b : PromptBody)
          → d.request body ≡ some b
          → b.messages ≡ []
          → extract_prompt_text d body ≡ content_text d b.prompt)
      × ((ts : List Bytes)
          → is_empty_text raw ≡ false
          → d.text raw ≡ none
          → d.parts raw ≡ some ts
          → content_text d raw ≡ join (codes " ") (keep has_text ts))
unfolding extract_prompt_text content_text
extract_prompt_text-join d body raw = (
  λ h. rw h refl,
  λ b m ms h k. rw (h, extract, k) (join_messages-after d (m ∷ ms) [] ∙ after-nil (codes "\n\n") _),
  λ b h k. rw (h, extract, k) (go b.prompt (Bool-cases (is_empty_text b.prompt))),
  λ ts e h k. rw (e, h, k) (join_parts-after ts [] ∙ after-nil (codes " ") _),
)
  where
    go :
        (p : Bytes)
        → (is_empty_text p ≡ true) ⊎ (is_empty_text p ≡ false)
        → prompt_of d p [] ≡ content_text d p
    go p (inl e) = rw (e, prompt_of, content_text) refl
    go p (inr e) = rw (prompt_of, e) refl
