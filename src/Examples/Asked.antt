-- ===== src/Examples/Asked.antt =====
-- The prompt of a request with a message in parts and one without a text (internal/proxy/capture.go).
use viiwork_freetoken.Prelude.{
  ◌≡◌, refl, false, not, List, [], ◌∷◌, map, keep, none, some, if◌then◌else◌, Bytes, codes,
  is_empty_text, same_bytes,
}
use viiwork_freetoken.Proxy.PromptText.{
  Message, PromptBody, Decoders, join, content_text, extract_prompt_text,
}
use viiwork_freetoken.Proxy.PromptText.Joined.{said, extract_prompt_text-join}

abbrev question : Message
question = record { role = codes "user"; content = codes "[p]" }

abbrev picture : Message
picture = record { role = codes "system"; content = codes "{}" }

-- Bodies and values that are known by their text.
abbrev decoders : Decoders
decoders = record {
  request = λ b.
      if same_bytes b (codes "{1}")
      then some (record { prompt = []; messages = picture ∷ question ∷ [] })
      else none;
  text = λ _. none;
  parts =
      λ r. if same_bytes r (codes "[p]") then some (codes "hi" ∷ [] ∷ codes "there" ∷ []) else none;
  texts = λ _. none;
}

extract_prompt_text-join_example :
    (decoders.request (codes "{1}") ≡ none → extract_prompt_text decoders (codes "{1}") ≡ [])
    × ((b : PromptBody) (m : Message) (ms : List Message)
        → decoders.request (codes "{1}") ≡ some b
        → b.messages ≡ m ∷ ms
        → extract_prompt_text decoders (codes "{1}")
          ≡ join (codes "\n\n") (keep (λ t. not (is_empty_text t)) (map (said decoders) (m ∷ ms))))
    × ((b : PromptBody)
        → decoders.request (codes "{1}") ≡ some b
        → b.messages ≡ []
        → extract_prompt_text decoders (codes "{1}") ≡ content_text decoders b.prompt)
    × ((ts : List Bytes)
        → is_empty_text (codes "[p]") ≡ false
        → decoders.text (codes "[p]") ≡ none
        → decoders.parts (codes "[p]") ≡ some ts
        → content_text decoders (codes "[p]")
          ≡ join (codes " ") (keep (λ t. not (is_empty_text t)) ts))
extract_prompt_text-join_example = extract_prompt_text-join decoders (codes "{1}") (codes "[p]")

asked : extract_prompt_text decoders (codes "{1}") ≡ codes "user: hi there"
unfolding extract_prompt_text content_text
asked = refl
