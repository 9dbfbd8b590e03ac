-- ===== src/Peer/Registry/Addresses.antt =====
-- The host part of an address (internal/peer/registry.go and internal/proxy/meshactivity.go).
use Prim.Native.Char.{code}
use Prim.Native.String.{◌++◌ as append}
use text.Mathlib.TextLemmas.{nil-append, cons-append}
use viiwork_freetoken.Prelude.{◌≡◌, refl, ap, ◌∙◌, false, none, some, String, ◌==◌}
use viiwork_freetoken.Peer.Registry.{host_of_addr, before_last_colon}

-- No colon in the text.
abbrev pub IsColonFree : String → Type 0
IsColonFree String.[] = Unit {0}
IsColonFree (String.◌∷◌ c s) = ((code c == b':') ≡ false) × IsColonFree s

before_last_colon-none : (s : String) → IsColonFree s → before_last_colon s ≡ none
unfolding before_last_colon
before_last_colon-none String.[] h = refl
before_last_colon-none (String.◌∷◌ c s) h = rw (before_last_colon-none s h.1, h.0) refl

before_last_colon-append :
    (h p : String) → IsColonFree p → before_last_colon (append h (String.◌∷◌ ":" p)) ≡ some h
unfolding before_last_colon
before_last_colon-append String.[] p free =
    rw (nil-append, before_last_colon, before_last_colon-none p free) refl
before_last_colon-append (String.◌∷◌ c h) p free =
    rw (cons-append, before_last_colon, before_last_colon-append h p free) refl

-- A host is read back from its address with a port, whatever colons it has itself.
pub host_of_addr-append :
    (h p : String) → IsColonFree p → host_of_addr (append h (append ":" p)) ≡ h
unfolding host_of_addr
host_of_addr-append h p free =
    let address : append h (append ":" p) ≡ append h (String.◌∷◌ ":" p) =
      ap (append h) (cons-append _ _ _ ∙ ap (String.◌∷◌ ":") (nil-append p)) in
    rw (address, before_last_colon-append h p free) refl
