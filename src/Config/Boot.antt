-- ===== src/Config/Boot.antt =====
-- How a node comes by its settings: `Load` of internal/config/config.go and the head of
-- cmd/viiwork-freetoken/main.go. The file, decoded, is an argument.
use viiwork_freetoken.Prelude.{
  ◌≡◌, ◌≢◌, refl, sym, ap, ◌∙◌, List, [], ◌∷◌, map, Option, none, some, String, ℤ, pos, ◌+ℤ◌, ◌<ℤ◌,
  +ℤ_parts, All, Option-cases, inl, inr, arith,
}
use viiwork_freetoken.Config.{Config, BackendSpec, Invalid, specs_from, backends, validate}
use viiwork_freetoken.Config.Valid.{IsValid, Distinct, validate_iff}
use viiwork_freetoken.Config.Defaults.{Slots, apply_defaults}
use viiwork_freetoken.Config.Override.{OverrideError, Outcome, apply_overrides}

pub data Boot : Type 0 where
  settings : Config → Boot
  invalid : Invalid → Boot
  bad_override : OverrideError → Boot

accept : Option Invalid → Config → Boot
accept none c = settings c
accept (some e) c = invalid e

override : Outcome → Boot
unfolding accept
override (c, none) = accept (validate c) c
override (c, some e) = bad_override e

-- The command goes on from a file that is accepted.
loaded : Option Invalid → List String → Config → Boot
unfolding override
loaded (some e) args c = invalid e
loaded none args c = override (apply_overrides args c)

unfoldable pub boot : Slots → List String → Config → Boot
unfolding loaded
boot slots args file = let c = apply_defaults slots file in loaded (validate c) args c

abbrev ports_from : ℤ → List ℤ → List ℤ
ports_from p ds = map (λ b. BackendSpec.port b) (specs_from p ds)

-- Ports that count up differ from one another.
ports_from-above : (p q : ℤ) (ds : List ℤ) → p <ℤ q → All (λ e. p ≢ e) (ports_from q ds)
unfolding specs_from
ports_from-above p q [] h = tt
ports_from-above p q (d ∷ ds) h =
    let next : q <ℤ (q +ℤ pos 1) = ground (arith, +ℤ_parts q (pos 1)) in
    ((λ e. ground arith), ports_from-above p (q +ℤ pos 1) ds (omega arith))

ports_from-Distinct : (p : ℤ) (ds : List ℤ) → Distinct (ports_from p ds)
unfolding specs_from
ports_from-Distinct p [] = tt
ports_from-Distinct p (d ∷ ds) = (
  ports_from-above p (p +ℤ pos 1) ds (ground (arith, +ℤ_parts p (pos 1))),
  ports_from-Distinct (p +ℤ pos 1) ds,
)

-- Settings that a node starts with are valid, no two backends have the same port, and they are the
-- file's with the defaults, itself accepted before any override, under overrides without an error.
pub boot-IsValid :
    (slots : Slots) (args : List String) (file c : Config)
    → boot slots args file ≡ settings c
    → IsValid c
      × Distinct (map (λ b. BackendSpec.port b) (backends c))
      × IsValid (apply_defaults slots file)
      × (apply_overrides args (apply_defaults slots file) ≡ (c, none))
unfolding boot loaded override accept backends
boot-IsValid slots args file c h = elim (Option-cases (validate (apply_defaults slots file))) [
  | inr (e, bad) ↦ absurd (ground arith)
  | inl fine ↦
      go fine (apply_overrides args (apply_defaults slots file)) refl
        (sym (ap (λ o. loaded o args (apply_defaults slots file)) fine) ∙ h)
]
  where
    settings_of : (o : Option Invalid) (d : Config) → accept o d ≡ settings c → (o ≡ none) × (d ≡ c)
    settings_of none d k = (refl, ground arith)
    settings_of (some e) d k = absurd (ground arith)

    go :
        validate (apply_defaults slots file) ≡ none
        → (o : Outcome) → apply_overrides args (apply_defaults slots file) ≡ o
        → override o ≡ settings c
        → IsValid c
          × Distinct (ports_from c.gpus.base_port c.gpus.devices)
          × IsValid (apply_defaults slots file)
          × (apply_overrides args (apply_defaults slots file) ≡ (c, none))
    go fine (d, some e) o k = absurd (ground arith)
    go fine (d, none) o k =
        let (accepted, same) = settings_of (validate d) d k in
        (
          (validate_iff c).0 (ap validate (sym same) ∙ accepted),
          ports_from-Distinct c.gpus.base_port c.gpus.devices,
          (validate_iff (apply_defaults slots file)).0 fine,
          o ∙ ap (λ x. (x, none)) same,
        )
