-- ===== src/Config/Override/Chain.antt =====
-- How the overrides of internal/config/config.go follow one another.
use viiwork_freetoken.Prelude.{
  ℕ, ◌≡◌, ◌≢◌, ◌⊎◌, refl, sym, ap, ◌∙◌, subst, Option-cases, true, false, inl, inr, List, [], ◌∷◌,
  ◌++◌, Option, none, some, String, str_eq, ℤ, codes, split, atoi, if◌then◌else◌, Bool, arith,
}
use viiwork_freetoken.Config.{Config}
use viiwork_freetoken.Config.Override.{
  OverrideError, no_value, Outcome, with_number, with_devices, put_index, read_devices, set,
  flag_key, stop_or, on_flag, last_flag, apply_overrides,
}

-- An override that fails changes no setting, and no override fails for want of a value.
abbrev Atomic : Config → Outcome → Type 0
Atomic c o = (e : OverrideError) → o.1 ≡ some e → (o.0 ≡ c) × ((key : String) → e ≢ no_value key)

with_number-Atomic :
    (key : String) (o : Option ℤ) (update : ℤ → Config) (c : Config)
    → Atomic c (with_number key o update c)
with_number-Atomic key o update c e h = (ground arith, λ k f. ground arith)

-- A field that is no number is what the error names.
read_devices-error :
    (fs : List (List ℕ)) (e : OverrideError) (key : String)
    → (read_devices fs).1 ≡ some e
    → e ≢ no_value key
unfolding read_devices put_index
read_devices-error [] e key h = absurd (ground arith)
read_devices-error (f ∷ fs) e key h = λ k. ground (arith, read_devices-error fs e key)

with_devices-Atomic :
    (fs : List (List ℕ)) (c : Config) → Atomic c (with_devices (read_devices fs) c)
with_devices-Atomic fs c = go (read_devices fs) (read_devices-error fs)
  where
    go :
        (r : List ℤ × Option OverrideError)
        → ((e : OverrideError) (key : String) → r.1 ≡ some e → e ≢ no_value key)
        → Atomic c (with_devices r c)
    go (ids, none) never e h = absurd (ground arith)
    go (ids, some d) never e h = (refl, λ key. never e key h)

done-Atomic : (c d : Config) → Atomic c (d, none)
done-Atomic c d e h = absurd (ground arith)

if-Atomic :
    (c : Config) (b : Bool) {x y : Outcome}
    → Atomic c x
    → Atomic c y
    → Atomic c (if b then x else y)
if-Atomic c true p q = p
if-Atomic c false p q = q

one_card-Atomic :
    (c : Config) (val : String) (b : Bool)
    → Atomic c (c, if b then none else some (OverrideError.no_tensor_parallel val))
one_card-Atomic c val true e h = absurd (ground arith)
one_card-Atomic c val false e h = (refl, λ key k. ground arith)

set-Atomic : (key val : String) (c : Config) → Atomic c (set key val c)
unfolding set
set-Atomic key val c =
    let number = atoi (codes val) in
    if-Atomic c (str_eq key "server.port") (with_number-Atomic key number _ c) (
      if-Atomic c (str_eq key "server.host") (done-Atomic c _) (
        if-Atomic c (str_eq key "server.mesh_port") (with_number-Atomic key number _ c) (
          if-Atomic c (str_eq key "model.name") (done-Atomic c _) (
            if-Atomic c (str_eq key "model.path") (done-Atomic c _) (
              if-Atomic c (str_eq key "gpus.base_port") (with_number-Atomic key number _ c) (
                if-Atomic c (str_eq key "gpus.tensor_parallel_size")
                  (one_card-Atomic c val (str_eq val "1"))
                  (if-Atomic c (str_eq key "gpus.devices")
                    (with_devices-Atomic (split b',' (codes val)) c)
                    (if-Atomic c (str_eq key "node.hostname") (done-Atomic c _)
                      (λ e h. (refl, λ k f. ground arith))))))))))

-- Where the overrides stopped: at a flag without a value, or at one whose value `set` refuses.
abbrev pub StopsAt : OverrideError → List String → Config → Type 0
StopsAt e rest d =
    ((arg key : String) × (rest ≡ arg ∷ []) × (flag_key arg ≡ some key) × (e ≡ no_value key))
    ⊎ ((arg key val : String) × (more : List String) × (rest ≡ arg ∷ val ∷ more)
        × (flag_key arg ≡ some key)
        × (set key val d ≡ (d, some e)))

abbrev pub Stopped : OverrideError → List String → Config → Config → Type 0
Stopped e args c d =
    (before : List String) × (rest : List String) × (args ≡ before ++ rest)
    × (apply_overrides before c ≡ (d, none))
    × StopsAt e rest d

-- An argument that is no flag is skipped.
apply_overrides-skip :
    (arg : String) (args : List String) (c : Config)
    → flag_key arg ≡ none
    → apply_overrides (arg ∷ args) c ≡ apply_overrides args c
unfolding apply_overrides on_flag last_flag
apply_overrides-skip arg [] c h = rw (apply_overrides, h)
apply_overrides-skip arg (val ∷ args) c h = rw (apply_overrides, h)

apply_overrides-take :
    (arg key val : String) (args : List String) (c d : Config)
    → flag_key arg ≡ some key
    → set key val c ≡ (d, none)
    → apply_overrides (arg ∷ val ∷ args) c ≡ apply_overrides args d
unfolding apply_overrides stop_or on_flag
apply_overrides-take arg key val args c d f h = rw (apply_overrides, f, h)

apply_overrides-stop :
    (arg key val : String) (args : List String) (c d : Config) (e : OverrideError)
    → flag_key arg ≡ some key
    → set key val c ≡ (d, some e)
    → apply_overrides (arg ∷ val ∷ args) c ≡ (d, some e)
unfolding apply_overrides stop_or on_flag
apply_overrides-stop arg key val args c d e f h = rw (apply_overrides, f, h)

Stopped-skip :
    (arg : String) (e : OverrideError) (args : List String) (c d : Config)
    → flag_key arg ≡ none
    → Stopped e args c d
    → Stopped e (arg ∷ args) c d
Stopped-skip arg e args c d f (before, rest, split, fine, stop) =
    (arg ∷ before, rest, ap (λ l. arg ∷ l) split, apply_overrides-skip arg before c f ∙ fine, stop)

Stopped-take :
    (arg key val : String) (e : OverrideError) (args : List String) (b c d : Config)
    → flag_key arg ≡ some key
    → set key val c ≡ (b, none)
    → Stopped e args b d
    → Stopped e (arg ∷ val ∷ args) c d
Stopped-take arg key val e args b c d f h (before, rest, split, fine, stop) = (
  arg ∷ val ∷ before,
  rest,
  ap (λ l. arg ∷ val ∷ l) split,
  apply_overrides-take arg key val before c b f h ∙ fine,
  stop,
)

-- An error of the overrides leaves in place exactly the settings that the arguments before it made,
-- all of them without an error: it is that of a last flag without a value, or of a flag whose value
-- `set` refuses, and that refusal has changed no setting itself.
pub apply_overrides-Stopped :
    (args : List String) (c d : Config) (e : OverrideError)
    → apply_overrides args c ≡ (d, some e)
    → Stopped e args c d
unfolding apply_overrides last_flag
apply_overrides-Stopped [] c d e h = absurd (ground arith)
apply_overrides-Stopped (arg ∷ []) c d e h = go (flag_key arg) refl
  where
    go : (o : Option String) → flag_key arg ≡ o → Stopped e (arg ∷ []) c d
    go none f = absurd (ground arith)
    go (some key) f =
        let last : apply_overrides (arg ∷ []) c ≡ (c, some (no_value key)) =
          rw (apply_overrides, f) in
        let l : ◌≡◌ {A = Outcome} (c, some (no_value key)) (d, some e) = sym last ∙ h in
        ([], arg ∷ [], refl, ground arith, inl (arg, key, refl, f, ground arith))
apply_overrides-Stopped (arg ∷ val ∷ args) c d e h = elim (Option-cases (flag_key arg)) [
  | inl f ↦ Stopped-skip arg e (val ∷ args) c d f (
      apply_overrides-Stopped (val ∷ args) c d e
        (sym (apply_overrides-skip arg (val ∷ args) c f) ∙ h))
  | inr (key, f) ↦ elim (Option-cases (set key val c).1) [
    | inl fine ↦
        let b = (set key val c).0 in
        let now : set key val c ≡ (b, none) = ground arith in
        Stopped-take arg key val e args b c d f now (
          apply_overrides-Stopped args b d e
            (sym (apply_overrides-take arg key val args c b f now) ∙ h))
    | inr (g, bad) ↦ refused key g f bad
  ]
]
  where
    refused :
        (key : String) (g : OverrideError)
        → flag_key arg ≡ some key
        → (set key val c).1 ≡ some g
        → Stopped e (arg ∷ val ∷ args) c d
    refused key g f bad =
        let same : (set key val c).0 ≡ c = (set-Atomic key val c g bad).0 in
        let now : set key val c ≡ (c, some g) = ground arith in
        let out : ◌≡◌ {A = Outcome} (c, some g) (d, some e) =
          sym (apply_overrides-stop arg key val args c c g f now) ∙ h in
        let kept : c ≡ d = ap (λ o. o.0) out in
        let errors : some g ≡ some e = ap (λ o. o.1) out in
        let error : g ≡ e = ground arith in
        (
          [],
          arg ∷ val ∷ args,
          refl,
          ground arith,
          inr (
            arg,
            key,
            val,
            args,
            refl,
            f,
            subst (λ x. set key val x ≡ (x, some e)) kept
                (subst (λ x. set key val c ≡ (c, some x)) error now),
          ),
        )
