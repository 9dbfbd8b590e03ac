-- ===== src/Config/Valid.antt =====
-- What a configuration that `Validate` (internal/config/config.go) accepts looks like.
use viiwork_freetoken.Prelude.{
  ◌≡◌, ◌≢◌, ◌↔◌, refl, sym, ap, ◌⊎◌, inl, inr, Bool, true, false, not, ◌&&◌, List, [], ◌∷◌, Option,
  none, some, String, str_eq, str_eq_iff, ℤ, pos, ◌≤ℤ◌, ◌<ℤ◌, eqb_ℤ, eqb_ℤ_iff, All, All-map, arith,
}
use viiwork_freetoken.Config.{
  Float64, real, positive_infinity, negative_infinity, nan, Config, ServerConfig, BackendSpec,
  backends, Invalid, contains, check_devices, collides, check_ports, bad_ratio, moe_known, is_nil,
  fails, first_error, checks, validate,
}

-- No entry stands twice.
abbrev pub Distinct : List ℤ → Type 0
Distinct [] = Unit {0}
Distinct (d ∷ ds) = All (λ e. d ≢ e) ds × Distinct ds

-- A port that neither listener of the node takes; a mesh port of 0 is none.
abbrev pub IsFree : ServerConfig → ℤ → Type 0
IsFree s port = (port ≢ s.port) × ((s.mesh_port ≡ pos 0) ⊎ (port ≢ s.mesh_port))

abbrev pub MoeKnown : String → Type 0
MoeKnown m = (m ≡ "") ⊎ ((m ≡ "fused") ⊎ ((m ≡ "offload") ⊎ ((m ≡ "cpu") ⊎ (m ≡ "hybrid"))))

-- In (0, 1], or not a number.
abbrev pub IsAccepted : Float64 → Type 0
IsAccepted (real r) = (pos 0 <ℤ r.num) × (r.num ≤ℤ r.den)
IsAccepted positive_infinity = ⊥
IsAccepted negative_infinity = ⊥
IsAccepted nan = Unit {0}

pub record IsValid (c : Config) : Type 0 where
  pub named : c.model.name ≢ ""
  pub located : c.model.path ≢ ""
  pub some_device : c.gpus.devices ≢ []
  pub devices_natural : All (λ d. pos 0 ≤ℤ d) c.gpus.devices
  pub devices_distinct : Distinct c.gpus.devices
  pub listeners_apart : (c.server.mesh_port ≡ pos 0) ⊎ (c.server.port ≢ c.server.mesh_port)
  pub ports_free : All (λ b. IsFree c.server b.port) (backends c)
  pub ratio_accepted : IsAccepted c.freetoken.memory_ratio
  pub moe_named : MoeKnown c.freetoken.moe_backend

abbrev NotSeen : List ℤ → ℤ → Type 0
NotSeen seen d = contains d seen ≡ false

contains-cons : (d x : ℤ) (xs : List ℤ) → NotSeen (x ∷ xs) d ↔ ((d ≢ x) × NotSeen xs d)
unfolding contains
contains-cons d x xs = (
  λ h. (λ e. ground (arith, eqb_ℤ_iff d x), ground (arith, eqb_ℤ_iff d x)),
  λ h. ground (arith, eqb_ℤ_iff d x, h.0),
)

-- What the loop over the devices has found out when it ends without an error.
abbrev DevicesGood : List ℤ → List ℤ → Type 0
DevicesGood seen ds = All (λ d. pos 0 ≤ℤ d) ds × Distinct ds × All (NotSeen seen) ds

check_devices_sound : (seen ds : List ℤ) → check_devices seen ds ≡ none → DevicesGood seen ds
unfolding check_devices
check_devices_sound seen [] h = (tt, tt, tt)
check_devices_sound seen (d ∷ ds) h =
    let (natural, distinct, unseen) = check_devices_sound (d ∷ seen) ds (ground arith) in
    (
      (ground arith, natural),
      (All-map _ _ ds (λ e u f. ((contains-cons e d seen).0 u).0 (sym f)) unseen, distinct),
      (ground arith, All-map _ _ ds (λ e u. ((contains-cons e d seen).0 u).1) unseen),
    )

check_devices_complete : (seen ds : List ℤ) → DevicesGood seen ds → check_devices seen ds ≡ none
unfolding check_devices
check_devices_complete seen [] h = refl
check_devices_complete seen (d ∷ ds) (natural, distinct, unseen) = ground (
  arith,
  check_devices_complete (d ∷ seen) ds (natural.1, distinct.1, both ds distinct.0 unseen.1),
)
  where
    both : (es : List ℤ) → All (λ e. d ≢ e) es → All (NotSeen seen) es → All (NotSeen (d ∷ seen)) es
    both [] p q = tt
    both (e ∷ es) p q = ((contains-cons e d seen).1 ((λ f. p.0 (sym f)), q.0), both es p.1 q.1)

collides_iff : (s : ServerConfig) (port : ℤ) → (collides s port ≡ false) ↔ IsFree s port
unfolding collides
collides_iff s port = (
  λ h. (
    (λ e. ground (arith, eqb_ℤ_iff port s.port)),
    free (eqb_ℤ s.mesh_port (pos 0)) refl (ground arith),
  ),
  λ h.
      ground
        (arith, eqb_ℤ_iff port s.port, eqb_ℤ_iff port s.mesh_port, eqb_ℤ_iff s.mesh_port (pos 0)),
)
  where
    free :
        (b : Bool)
        → eqb_ℤ s.mesh_port (pos 0) ≡ b
        → (not b && eqb_ℤ port s.mesh_port) ≡ false
        → (s.mesh_port ≡ pos 0) ⊎ (port ≢ s.mesh_port)
    free true e h = inl ((eqb_ℤ_iff s.mesh_port (pos 0)).0 e)
    free false e h = inr (λ f. ground (arith, eqb_ℤ_iff port s.mesh_port))

check_ports_iff :
    (s : ServerConfig) (bs : List BackendSpec)
    → (check_ports s bs ≡ none) ↔ All (λ b. IsFree s b.port) bs
unfolding check_ports
check_ports_iff s [] = ((λ h. tt), (λ h. refl))
check_ports_iff s (b ∷ bs) =
    let rest = check_ports_iff s bs in
    (
      λ h. ((collides_iff s b.port).0 (ground arith), rest.0 (ground arith)),
      λ h. ground (arith, (collides_iff s b.port).1 h.0, rest.1 h.1),
    )

moe_known_iff : (m : String) → (moe_known m ≡ true) ↔ MoeKnown m
unfolding moe_known
moe_known_iff m = (
  λ h. ground (
    arith,
    str_eq_iff m "",
    str_eq_iff m "fused",
    str_eq_iff m "offload",
    str_eq_iff m "cpu",
    str_eq_iff m "hybrid",
  ),
  λ h. ground (
    arith,
    str_eq_iff m "",
    str_eq_iff m "fused",
    str_eq_iff m "offload",
    str_eq_iff m "cpu",
    str_eq_iff m "hybrid",
  ),
)

first_error_iff : (os : List (Option Invalid)) → (first_error os ≡ none) ↔ All (λ o. o ≡ none) os
unfolding first_error
first_error_iff [] = ((λ h. tt), (λ h. refl))
first_error_iff (none ∷ os) =
    let rest = first_error_iff os in ((λ h. (refl, rest.0 h)), (λ h. rest.1 h.1))
first_error_iff (some e ∷ os) = ((λ h. absurd (ground arith)), (λ h. absurd (ground arith)))

fails_iff : (t : Bool) (e : Invalid) → (fails t e ≡ none) ↔ (t ≡ false)
fails_iff true e = ((λ h. absurd (ground arith)), (λ h. absurd (ground arith)))
fails_iff false e = ((λ h. refl), (λ h. refl))

string_differs : (s t : String) → (str_eq s t ≡ false) ↔ (s ≢ t)
string_differs s t = ground (arith, str_eq_iff s t)

listeners_iff :
    (s : ServerConfig)
    → ((eqb_ℤ s.port s.mesh_port && not (eqb_ℤ s.mesh_port (pos 0))) ≡ false)
      ↔ ((s.mesh_port ≡ pos 0) ⊎ (s.port ≢ s.mesh_port))
listeners_iff s = (apart (eqb_ℤ s.mesh_port (pos 0)) refl, back)
  where
    apart :
        (b : Bool)
        → eqb_ℤ s.mesh_port (pos 0) ≡ b
        → (eqb_ℤ s.port s.mesh_port && not b) ≡ false
        → (s.mesh_port ≡ pos 0) ⊎ (s.port ≢ s.mesh_port)
    apart true e h = inl ((eqb_ℤ_iff s.mesh_port (pos 0)).0 e)
    apart false e h = inr (λ f. ground (arith, eqb_ℤ_iff s.port s.mesh_port))

    back :
        (s.mesh_port ≡ pos 0) ⊎ (s.port ≢ s.mesh_port)
        → (eqb_ℤ s.port s.mesh_port && not (eqb_ℤ s.mesh_port (pos 0))) ≡ false
    back h = ground (arith, eqb_ℤ_iff s.port s.mesh_port, eqb_ℤ_iff s.mesh_port (pos 0))

bad_ratio_iff : (x : Float64) → (bad_ratio x ≡ false) ↔ IsAccepted x
unfolding bad_ratio
bad_ratio_iff (real r) = (λ h. ground arith, λ h. ground arith)
bad_ratio_iff positive_infinity = ((λ h. absurd (ground arith)), (λ h. absurd h))
bad_ratio_iff negative_infinity = ((λ h. absurd (ground arith)), (λ h. absurd h))
bad_ratio_iff nan = ((λ h. tt), (λ h. refl))

is_nil_iff : (ds : List ℤ) → (is_nil ds ≡ false) ↔ (ds ≢ [])
is_nil_iff [] = ((λ h. absurd (ground arith)), (λ h. absurd (h refl)))
is_nil_iff (d ∷ ds) = ((λ h e. ground arith), (λ h. refl))

accepted-IsValid : (c : Config) → All (λ o. o ≡ none) (checks c) → IsValid c
accepted-IsValid c (name, (path, (devices, (cards, (listeners, (ports, (ratio, (moe, _)))))))) =
    let good = check_devices_sound [] c.gpus.devices cards in
    let in_range = (bad_ratio_iff c.freetoken.memory_ratio).0 ((fails_iff _ _).0 ratio) in
    record {
      named = (string_differs _ _).0 ((fails_iff _ _).0 name);
      located = (string_differs _ _).0 ((fails_iff _ _).0 path);
      some_device = (is_nil_iff c.gpus.devices).0 ((fails_iff _ _).0 devices);
      devices_natural = good.0;
      devices_distinct = good.1;
      listeners_apart = (listeners_iff c.server).0 ((fails_iff _ _).0 listeners);
      ports_free = (check_ports_iff c.server (backends c)).0 ports;
      ratio_accepted = in_range;
      moe_named = (moe_known_iff _).0 (not_false ((fails_iff _ _).0 moe));
    }
  where
    not_false : {b : Bool} → not b ≡ false → b ≡ true
    not_false h = ground arith

unseen : (ds : List ℤ) → All (NotSeen []) ds
unfolding contains
unseen [] = tt
unseen (d ∷ ds) = (refl, unseen ds)

IsValid-accepted : (c : Config) → IsValid c → All (λ o. o ≡ none) (checks c)
IsValid-accepted c v =
    let moe = (fails_iff _ _).1 (ap not ((moe_known_iff c.freetoken.moe_backend).1 v.moe_named)) in
    let ratio = (fails_iff _ _).1 ((bad_ratio_iff c.freetoken.memory_ratio).1 v.ratio_accepted) in
    let ports = (check_ports_iff c.server (backends c)).1 v.ports_free in
    let listeners = (fails_iff _ _).1 ((listeners_iff c.server).1 v.listeners_apart) in
    let cards =
      check_devices_complete [] c.gpus.devices
        (v.devices_natural, v.devices_distinct, unseen c.gpus.devices) in
    let devices = (fails_iff _ _).1 ((is_nil_iff c.gpus.devices).1 v.some_device) in
    let path = (fails_iff _ _).1 ((string_differs _ _).1 v.located) in
    let name = (fails_iff _ _).1 ((string_differs _ _).1 v.named) in
    (name, (path, (devices, (cards, (listeners, (ports, (ratio, (moe, tt))))))))

-- `Validate` accepts a configuration exactly if the model has a name and a path, the devices are at
-- least one, no negative and no repeated one, no backend's port is one of the node's own two, which
-- differ unless the mesh port is 0, the memory ratio lies in (0, 1] or is not a number, and the MoE backend is empty or
-- one of the four known.
pub validate_iff : (c : Config) → (validate c ≡ none) ↔ IsValid c
unfolding validate
validate_iff c = (
  λ h. accepted-IsValid c ((first_error_iff (checks c)).0 h),
  λ v. (first_error_iff (checks c)).1 (IsValid-accepted c v),
)
