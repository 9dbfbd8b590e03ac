-- ===== src/Gpu/Watts/Shares.antt =====
-- The readings of the cards (internal/power/power.go) against the wattage of the node.
use viiwork_freetoken.Prelude.{◌≡◌, refl, ap, ◌∙◌, true, List, [], ◌∷◌, map, ℤ, String}
use viiwork_freetoken.Balancer.State.{Ratio}
use viiwork_freetoken.Gpu.History.{GpuSample, new_history, add, latest}
use viiwork_freetoken.Gpu.History.Kept.{add-IsKept}
use viiwork_freetoken.Peer.State.{zero_ratio}
use viiwork_freetoken.Gpu.Watts.{
  FloatAdd, Sum, available, add_watts, sum_power, watts, model_name, readings_of, readings,
}
use viiwork_freetoken.Peer.Registry.{Models}

module _ {ℓ} {R : Type ℓ} (make : ℤ → Ratio → String → R) (watts_of : R → Ratio) (id_of : R → ℤ)
    (name_of : R → String)
    (watts-make : (id : ℤ) (w : Ratio) (m : String) → watts_of (make id w m) ≡ w)
    (id-make : (id : ℤ) (w : Ratio) (m : String) → id_of (make id w m) ≡ id)
    (name-make : (id : ℤ) (w : Ratio) (m : String) → name_of (make id w m) ≡ m) where
  readings_of-watts :
      (plus : FloatAdd) (models : Models) (total : Ratio) (ss : List GpuSample)
      → add_watts plus total (map watts_of (readings_of make models ss)) ≡ sum_power plus total ss
  unfolding readings_of
  readings_of-watts plus models total [] = refl
  readings_of-watts plus models total (s ∷ ss) =
      ap (λ w. add_watts plus (plus total w) (map watts_of (readings_of make models ss)))
        (watts-make s.gpu_id s.power_w (model_name (models s.gpu_id)))
      ∙ readings_of-watts plus models (plus total s.power_w) ss

  readings_of-ids :
      (models : Models) (ss : List GpuSample)
      → map id_of (readings_of make models ss) ≡ map (λ s. GpuSample.gpu_id s) ss
  unfolding readings_of
  readings_of-ids models [] = refl
  readings_of-ids models (s ∷ ss) =
      rw (id-make s.gpu_id s.power_w (model_name (models s.gpu_id)))
        (ap (λ ids. s.gpu_id ∷ ids) (readings_of-ids models ss))

  readings_of-names :
      (models : Models) (ss : List GpuSample)
      → map name_of (readings_of make models ss)
        ≡ map (λ id. model_name (models id)) (map (λ s. GpuSample.gpu_id s) ss)
  unfolding readings_of
  readings_of-names models [] = refl
  readings_of-names models (s ∷ ss) =
      rw (name-make s.gpu_id s.power_w (model_name (models s.gpu_id)))
        (ap (λ names. model_name (models s.gpu_id) ∷ names) (readings_of-names models ss))

  -- When wattage is available, the readings of a history sum to the wattage of the node, in the
  -- same order of additions, whatever addition of floats is.
  pub readings-watts :
      (plus : FloatAdd) (models : Models) (s : Sum)
      → available s ≡ true
      → add_watts plus zero_ratio (map watts_of (readings make s.history models)) ≡ watts plus s
  unfolding readings watts
  readings-watts plus models s on =
      rw on (readings_of-watts plus models zero_ratio (latest s.history))

  -- Of a history grown from the empty one there is one reading for each card, in ascending order of
  -- the cards, with the name of the model on it and the empty name where none is known.
  pub readings-add :
      (models : Models) (ss : List GpuSample)
      → (map id_of (readings make (add ss new_history) models) ≡ (add ss new_history).order)
        × (map name_of (readings make (add ss new_history) models)
            ≡ map (λ id. model_name (models id)) (add ss new_history).order)
  unfolding readings
  readings-add models ss = (
    readings_of-ids models (latest (add ss new_history)) ∙ (add-IsKept ss).1,
    readings_of-names models (latest (add ss new_history))
        ∙ ap (λ ids. map (λ id. model_name (models id)) ids) ((add-IsKept ss).1),
  )
