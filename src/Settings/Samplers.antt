-- ===== src/Settings/Samplers.antt =====
-- config/file_config.go: `GetSamplerConfigForDataset`.
use Prim.Native.String.{◌++◌}
use tracing_proxy.Base.{String, Option, none, some, if◌then◌else◌}
use tracing_proxy.Settings.{Reads, sampler_kind}

module _ {V Rest Sampler : Type 0} (reads : Reads V Rest Sampler) where
  open reads use {is_set, get_string, sub, unmarshal_sampler}

  -- one of the two branches of `GetSamplerConfigForDataset` for the name of a sampler
  unfoldable pub sampler_config : Option V → String → Option Sampler × String × Option String
  unfolding sampler_kind
  sampler_config source t = elim (sampler_kind t) [
    | none ↦ (none, "not found", some "No Sampler found")
    | some kind ↦ elim source [
      | none ↦ (none, "not found", some "No Sampler found")
      | some v ↦ let (sampler, error) = unmarshal_sampler v kind in (some sampler, t, error)
    ]
  ]

  unfoldable pub get_sampler_config_for_dataset :
      V → String → Option Sampler × String × Option String
  unfolding sampler_config
  get_sampler_config_for_dataset rules dataset =
      let key = dataset ++ ".Sampler" in
      if is_set rules key
      then sampler_config (sub rules dataset) (get_string rules key)
      else if is_set rules "Sampler"
      then sampler_config (some rules) (get_string rules "Sampler")
      else (none, "not found", some "No Sampler found")
