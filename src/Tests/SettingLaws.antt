-- ===== src/Tests/SettingLaws.antt =====
-- The theorems on config/file_config.go at concrete inputs: a configuration file that is no more
-- than the interval of the reports, and rules with a sampler of their own for one dataset.
use tracing_proxy.Base.{
  ℕ, String, List, [], ◌∷◌, Option, none, some, ◌≡◌, refl, inl, inr, Result, same_text, ◌||◌,
  if◌then◌else◌,
}
use tracing_proxy.Base.Int.{pos}
use tracing_proxy.Settings.{
  ConfigContents, Reads, SamplerKind, validate_sampler_configs, check_metrics,
}
use tracing_proxy.Settings.Reload.{
  FileConfig, Change, new_config, unmarshal_both, read_again, on_changes,
}
use tracing_proxy.Settings.Samplers.{get_sampler_config_for_dataset}
use tracing_proxy.Settings.Stuck.{on_changes-stuck}
use tracing_proxy.Settings.Usable.{get_sampler_config_for_dataset-IsUsable, IsUsable}

-- The interval is none in the rules.
abbrev files : Reads (Option ℕ) Unit SamplerKind
files = record {
  all_keys = λ _. "sampler" ∷ "shop.sampler" ∷ [];
  is_set = λ _ key. same_text key "Sampler" || same_text key "shop.Sampler";
  get_string = λ _ _. "DeterministicSampler";
  sub = λ v name. if same_text name "shop" then some v else none;
  unmarshal = λ v conf.
      (elim v [ some n ↦ record conf { reporting_interval = pos n } | none ↦ conf ], none);
  unmarshal_sampler = λ _ kind. (kind, none);
  validate = λ _. none;
  validate_sampler = λ _. none;
  split = λ key. if same_text key "shop.sampler" then "shop" ∷ "sampler" ∷ [] else key ∷ [];
  decimal = λ _. "5";
}

abbrev contents : ℕ → ConfigContents Unit
contents n = record { reporting_interval = pos n; metrics_list = ".*" ∷ []; rest = tt }

abbrev started : FileConfig (Option ℕ) Unit (List String)
started = record {
  config = some 10;
  rules = none;
  conf = contents 10;
  callbacks = [];
  error_callback = λ e w. e ∷ w;
  last_load_time = 1;
}

new_config-started :
    new_config files 1 (contents 0) (Result.ok (some 10)) (Result.ok none) (λ e w. e ∷ w)
    ≡ Result.ok started
unfolding new_config
new_config-started = refl

-- The interval becomes 5, which is too short, and 20 is never taken.
on_changes-stuck_example :
    (on_changes files
      ((2, Change.config_changed (some 5)) ∷ (3, Change.config_changed (some 20)) ∷ [])
      started
      []).0.conf
    ≡ contents 5
unfolding read_again validate_sampler_configs unmarshal_both check_metrics
on_changes-stuck_example =
    on_changes-stuck files 1 (contents 0) (Result.ok (some 10)) (Result.ok none) (λ e w. e ∷ w)
      started new_config-started 2 (Change.config_changed (some 5)) refl
      (inr ("mertics reporting interval 5 not allowed, must be >= 10", refl))
      ((3, Change.config_changed (some 20)) ∷ []) []

get_sampler_config_for_dataset-IsUsable_example :
    IsUsable files (get_sampler_config_for_dataset files none "shop")
unfolding validate_sampler_configs
get_sampler_config_for_dataset-IsUsable_example =
    get_sampler_config_for_dataset-IsUsable files none "shop" refl refl (inl (refl, refl))
      (λ _. inr (inl ("shop", none, refl, refl, refl, refl)))
