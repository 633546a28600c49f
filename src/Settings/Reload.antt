-- ===== src/Settings/Reload.antt =====
-- config/file_config.go: how the process takes in its two files, and a change of them.
use tracing_proxy.Base.{ℕ, String, List, [], ◌∷◌, Option, none, some, Result}
use mathlib.Core.List.{◌++◌ as append}
use tracing_proxy.Settings.{ConfigContents, Reads, check_metrics, validate_sampler_configs}

-- `W` is what the callbacks change.
pub record FileConfig (V Rest W : Type 0) : Type 0 where
  pub config : V
  pub rules : V
  pub conf : ConfigContents Rest
  pub callbacks : List (W → W)
  pub error_callback : String → W → W
  pub last_load_time : ℕ

-- What happens to the files: viper reads one of them again, and the other stays.
pub data Change (V : Type 0) : Type 0 where
  config_changed : V → Change V
  rules_changed : V → Change V

unfoldable pub call_back : {W : Type 0} → List (W → W) → W → W
call_back [] w = w
call_back (c ∷ cs) w = call_back cs (c w)

module _ {V Rest W : Type 0} where
  unfoldable pub read_again : Change V → FileConfig V Rest W → FileConfig V Rest W
  read_again (config_changed v) f = record f { config = v }
  read_again (rules_changed v) f = record f { rules = v }

  unfoldable pub register_reload_callback : (W → W) → FileConfig V Rest W → FileConfig V Rest W
  register_reload_callback c f = record f { callbacks = append f.callbacks (c ∷ []) }

module _ {V Rest Sampler : Type 0} (reads : Reads V Rest Sampler) where
  open reads use {unmarshal, validate}

  module _ {W : Type 0} where
    unfoldable pub validate_general_configs :
        ℕ → FileConfig V Rest W → FileConfig V Rest W × Option String
    unfolding check_metrics
    validate_general_configs now f = (record f { last_load_time = now }, check_metrics reads f.conf)

    -- `Unmarshal` writes into the configuration even where it answers an error.
    unfoldable pub unmarshal_both : FileConfig V Rest W → FileConfig V Rest W × Option String
    unmarshal_both f =
        let (conf, error) = unmarshal f.config f.conf in
        elim error [
          | some e ↦ (record f { conf = conf }, some e)
          | none ↦
              let (conf', error') = unmarshal f.rules conf in (record f { conf = conf' }, error')
        ]

    -- `onChange`
    unfoldable pub on_change : ℕ → FileConfig V Rest W → W → FileConfig V Rest W × W
    unfolding validate_general_configs validate_sampler_configs unmarshal_both call_back
    on_change now f w = elim (validate f.conf) [
      | some e ↦ (f, f.error_callback e w)
      | none ↦
          let (f', error) = validate_general_configs now f in
          elim error [
            | some e ↦ (f', f'.error_callback e w)
            | none ↦ elim (validate_sampler_configs reads f'.rules) [
              | some e ↦ (f', f'.error_callback e w)
              | none ↦ let f'' = (unmarshal_both f').0 in (f'', call_back f''.callbacks w)
            ]
          ]
    ]

    -- changes of the files at given times, each followed by `onChange`
    unfoldable pub on_changes :
        List (ℕ × Change V) → FileConfig V Rest W → W → FileConfig V Rest W × W
    unfolding on_change read_again
    on_changes [] f w = (f, w)
    on_changes ((now, c) ∷ cs) f w =
        let (f', w') = on_change now (read_again c f) w in on_changes cs f' w'

    -- `NewConfig`, from the reading of the two files on; `empty` is a new `configContents`
    unfoldable pub new_config :
        ℕ
        → ConfigContents Rest
        → Result String V
        → Result String V
        → (String → W → W)
        → Result String (FileConfig V Rest W)
    unfolding validate_general_configs validate_sampler_configs unmarshal_both
    new_config now empty (Result.err e) rules error_callback = Result.err e
    new_config now empty (Result.ok config) (Result.err e) error_callback = Result.err e
    new_config now empty (Result.ok config) (Result.ok rules) error_callback =
        let fc : FileConfig V Rest W = record {
          config = config;
          rules = rules;
          conf = empty;
          callbacks = [];
          error_callback = error_callback;
          last_load_time = 0;
        } in
        let (f, unread) = unmarshal_both fc in
        elim unread [
          | some e ↦ Result.err e
          | none ↦ elim (validate f.conf) [
            | some e ↦ Result.err e
            | none ↦
                let (f', invalid) = validate_general_configs now f in
                elim invalid [
                  | some e ↦ Result.err e
                  | none ↦ elim (validate_sampler_configs reads f'.rules) [
                    | some e ↦ Result.err e
                    | none ↦ Result.ok f'
                  ]
                ]
          ]
        ]
