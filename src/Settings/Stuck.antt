-- ===== src/Settings/Stuck.antt =====
-- Which configuration `onChange` of config/file_config.go checks.
use tracing_proxy.Base.{
  ℕ, String, List, [], ◌∷◌, none, some, Result, ◌≡◌, refl, subst, ap, sym, ◌∙◌, ◌⊎◌, inl, inr,
  Option-cases, arith,
}
use tracing_proxy.Settings.{ConfigContents, Reads, check_metrics, validate_sampler_configs}
use tracing_proxy.Settings.Reload.{
  FileConfig, Change, on_change, on_changes, read_again, new_config, unmarshal_both,
  validate_general_configs,
}

module _ {V Rest Sampler : Type 0} (reads : Reads V Rest Sampler) where
  open reads use {validate}

  -- One of the two checks of the configuration finds an error.
  abbrev pub IsUnfit : ConfigContents Rest → Type 0
  IsUnfit conf =
      ((e : String) × (validate conf ≡ some e))
      ⊎ ((e : String) × (check_metrics reads conf ≡ some e))

  module _ {W : Type 0} where
    on_change-IsUnfit :
        (now : ℕ) (f : FileConfig V Rest W) (w : W)
        → IsUnfit f.conf
        → (on_change reads now f w).0.conf ≡ f.conf
    unfolding on_change validate_general_configs
    on_change-IsUnfit now f w (inl (e, bad)) = rw (bad, on_change) refl
    on_change-IsUnfit now f w (inr (e, bad)) = elim (Option-cases (validate f.conf)) [
      | inl ok ↦ rw (ok, bad, on_change, validate_general_configs) refl
      | inr (e', bad') ↦ rw (bad', on_change) refl
    ]

    read_again-conf : (c : Change V) (f : FileConfig V Rest W) → (read_again c f).conf ≡ f.conf
    unfolding read_again
    read_again-conf (Change.config_changed v) f = refl
    read_again-conf (Change.rules_changed v) f = refl

    on_changes-IsUnfit :
        (cs : List (ℕ × Change V)) (f : FileConfig V Rest W) (w : W)
        → IsUnfit f.conf
        → (on_changes reads cs f w).0.conf ≡ f.conf
    unfolding on_changes
    on_changes-IsUnfit [] f w bad = refl
    on_changes-IsUnfit ((now, c) ∷ cs) f w bad =
        let again = read_again c f in
        let same =
          on_change-IsUnfit now again w (subst IsUnfit (sym (read_again-conf c f)) bad)
          ∙ read_again-conf c f in
        let (f', w') = on_change reads now again w in
        on_changes-IsUnfit cs f' w' (subst IsUnfit (sym same) bad) ∙ same

    -- What `NewConfig` answers passes both checks.
    new_config-passes :
        (now : ℕ) (empty : ConfigContents Rest) (config rules : Result String V)
        (error_callback : String → W → W) (f : FileConfig V Rest W)
        → new_config reads now empty config rules error_callback ≡ Result.ok f
        → (validate f.conf ≡ none) × (check_metrics reads f.conf ≡ none)
    unfolding new_config validate_general_configs unmarshal_both
    new_config-passes now empty config rules error_callback f e = ground arith

    on_change-adopts :
        (now : ℕ) (f : FileConfig V Rest W) (w : W)
        → validate f.conf ≡ none
        → check_metrics reads f.conf ≡ none
        → validate_sampler_configs reads f.rules ≡ none
        → (on_change reads now f w).0.conf ≡ (unmarshal_both reads f).0.conf
    unfolding on_change validate_general_configs unmarshal_both
    on_change-adopts now f w valid good sampled =
        rw (valid, good, sampled, on_change, validate_general_configs) (ground arith)

    -- If `NewConfig` answers a configuration, and a later change of one of the files leaves
    -- rules that `validateSamplerConfigs` passes, but is read as a configuration in which
    -- the validator or `validateGeneralConfigs` finds an error, then `onChange` takes that
    -- configuration, and no sequence of further changes of the files, of whatever content,
    -- replaces it.
    pub on_changes-stuck :
        (start : ℕ) (empty : ConfigContents Rest) (config rules : Result String V)
        (error_callback : String → W → W) (f : FileConfig V Rest W)
        → new_config reads start empty config rules error_callback ≡ Result.ok f
        → (now : ℕ) (c : Change V) → validate_sampler_configs reads (read_again c f).rules ≡ none
        → IsUnfit (unmarshal_both reads (read_again c f)).0.conf
        → (cs : List (ℕ × Change V)) (w : W)
        → (on_changes reads ((now, c) ∷ cs) f w).0.conf
          ≡ (unmarshal_both reads (read_again c f)).0.conf
    unfolding on_changes
    on_changes-stuck start empty config rules error_callback f started now c sampled bad cs w =
        let again = read_again c f in
        let (valid, good) = new_config-passes start empty config rules error_callback f started in
        let same = read_again-conf c f in
        let taken =
          on_change-adopts now again w (ap validate same ∙ valid)
            (ap (check_metrics reads) same ∙ good) sampled in
        let (f', w') = on_change reads now again w in
        on_changes-IsUnfit cs f' w' (subst IsUnfit (sym taken) bad) ∙ taken
