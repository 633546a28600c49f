-- ===== src/Sample/Dynamic.antt =====
-- sample/dynamic.go, sample/dynamic_ema.go and sample/totalthroughput.go: the samplers that take the
-- rate of a trace's key from the package dynsampler, which is a parameter with its state. An `int`
-- has 64 bits here. Metrics and logging are left out.
pub mod Rates
use Prim.Native.String.{◌++◌}
use tracing_proxy.Base.{ℕ, suc, String, List, Bool, true, false, Option, ◌==◌, if◌then◌else◌}
use tracing_proxy.Base.Int.{ℤ, pos, negsuc}
use tracing_proxy.Types.{Trace}
use tracing_proxy.Sample.TraceKey.{TraceKey, Printers, new_trace_key, build_and_add}

-- what all three configurations say of the key
pub record KeyConfig : Type 0 where
  pub field_list : List String
  pub use_trace_length : Bool
  pub add_sample_rate_key_to_trace : Bool
  pub add_sample_rate_key_to_trace_field : String

-- The settings of the package's sampler. A `float64` is its bit pattern.
pub data DynsamplerConfig : Type 0 where
  -- `GoalSampleRate` and `ClearFrequencySec`
  avg_sample_rate : ℤ → ℤ → DynsamplerConfig
  -- `GoalSampleRate`, `AdjustmentInterval`, `Weight`, `AgeOutValue`, `BurstMultiple`,
  -- `BurstDetectionDelay` and `MaxKeys`
  ema_sample_rate : ℤ → ℤ → ℕ → ℕ → ℕ → ℕ → ℤ → DynsamplerConfig
  -- `GoalThroughputPerSec` and `ClearFrequencySec`
  total_throughput : ℤ → ℤ → DynsamplerConfig

-- A new sampler of the package, started, and a rate with the state after it; an error of its `Start`
-- is only logged.
pub record Dynsampler : Type 1 where
  pub State : Type 0
  pub new : DynsamplerConfig → State
  pub get_sample_rate : State → String → ℤ × State

unfoldable pub is_zero : ℤ → Bool
is_zero (pos n) = n == 0
is_zero (negsuc n) = false

-- `ClearFrequencySec` after `Start`
unfoldable pub or_thirty : ℤ → ℤ
unfolding is_zero
or_thirty clear = if is_zero clear then pos 30 else clear

unfoldable pub is_below_one : ℤ → Bool
is_below_one (pos n) = n == 0
is_below_one (negsuc n) = true

-- `rate`, a number that is at least 1
unfoldable pub protect : ℤ → ℕ
protect (pos (suc n)) = suc n
protect _ = 1

pub record DynamicRate : Type 0 where
  pub rate : ℕ
  pub keep : Bool
  pub reason : String

module _ (D : Dynsampler) (P : Printers) where
  open D use {State, new}

  -- a sampler that has been started
  pub record DynamicSampler : Type 0 where
    pub key : TraceKey
    pub dynsampler : State
    pub prefix : String

  unfoldable pub key_of : KeyConfig → TraceKey
  unfolding new_trace_key
  key_of k =
      new_trace_key P k.field_list k.use_trace_length k.add_sample_rate_key_to_trace
        k.add_sample_rate_key_to_trace_field

  unfoldable pub start_dynamic : KeyConfig → ℤ → ℤ → DynamicSampler
  unfolding key_of or_thirty
  start_dynamic k sample_rate clear = record {
    key = key_of k;
    dynsampler = new (avg_sample_rate sample_rate (or_thirty clear));
    prefix = "dynamic/";
  }

  unfoldable pub start_ema : KeyConfig → ℤ → ℤ → ℕ → ℕ → ℕ → ℕ → ℤ → DynamicSampler
  unfolding key_of
  start_ema k goal interval weight age_out burst delay max_keys = record {
    key = key_of k;
    dynsampler = new (ema_sample_rate goal interval weight age_out burst delay max_keys);
    prefix = "emadynamic/";
  }

  unfoldable pub start_throughput : KeyConfig → ℤ → ℤ → DynamicSampler
  unfolding key_of or_thirty is_below_one
  start_throughput k goal clear = record {
    key = key_of k;
    dynsampler =
        new (total_throughput (if is_below_one goal then pos 100 else goal) (or_thirty clear));
    prefix = "totalthroughput/";
  }

  -- `GetSampleRate`; `intn` is `rand.Intn`. The trace comes back with the key in its spans.
  unfoldable pub get_sample_rate :
      (ℕ → ℕ) → DynamicSampler → Trace → DynamicRate × DynamicSampler × Trace
  unfolding build_and_add protect
  get_sample_rate intn d t =
      let (key, t') = build_and_add P d.key t in
      let (rate, state) = D.get_sample_rate d.dynsampler key in
      (
        record { rate = protect rate; keep = intn (protect rate) == 0; reason = d.prefix ++ key },
        record d { dynsampler = state },
        t',
      )
