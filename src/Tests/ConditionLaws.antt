-- ===== src/Tests/ConditionLaws.antt =====
-- The theorems on config/sampler_config.go at concrete inputs: a printer that shows texts and
-- Booleans only.
use tracing_proxy.Base.{
  refl, String, Option, some, none, Bool, true, false, ltb, ◌==◌, same_text, if◌then◌else◌,
}
use tracing_proxy.Base.Int.{ℤ, pos_part}
use tracing_proxy.Types.{Value}
use tracing_proxy.Conditions.{Conversions}
use tracing_proxy.Conditions.Agrees.{AgreesOn, set_matches-compare}

abbrev shown : Value → String
shown (Value.text s) = s
shown (Value.bool true) = "true"
shown (Value.bool false) = "false"
shown _ = ""

abbrev read_bool : String → Option Bool
read_bool s =
    if same_text s "true" then some true else if same_text s "false" then some false else none

abbrev conversions : Conversions
conversions = record {
  floats = record { of_int = λ n. pos_part n; below = ltb };
  print = shown;
  atoi = λ s. none;
  parse_float = λ s. none;
  parse_bool = read_bool;
  int_of_float = λ x. ℤ.pos x;
  same_float = λ x y. x == y;
}

set_matches-compare_example : AgreesOn conversions "status" (ℤ.pos 500) (ℤ.pos 400) ">="
unfolding same_text
set_matches-compare_example =
    set_matches-compare conversions "status" ">=" (ℤ.pos 500) (ℤ.pos 400) refl
