-- ===== src/Reasons/Examples.antt =====
-- Tests and concrete instances for failure classes.
use localharness.Prelude.{◌≡◌, refl, [], ◌∷◌, String}
use localharness.Text.{before_char}
use localharness.Reasons.{first, first_in, classify, mps_abort, head_of, runner, stderr}

program : Unit {0}
unfolding first first_in classify mps_abort head_of before_char
program = tt

abbrev same : String → String
same s = s

harness_before_model :
    first ("crashed" ∷ "timeout" ∷ "server_dead" ∷ "timeout" ∷ []) ≡ "server_dead"
unfolding program
harness_before_model = refl

missing_script :
    classify same same "sh: no such file or directory" stderr "mflux:org/model" ≡ "harness_error"
unfolding program
missing_script = refl

missing_weights :
    classify same same "config.json: no such file or directory" runner "org/model"
    ≡ "missing_file_in_snapshot"
unfolding program
missing_weights = refl

unsupported :
    classify same same "model type lfm3 not supported" runner "mflux:org/model"
    ≡ "load_failed_runtime"
unfolding program
unsupported = refl
