-- ===== src/Memory/Examples.antt =====
-- Tests and concrete instances for harness/memory.py.
use localharness.Prelude.{◌≡◌, refl, false, none, some, [], ◌∷◌}
use localharness.Memory.{
  unified, ceiling_for, reserve_for, measured_reserve, Facts, fitted, refused, check_model, fits,
}
use localharness.Memory.Guard.{LeavesBoth, check_model_lem}

program : Unit {0}
unfolding ceiling_for reserve_for measured_reserve check_model fits
program = tt

abbrev quantized : Facts
quantized = record {
  on_disk = some 32;
  quantize = some 4;
  is_ds4 = false;
  ds4_resident = none;
  peak = some 9;
}

ceiling-mac : ceiling_for (record { kind = unified; total_gb = 32; available_gb = 20 }) ≡ 24
unfolding program
ceiling-mac = refl

margins : measured_reserve 1 (3 ∷ 8 ∷ 5 ∷ []) ≡ 8
unfolding program
margins = refl

quantized-fits : check_model quantized 20 24 0 6 ≡ fitted
unfolding program
quantized-fits = refl

quantized-refused : check_model quantized 14 24 0 6 ≡ refused
unfolding program
quantized-refused = refl

check_model_lem_example :
    LeavesBoth 20 24 0 6 (some 9) × (false ≡ false → LeavesBoth 20 24 0 6 (some 8))
check_model_lem_example = check_model_lem quantized 20 24 0 6 quantized-fits
