-- ===== src/Tests/Sensor.antt =====
-- A sensor whose bus is its registers, with a positive, a negative and the smallest number.
use galileo_terremoti.Base.{ℕ, ◌+◌, ◌≡◌, refl, false, [], ◌∷◌, arith, ◌==◌, if◌then◌else◌}
use galileo_terremoti.Floats.{whole}
use galileo_terremoti.Accelerometer.{Smbus, pos, negsuc, get_axes, scaled}
use galileo_terremoti.Accelerometer.Adxl.{get_axes-axes_bytes}

abbrev registers : Smbus
registers = record {
  Bus = ℕ → ℕ;
  write = λ r v b p. if p == r then v else b p;
  read = λ r b. b r;
  read_block = λ r n b. b r ∷ b (r + 1) ∷ b (r + 2) ∷ b (r + 3) ∷ b (r + 4) ∷ b (r + 5) ∷ [];
}

-- 300, -2 and -32768.
abbrev sensed : ℕ → ℕ
sensed p =
    if p == 50
    then 44
    else if p == 51
    then 1
    else if p == 52
    then 254
    else if p == 53
    then 255
    else if p == 55
    then 128
    else 0

get_axes-axes_bytes_example : get_axes registers whole false sensed ≡ record {
  x = scaled registers whole false (pos 300);
  y = scaled registers whole false (negsuc 1);
  z = scaled registers whole false (negsuc 32767);
}
get_axes-axes_bytes_example =
    get_axes-axes_bytes registers whole false sensed (pos 300) (negsuc 1) (negsuc 32767)
      (omega arith) (omega arith) (omega arith) refl
