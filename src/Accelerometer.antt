-- ===== src/Accelerometer.antt =====
-- vendor/raspi/ADXL345Accelerometer.cpp, the accelerometer of the Raspberry Pi, and `getTotalVector`
-- of Accelerometer.h. The calls of the SMBus library, which is another project's code, are a
-- parameter: a state of the bus, with reads and writes of registers. Opening the device is left out.
pub mod Adxl
use Prim.Native.Nat.{bit_and, bit_or}
use galileo_terremoti.Base.{
  ℕ, ◌+◌, ◌-◌, ◌*◌, ◌%◌, ◌^◌, Bool, true, false, [], ◌∷◌, Bytes, ltb, get_or, if◌then◌else◌,
}
use galileo_terremoti.Floats.{Doubles}

-- `i2c_smbus_write_byte_data`, `i2c_smbus_read_byte_data` (a 32-bit word) and
-- `i2c_smbus_read_i2c_block_data` (the array after the call), by the number of a register.
pub record Smbus : Type 1 where
  pub Bus : Type 0
  pub write : ℕ → ℕ → Bus → Bus
  pub read : ℕ → Bus → ℕ
  pub read_block : ℕ → ℕ → Bus → Bytes

-- Signed numbers.
pub data ℤ : Type 0 where
  pos negsuc : ℕ → ℤ

-- The number of a 32-bit word.
abbrev pub of_word : ℕ → ℤ
of_word n = if ltb n (2 ^ 31) then pos n else negsuc (2 ^ 32 - 1 - n)

-- `(int8_t) b << 8`, as a 32-bit word.
unfoldable pub high_byte : ℕ → ℕ
high_byte b = (if ltb b 128 then b else b + (2 ^ 32 - 256)) * 256 % 2 ^ 32

-- `bytes[i] | ((int8_t) bytes[i + 1] << 8)`.
unfoldable pub axis : ℕ → ℕ → ℤ
unfolding high_byte
axis b0 b1 = of_word (bit_or b0 (high_byte b1))

abbrev pub data_format : ℕ
data_format = 49

abbrev pub bw_rate : ℕ
bw_rate = 44

abbrev pub power_ctl : ℕ
power_ctl = 45

abbrev pub bw_rate_100hz : ℕ
bw_rate_100hz = 11

abbrev pub range_2g : ℕ
range_2g = 0

abbrev pub measure : ℕ
measure = 8

abbrev pub axes_data : ℕ
axes_data = 50

module _ (S : Smbus) where
  open S use {Bus, write, read, read_block}

  unfoldable pub enable_measurement : Bus → Bus
  enable_measurement b = write power_ctl measure b

  unfoldable pub set_bandwidth_rate : ℕ → Bus → Bus
  set_bandwidth_rate rate b = write bw_rate rate b

  -- `value &= ~0x0F; value |= rangeFlags; value |= 0x08;`, on the word that was read; the call takes
  -- the low byte.
  unfoldable pub set_range : ℕ → Bus → Bus
  set_range flags b =
      let value = bit_or (bit_or (bit_and (read data_format b) (2 ^ 32 - 16)) flags) 8 in
      write data_format (value % 256) b

  -- The constructor, once the device is open.
  unfoldable pub start : Bus → Bus
  unfolding enable_measurement set_range set_bandwidth_rate
  start b = enable_measurement (set_range range_2g (set_bandwidth_rate bw_rate_100hz b))

  module _ (D : Doubles) where
    open D use {Double, of_nat, add, sub, mul, pow, sqrt, scan}

    pub record AxesInfos : Type 0 where
      pub x : Double
      pub y : Double
      pub z : Double

    -- The conversion of an `int`.
    abbrev pub of_int : ℤ → Double
    of_int (pos n) = of_nat n
    of_int (negsuc n) = sub (of_nat 0) (of_nat (n + 1))

    -- `SCALE_MULTIPLIER`, 0.004, and `EARTH_GRAVITY_MS2`, 9.80665.
    abbrev pub scale_multiplier : Double
    scale_multiplier = scan (b'0' ∷ b'.' ∷ b'0' ∷ b'0' ∷ b'4' ∷ [])

    abbrev pub earth_gravity_ms2 : Double
    earth_gravity_ms2 = scan (b'9' ∷ b'.' ∷ b'8' ∷ b'0' ∷ b'6' ∷ b'6' ∷ b'5' ∷ [])

    unfoldable pub scaled : Bool → ℤ → Double
    scaled gforce n =
        let g = mul (of_int n) scale_multiplier in if gforce then g else mul g earth_gravity_ms2

    unfoldable pub get_axes : Bool → Bus → AxesInfos
    unfolding axis scaled
    get_axes gforce b =
        let bytes = read_block axes_data 6 b in
        record {
          x = scaled gforce (axis (get_or bytes 0 0) (get_or bytes 1 0));
          y = scaled gforce (axis (get_or bytes 2 0) (get_or bytes 3 0));
          z = scaled gforce (axis (get_or bytes 4 0) (get_or bytes 5 0));
        }

    unfoldable pub get_x_accel : Bus → Double
    unfolding get_axes
    get_x_accel b = (get_axes false b).x

    unfoldable pub get_y_accel : Bus → Double
    unfolding get_axes
    get_y_accel b = (get_axes false b).y

    unfoldable pub get_z_accel : Bus → Double
    unfolding get_axes
    get_z_accel b = (get_axes false b).z

    -- `getTotalVector`: each of the three calls reads the sensor, which goes on measuring.
    unfoldable pub get_total_vector : Bus → Bus → Bus → Double
    unfolding get_x_accel get_y_accel get_z_accel
    get_total_vector bx by bz =
        sqrt (add (add (pow (get_x_accel bx) 2) (pow (get_y_accel by) 2)) (pow (get_z_accel bz) 2))
