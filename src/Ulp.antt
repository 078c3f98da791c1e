-- ===== src/Ulp.antt =====
-- firmware/src/ulp/mod.rs, with `ulp_mem` of abi/src/lib.rs: what the ULP core leaves in RTC Slow Memory
-- for the main cores. The memory is a function from an offset to the u32 there.
use sand_os.Base.{ℕ, Bool, not, ◌==◌}

abbrev pub temp_over_threshold : ℕ
temp_over_threshold = 0x00

abbrev pub last_temp : ℕ
last_temp = 0x04

abbrev pub low_voltage_flag : ℕ
low_voltage_flag = 0x08

unfoldable pub is_temp_critical : (ℕ → ℕ) → Bool
is_temp_critical rtc = not (rtc temp_over_threshold == 0)

unfoldable pub last_temp_tenths : (ℕ → ℕ) → ℕ
last_temp_tenths rtc = rtc last_temp

unfoldable pub is_voltage_critical : (ℕ → ℕ) → Bool
is_voltage_critical rtc = not (rtc low_voltage_flag == 0)
