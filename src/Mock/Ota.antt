-- ===== src/Mock/Ota.antt =====
-- host-tests/src/mock_host.rs, the OTA calls: a session, its end, and the swap of the binary.
use sand_os.Base.{
  ℕ, ◌+◌, ◌-◌, min, ◌%◌, ◌^◌, List, [], true, false, not, ◌||◌, ltb, ◌==◌, if◌then◌else◌, length,
  replicate, splice,
}
use sand_os.Base.Int.{ℤ}
use sand_os.Abi.Status.{ok, err_invalid_arg, err_busy, err_bounds}
use sand_os.Abi.OtaStatus.{
  idle, receiving, ready, swapping, failed, is_receiving, is_ready, is_swapping,
  ota_max_binary_size,
}
use sand_os.Abi.Crc.{crc32}
use sand_os.Mock.{MockHost}

unfoldable pub ota_begin : ℕ → MockHost → ℤ × MockHost
ota_begin total_size h =
    if total_size == 0 || ltb ota_max_binary_size total_size
    then (err_invalid_arg, h)
    else if is_swapping h.ota_state
    then (err_busy, h)
    else (
      ok,
      record h {
        ota_state = receiving;
        ota_expected_size = total_size;
        ota_bytes_received = 0;
        ota_buffer = replicate total_size 0;
      },
    )

-- `usize::saturating_add`, on the 64-bit machine that runs the tests.
abbrev pub saturating_add_64 : ℕ → ℕ → ℕ
saturating_add_64 a b = min (a + b) (2 ^ 64 - 1)

-- The counter wraps, as in the release profile.
unfoldable pub ota_receive_chunk : ℕ → List ℕ → MockHost → ℤ × MockHost
ota_receive_chunk offset bytes h =
    let end = saturating_add_64 offset (length bytes) in
    if not (is_receiving h.ota_state)
    then (err_busy, h)
    else if length bytes == 0
    then (err_invalid_arg, h)
    else if ltb h.ota_expected_size end
    then (err_bounds, h)
    else (
      ok,
      record h {
        ota_buffer = splice h.ota_buffer offset bytes;
        ota_bytes_received = (h.ota_bytes_received + length bytes) % 2 ^ 32;
      },
    )

unfoldable pub ota_finalize : ℕ → MockHost → ℤ × MockHost
ota_finalize expected_crc32 h =
    let actual = crc32 h.ota_buffer in
    if not (is_receiving h.ota_state)
    then (err_busy, h)
    else if not (actual == expected_crc32)
    then (err_invalid_arg, record h { ota_state = failed })
    else (ok, record h { ota_state = ready })

-- The steps of the swap, one after the other.
unfoldable pub hot_swap_wasm : MockHost → ℤ × MockHost
hot_swap_wasm h =
    let paused : MockHost = record h { vm_paused = true; ota_state = swapping } in
    let flushed : MockHost = record paused { active_wasm_binary = [] } in
    let loaded : MockHost = record flushed {
      active_wasm_binary = flushed.ota_buffer;
      ota_buffer = [];
    } in
    if not (is_ready h.ota_state) then (err_busy, h) else (
      ok,
      record loaded {
        vm_paused = false;
        hot_swap_count = (loaded.hot_swap_count + 1) % 2 ^ 32;
        ota_state = idle;
        ota_expected_size = 0;
        ota_bytes_received = 0;
      },
    )
