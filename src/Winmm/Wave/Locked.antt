-- ===== src/Winmm/Wave/Locked.antt =====
-- The calls behind the lock of src/uwin/target_dlls/WINMM/winmm.c.
use uwin_old.Common.{ℕ}
use uwin_old.Common.{◌≡◌, refl, arith}
use uwin_old.Common.{panic}
use uwin_old.Kernel32.Waits.{wait_for_single_object}
use uwin_old.Winmm.Wave.{Device, wave_out_write, on_done, on_enqueued, on_reset}

-- With the lock that USE_MUTEX selects, `waveOutWrite` and the answers to KWAVE_DONE, KWAVE_ENQUEUED
-- and KWAVE_RESET stop the process, whatever the device and the buffer.
wave_calls_stop :
    (d : Device) (p size fuel : ℕ)
    → (wave_out_write d p size ≡ panic)
      × (on_done d ≡ panic)
      × (on_enqueued fuel d ≡ panic)
      × (on_reset fuel d ≡ panic)
unfolding wave_out_write on_done on_enqueued on_reset wait_for_single_object
wave_calls_stop d p size fuel = (ground arith, refl, refl, refl)
