-- ===== src/Kernel32/Handles/Tests.antt =====
-- A thread with one handle, which is duplicated.
use uwin_old.Common.{ℕ}
use uwin_old.Common.{◌≡◌, refl, arith}
use uwin_old.Common.{none, some, [], ◌∷◌}
use uwin_old.Host.Handles.{returns, Table, find}
use uwin_old.Kernel32.Handles.{duplicate_handle, close_handle}
use uwin_old.Kernel32.Handles.Duplicates.{duplicate-close}
use uwin_old.Host.Handles.Tests.{no_kobjs, with_thread, thread-Reach, thread_found, thread_once}

duplicate-close_example :
    (n : ℕ) × (t₁ : Table) × (t₂ : Table) × (t₃ : Table) × (duplicate_handle 7 with_thread 7
        0x80000000 7 2
      ≡ returns (n, t₁))
    × (close_handle t₁ 0x80000000 ≡ returns (none, t₂))
    × (find n t₂.entries ≡ some 0)
    × (t₂.destroyed ≡ [])
    × (close_handle t₂ n ≡ returns (none, t₃))
    × (t₃.destroyed ≡ 0 ∷ [])
duplicate-close_example =
    duplicate-close no_kobjs with_thread 7 2 0x80000000 0 5 thread-Reach thread_found thread_once
      refl (omega arith) refl
