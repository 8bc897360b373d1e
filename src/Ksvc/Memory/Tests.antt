-- ===== src/Ksvc/Memory/Tests.antt =====
-- Block operations at concrete addresses.
use uwin_old.Common.{◌≡◌, refl}
use uwin_old.Common.{u8}
use uwin_old.Ksvc.Memory.{Memory, memmove, copy_down}
use uwin_old.Ksvc.Memory.Laws.{IsCopied, memmove-IsCopied}

-- Address `p` holds `p` mod 256.
abbrev ramp : Memory
ramp p = u8 p

memmove-IsCopied_example : IsCopied 11 10 4 ramp (memmove 11 10 4 ramp)
memmove-IsCopied_example = memmove-IsCopied 11 10 4 ramp

overlap_kept : memmove 11 10 4 ramp 13 ≡ 12
unfolding memmove copy_down
overlap_kept = refl
