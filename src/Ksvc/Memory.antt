-- ===== src/Ksvc/Memory.antt =====
-- The block operations of src/uwin/target_dlls/KSVC/libc.c: memmove, memcpy, memset.
-- Guest memory is a function from addresses to bytes; a pointer is an address. Pointers are
-- compared and stepped as numbers, so the blocks must not reach over the top of the address space.
pub mod Laws
mod Tests
use uwin_old.Common.{ℕ, zero, suc, ◌+◌, ◌-◌, ◌%◌, ◌^◌, ◌<◌, Bool, ltb, ◌==◌, ◌&&◌, not}
use uwin_old.Common.{if◌then◌else◌}

abbrev pub Memory : Type 0
Memory = ℕ → ℕ

-- `*p = v`
abbrev pub store : Memory → ℕ → ℕ → Memory
store m p v q = if p == q then v else m q

-- `while (len--) *d++ = *s++;`
pub copy_up : ℕ → ℕ → ℕ → Memory → Memory
copy_up zero d s m = m
copy_up (suc len) d s m = copy_up len (d + 1) (s + 1) (store m d (m s))

-- `while (len--) *lastd-- = *lasts--;`, entered with `lastd = d + (len - 1)`
pub copy_down : ℕ → ℕ → ℕ → Memory → Memory
copy_down zero d s m = m
copy_down (suc len) d s m = copy_down len d s (store m (d + len) (m (s + len)))

pub memmove : ℕ → ℕ → ℕ → Memory → Memory
memmove dest src len m = if ltb dest src then copy_up len dest src m else copy_down len dest src m

pub memcpy : ℕ → ℕ → ℕ → Memory → Memory
memcpy dest src cnt m = if not (dest == 0) && not (src == 0) then copy_up cnt dest src m else m

-- `int c` is cut to `unsigned char` by the assignment.
pub memset : ℕ → ℕ → ℕ → Memory → Memory
memset b c zero m = m
memset b c (suc len) m = memset (b + 1) c len (store m b (c % 2 ^ 8))
