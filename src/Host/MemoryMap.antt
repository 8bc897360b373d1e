-- ===== src/Host/MemoryMap.antt =====
-- The guest's address space, src/uwin/host/posix/memory_map.cpp. `mmap` and `mprotect` of the host set
-- the protection of pages and succeed; addresses and sizes are 32-bit words.
pub mod Regions
mod Tests
use uwin_old.Common.{ℕ, zero, suc, ◌+◌, ◌-◌, ◌*◌, ◌/◌, ◌%◌, ◌^◌, ◌≤◌, ◌<◌, bit_and, bit_or}
use uwin_old.Common.{◌≡◌, refl, sym, ap, ap₂, ◌∙◌, fun_ext, ◌≢◌, ◌↔◌, ◌⊎◌, inl, inr, arith}
use uwin_old.Common.{
  Bool, true, false, not, ◌&&◌, ◌||◌, Option, none, some, List, [], ◌∷◌, ◌++◌, map,
}
use uwin_old.Common.{
  ltb, leb, ◌==◌, if◌then◌else◌, Bool-cases, Option-cases, length, get_elem?, set,
}
use uwin_old.Common.{
  get_or, take, drop, replicate, length-append, length-set, get_elem?-set_self, get_elem?-set_ne,
}
use uwin_old.Common.{
  Outcome, done, panic, ◌>>=◌, ◌>>◌, require, u8, u16, u32, u64, sub32, sub64, signed32,
}
use uwin_old.Common.Int.{ℤ, pos, negsuc, pos_part, neg_part, sub_ℕ, ◌+ℤ◌, ◌-ℤ◌, ◌*ℤ◌, ◌≤ℤ◌, ltb_ℤ}

-- TARGET_ADDRESS_SPACE_SIZE
abbrev pub address_space : ℕ
address_space = 0x80000000

pub data Prot : Type 0 where
  prot_r prot_rw prot_rx prot_n : Prot

-- `map_base`, and the protection of every byte, `none` where it is reserved only.
pub record Space : Type 0 where
  pub map_base : ℕ
  pub prot : ℕ → Prot

pub initial : Space
initial = record { map_base = 0x1000000; prot = λ a. prot_n }

-- `mmap` over a range, or `mprotect`.
abbrev pub protect : (ℕ → Prot) → ℕ → ℕ → Prot → ℕ → Prot
protect f address size p a = if leb address a && ltb a (address + size) then p else f a

abbrev pub is_aligned : ℕ → ℕ → Bool
is_aligned page v = v % page == 0

-- `check_memory_range`, whose assertions stop the process
abbrev pub check_range : ℕ → ℕ → ℕ → Outcome (Unit {0})
check_range page address size = require (
    is_aligned page address
    && is_aligned page size
    && ltb address address_space
    && ltb (u32 (address + size)) address_space)

-- `uw_target_map_memory_fixed`
unfoldable pub map_fixed : ℕ → Space → ℕ → ℕ → Prot → Outcome Space
map_fixed page s address size p =
    check_range page address size
    >> done (record {
      map_base = if ltb s.map_base (u32 (address + size)) then u32 (address + size) else s.map_base;
      prot = protect s.prot address size p;
    })

-- `uw_target_map_memory_dynamic`: the region's address.
unfoldable pub map_dynamic : ℕ → Space → ℕ → Prot → Outcome (ℕ × Space)
map_dynamic page s size p =
    require (is_aligned page size && leb (u32 (s.map_base + size)) address_space)
    >> done (
      s.map_base,
      record { map_base = u32 (s.map_base + size); prot = protect s.prot s.map_base size p },
    )

-- `uw_unmap_memory`
pub unmap : ℕ → Space → ℕ → ℕ → Outcome Space
unmap page s address size =
    check_range page address size >> done (record s { prot = protect s.prot address size prot_n })

-- `uw_set_memprotect` changes the pages from `map_base` on, whatever the address.
unfoldable pub set_memprotect : ℕ → Space → ℕ → ℕ → Prot → Outcome Space
set_memprotect page s address size p =
    check_range page address size >> done (record s { prot = protect s.prot s.map_base size p })
