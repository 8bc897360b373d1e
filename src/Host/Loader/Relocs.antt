-- ===== src/Host/Loader/Relocs.antt =====
-- The base relocations of an image, `process_reloc` and the loop of `load_pe` over the relocation table in
-- src/uwin/ldr.cpp. Memory is addressed as the guest does; the host has it at a page's boundary, which keeps
-- the alignment of words.
use uwin_old.Common.{ℕ, zero, suc, ◌+◌, ◌*◌, ◌/◌, ◌%◌, ◌^◌}
use uwin_old.Common.{ltb, ◌==◌, if◌then◌else◌}
use uwin_old.Common.{Outcome, done, panic, u32, sub32}
pub mod Words
pub mod Places
pub mod Table
pub mod Image
mod Tests
use uwin_old.Host.Loader.Runs.{Run, ended, aborted, unfinished}
use uwin_old.Common.Bytes.{Memory, load, store_word}

-- `ptr[0] | (ptr[1] << 8) | (ptr[2] << 16) | (ptr[3] << 24)`, whose bits are apart
abbrev pub four_bytes : ℕ → Memory → ℕ
four_bytes a m =
    m a % 256 + (m (a + 1) % 256 * 2 ^ 8 + (m (a + 2) % 256 * 2 ^ 16 + m (a + 3) % 256 * 2 ^ 24))

-- `*ptr = byte;`
abbrev pub set_byte : ℕ → ℕ → Memory → Memory
set_byte a v m = λ b. if b == a then v % 256 else m b

-- `ptr[0] = value & 0xff; …; ptr[3] = (value >> 24) & 0xff;`
abbrev pub set_four_bytes : ℕ → ℕ → Memory → Memory
set_four_bytes a v m =
    set_byte (a + 3) (v / 2 ^ 24)
      (set_byte (a + 2) (v / 2 ^ 16) (set_byte (a + 1) (v / 2 ^ 8) (set_byte a v m)))

-- The address that an entry of the table names.
abbrev pub target : ℕ → ℕ → ℕ → ℕ
target image_base page_rva relocation = u32 (relocation % 2 ^ 12 + page_rva + image_base)

-- `process_reloc`, with the difference as a 32-bit word.
pub process_reloc : ℕ → ℕ → ℕ → ℕ → Memory → Outcome Memory
process_reloc image_base page_rva relocation difference m =
    let address = target image_base page_rva relocation in
    let type = relocation / 2 ^ 12 in
    if type == 0
    then done m
    else if type == 3
    then done (
        if address % 4 == 0
        then store_word 4 address (u32 (load 4 address m + difference)) m
        else set_four_bytes address (u32 (four_bytes address m + difference)) m)
    else panic

-- The body of `while (reloc_table < reloc_table_end)`: the entries of the block at `table` from number `i`
-- on. The block's fields are read from memory in every round.
pub relocate_block : ℕ → ℕ → ℕ → ℕ → ℕ → Memory → Run Memory
relocate_block zero image_base difference table i m = unfinished
relocate_block (suc fuel) image_base difference table i m =
    if ltb i (sub32 (load 4 (table + 4) m) 8 / 2)
    then elim (process_reloc image_base (load 4 table m) (load 2 (table + 8 + 2 * i) m) difference
        m) [
          | done m' ↦ relocate_block fuel image_base difference table (i + 1) m'
          | panic ↦ aborted
        ]
    else ended m

-- `while (reloc_table < reloc_table_end)`
pub relocate_table : ℕ → ℕ → ℕ → ℕ → ℕ → Memory → Run Memory
relocate_table zero image_base difference table table_end m = unfinished
relocate_table (suc fuel) image_base difference table table_end m =
    if ltb table table_end
    then elim (relocate_block fuel image_base difference table 0 m) [
      | ended m' ↦
          relocate_table fuel image_base difference (table + load 4 (table + 4) m') table_end m'
      | aborted ↦ aborted
      | unfinished ↦ unfinished
    ]
    else ended m
