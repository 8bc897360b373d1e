-- ===== src/Host/Loader/Relocs/Tests.antt =====
-- Concrete runs of the relocation of src/uwin/ldr.cpp.
use uwin_old.Common.{ℕ, ◌-◌}
use uwin_old.Common.{◌≡◌, refl, inl, inr, arith}
use uwin_old.Common.{List, [], ◌∷◌}
use uwin_old.Common.{get_or}
use uwin_old.Common.Bytes.{Memory, load}
use uwin_old.Host.Loader.Runs.{ended}
use uwin_old.Host.Loader.Relocs.{relocate_table}
use uwin_old.Host.Loader.Relocs.Table.{Block, Encodes}
use uwin_old.Host.Loader.Relocs.Image.{IsRelocated, relocate_table_lem}

-- An image at 0x10000 with a page of code that has an aligned and an unaligned pointer, and an entry
-- that pads.
abbrev reloc_blocks : List Block
reloc_blocks = record { page = 0x1000; entries = 0x3004 ∷ 0x3009 ∷ 0 ∷ [] } ∷ []

abbrev table_bytes : List ℕ
table_bytes = 0 ∷ 0x10 ∷ 0 ∷ 0 ∷ 14 ∷ 0 ∷ 0 ∷ 0 ∷ 4 ∷ 0x30 ∷ 9 ∷ 0x30 ∷ 0 ∷ 0 ∷ []

abbrev image : Memory
image a = get_or table_bytes (a - 0x12000) 7

image-Encodes : Encodes image 0x12000 reloc_blocks
unfolding load
image-Encodes =
    ((refl, refl), (((inr refl, (inr refl, (inl refl, tt))), (refl, (refl, (refl, tt)))), tt))

relocate_table_lem_example :
    (m' : Memory) × ((relocate_table 20 0x10000 0x50000 0x12000 0x1200e image ≡ ended m')
      × IsRelocated 0x50000 (0x11004 ∷ 0x11009 ∷ []) image m')
relocate_table_lem_example =
    relocate_table_lem 20 0x10000 0x50000 0x12000 reloc_blocks image image-Encodes (omega arith)
      (inl (omega arith), (inl (omega arith), tt)) ((inr (omega arith), tt), (tt, tt)) (omega arith)
