-- ===== src/Host/MemoryMap/Tests.antt =====
-- An image at a fixed address, and a stack.
use uwin_old.Common.{ℕ, ◌+◌, ◌≤◌, ◌<◌}
use uwin_old.Common.{◌≡◌, refl, arith}
use uwin_old.Common.{[], ◌∷◌}
use uwin_old.Common.{done}
use uwin_old.Host.MemoryMap.{
  address_space, prot_r, prot_rw, prot_n, Space, initial, protect, map_fixed, map_dynamic,
  set_memprotect,
}
use uwin_old.Host.MemoryMap.Regions.{Reach, start, fixed, Below, map_dynamic_fresh}

abbrev with_image : Space
with_image = record {
  map_base = 0x2000000;
  prot = protect (λ a. prot_n) 0x1f00000 0x100000 prot_rw;
}

abbrev with_stack : Space
with_stack = record {
  map_base = 0x2100000;
  prot = protect with_image.prot 0x2000000 0x100000 prot_rw;
}

image_mapped : map_fixed 4096 initial 0x1f00000 0x100000 prot_rw ≡ done with_image
unfolding map_fixed initial
image_mapped = refl

stack_mapped : map_dynamic 4096 with_image 0x100000 prot_rw ≡ done (0x2000000, with_stack)
unfolding map_dynamic
stack_mapped = refl

image-Reach : Reach 4096 with_image ((0x1f00000, 0x100000) ∷ [])
image-Reach = fixed 0x1f00000 0x100000 prot_rw start (omega arith) image_mapped

map_dynamic_fresh_example :
    Below 0x2000000 ((0x1f00000, 0x100000) ∷ [])
    × (0x2000000 + 0x100000 ≤ address_space)
    × ((x : ℕ) → x < 0x100000 → with_stack.prot (0x2000000 + x) ≡ prot_rw)
    × ((x : ℕ) → x < 0x2000000 → with_stack.prot x ≡ with_image.prot x)
map_dynamic_fresh_example =
    map_dynamic_fresh 0x100000 prot_rw 0x2000000 with_stack image-Reach (omega arith) stack_mapped

abbrev protected_image : Space
protected_image = record with_image { prot = protect with_image.prot 0x2000000 0x100000 prot_r }

image_protected : set_memprotect 4096 with_image 0x1f00000 0x100000 prot_r ≡ done protected_image
unfolding set_memprotect
image_protected = refl
