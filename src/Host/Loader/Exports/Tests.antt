-- ===== src/Host/Loader/Exports/Tests.antt =====
-- An export directory as src/uwin/ldr.cpp reads it.
use uwin_old.Common.{ℕ, zero, suc, ◌+◌, ◌-◌, ◌*◌, ◌<◌}
use uwin_old.Common.{◌≡◌, refl, arith}
use uwin_old.Common.{Bool, false, List, [], ◌∷◌, ◌++◌}
use uwin_old.Common.{◌==◌}
use uwin_old.Common.{get_or, replicate}
use uwin_old.Common.{done, u32}
use uwin_old.Common.Bytes.{Memory, load}
use uwin_old.Host.Loader.Exports.{Module, find_function_by_ordinal, find_function_by_name}
use uwin_old.Host.Loader.Exports.Names.{
  find_function_by_name-first, find_function_by_ordinal-forwarder,
}

-- At 0x10000: two names for the ordinals 1 and 0 of two functions; the second function is a forwarder.
abbrev directory : List ℕ
directory =
    replicate 16 0
    ++ (5 ∷ 0 ∷ 0 ∷ 0 ∷ replicate 4 0)
    ++ (2 ∷ 0 ∷ 0 ∷ 0 ∷ [])
    ++ (0x2c ∷ 0 ∷ 0 ∷ 0 ∷ 0x34 ∷ 0 ∷ 0 ∷ 0 ∷ 0x3c ∷ 0 ∷ 0 ∷ 0 ∷ 0 ∷ 0 ∷ 0 ∷ 0 ∷ [])
    ++ (0x80 ∷ 0 ∷ 0 ∷ 0 ∷ 0x40 ∷ 0 ∷ 0 ∷ 0 ∷ [])
    ++ (0x41 ∷ 0 ∷ 0 ∷ 0 ∷ 0x43 ∷ 0 ∷ 0 ∷ 0 ∷ [])
    ++ (1 ∷ 0 ∷ 0 ∷ 0 ∷ [])

abbrev exporter : Module
exporter = record {
  name = [];
  image_base = 0x10000;
  entry_point = 0;
  export_directory = 0x10000;
  export_directory_size = 0x60;
  stack_size = 0;
  code_base = 0;
}

abbrev image : Memory
image a = get_or directory (a - 0x10000) 0

abbrev second_name : ℕ → Bool
second_name a = a == 0x10043

before_second :
    (j : ℕ) → j < 1 → second_name (u32 (0x10000 + load 4 (0x10034 + 4 * j) image)) ≡ false
unfolding load
before_second zero lt = refl
before_second (suc j) lt = absurd (omega arith)

find_function_by_name-first_example :
    find_function_by_name second_name exporter image ≡ done 0x10080
unfolding load
find_function_by_name-first_example =
    find_function_by_name-first second_name exporter image 1 (omega arith) refl refl (omega arith)
      refl before_second refl

find_function_by_ordinal-forwarder_example :
    find_function_by_ordinal exporter 6 image ≡ done 0x10040
unfolding load
find_function_by_ordinal-forwarder_example =
    find_function_by_ordinal-forwarder exporter image 6 refl (omega arith, omega arith)
      (omega arith) (omega arith)
