-- ===== src/Jit/Strings/Tests.antt =====
-- A memory that counts its addresses, and the string instructions on it.
use uwin_old.Common.{◌%◌}
use uwin_old.Common.{◌≡◌, refl, inl, arith}
use uwin_old.Common.{false}
use uwin_old.Common.Bytes.{Memory}
use uwin_old.Jit.Strings.{Cpu, BlockMove, rep_movs, rep_stos, scas, emit_cmps, cmpsd}
use uwin_old.Jit.Strings.Moves.{rep_movs_lem, rep_movs_differs, movs_ref}
use uwin_old.Jit.Strings.Stores.{rep_stos_lem, stos_ref, filled}
use uwin_old.Jit.Strings.Scans.{emit_cmps_lem, cmps_ref}
use uwin_old.Jit.Strings.{count_while}
use uwin_old.Common.Bytes.{load}
use uwin_old.Common.Bytes.{copied}

abbrev ramp : Memory
ramp a = a % 256

abbrev host_memmove : BlockMove
host_memmove d s n m a = copied d s n m a

abbrev host_memset : BlockMove
host_memset d v n m a = filled d n (v % 256) m a

abbrev cpu : Cpu
cpu = record { eax = 0x141; ecx = 5; esi = 0x100; edi = 0x101; memory = ramp }

rep_movs_lem_example :
    rep_movs host_memmove 2 (record cpu { edi = 0x80 }) ≡ movs_ref 2 (record cpu { edi = 0x80 })
rep_movs_lem_example =
    rep_movs_lem host_memmove 2 (record cpu { edi = 0x80 }) (λ d s n m a. refl) (omega arith)
      (omega arith) (inl (omega arith))

rep_movs_differs_example :
    ((rep_movs host_memmove 1 cpu).memory 0x104 ≡ 3) × ((movs_ref 1 cpu).memory 0x104 ≡ 0)
rep_movs_differs_example =
    rep_movs_differs host_memmove cpu 3 (λ d s n m a. refl) refl (omega arith) (omega arith)

rep_stos_lem_example : rep_stos host_memset 2 cpu ≡ stos_ref 2 cpu
rep_stos_lem_example = rep_stos_lem host_memset 2 cpu (λ d v n m a. refl) (omega arith)

found : (scas false 1 (record cpu { edi = 0x3e })).ecx ≡ 1
unfolding scas count_while load
found = refl

emit_cmps_lem_example : emit_cmps cmpsd cpu ≡ cmps_ref 1 cpu
emit_cmps_lem_example = emit_cmps_lem cmpsd cpu (omega arith) (omega arith)
