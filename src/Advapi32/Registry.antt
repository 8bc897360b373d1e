-- ===== src/Advapi32/Registry.antt =====
-- The registry of src/uwin/target_dlls/ADVAPI32/advapi32.c: one key, whose values are texts with a tag
-- for their type, kept in the configuration of src/uwin/cfg.cpp.
pub mod RoundTrip
mod Tests
use uwin_old.Common.Texts.{same_text}
use uwin_old.Common.{ℕ, zero, suc, ◌+◌, ◌-◌, ◌*◌, ◌/◌, ◌%◌, ◌^◌, ◌≤◌, ◌<◌, bit_and, bit_or}
use uwin_old.Common.{◌≡◌, refl, sym, ap, ap₂, ◌∙◌, fun_ext, ◌≢◌, ◌↔◌, ◌⊎◌, inl, inr, arith}
use uwin_old.Common.{
  Bool, true, false, not, ◌&&◌, ◌||◌, Option, none, some, List, [], ◌∷◌, ◌++◌, map,
}
use uwin_old.Common.{
  ltb, leb, ◌==◌, if◌then◌else◌, Bool-cases, Option-cases, length, get_elem?, set,
}
use uwin_old.Common.{
  get_or, take, drop, replicate, length-append, length-set, get_elem?-set_self, get_elem?-set_ne,
}
use uwin_old.Common.{
  Outcome, done, panic, ◌>>=◌, ◌>>◌, require, u8, u16, u32, u64, sub32, sub64, signed32,
}
use uwin_old.Common.Int.{ℤ, pos, negsuc, pos_part, neg_part, sub_ℕ, ◌+ℤ◌, ◌-ℤ◌, ◌*ℤ◌, ◌≤ℤ◌, ltb_ℤ}
use uwin_old.Ksvc.Text.{Text, deref, next, strlen, strcmp}
use uwin_old.Ksvc.Strtol.{strtol}

-- The section of the configuration, from names to texts.
abbrev pub Config : Type 0
Config = Text → Option Text

-- `uw_cfg_write`
abbrev pub cfg_write : Config → Text → Text → Config
cfg_write c key value k = if same_text key k then some value else c k

-- What `lpData` points to, by `dwType`.
pub data Value : Type 0 where
  reg_dword : ℕ → Value
  reg_sz : Text → Value
  other_type : Value

-- `RegCreateKeyA` and `RegOpenKeyExA`: `here` is the path that the code knows; the new handle is a
-- dummy that holds 0.
pub reg_open_key : Text → Bool → Text → Outcome ℕ
reg_open_key here local_machine sub_key =
    require (local_machine && is_zero (strcmp sub_key here)) >> done 0
  where
    is_zero : ℤ → Bool
    is_zero (pos zero) = true
    is_zero (pos (suc n)) = false
    is_zero (negsuc n) = false

-- `RegSetValueExA`; `hex8` is what `asprintf` writes for `%08x`.
pub reg_set_value : (ℕ → Text) → ℕ → Config → Text → Value → Outcome Config
reg_set_value hex8 (suc raw_key) c name v = panic
reg_set_value hex8 zero c name (reg_dword d) = done (cfg_write c name (b'D' ∷ b'W' ∷ b':' ∷ hex8 d))
reg_set_value hex8 zero c name (reg_sz t) = done (cfg_write c name (b'S' ∷ b'Z' ∷ b':' ∷ t))
reg_set_value hex8 zero c name other_type = panic

-- The answer of `RegQueryValueExA`: its status, and what it wrote to `*lpType`, `*lpcbData` and
-- `lpData`, if it wrote there.
pub data Answer : Type 0 where
  file_not_found : Answer
  more_data : ℕ → Answer
  success : ℕ → List ℕ → Answer

-- The bytes of a DWORD, and the cast of a `long` to it.
abbrev pub dword_bytes : ℕ → List ℕ
dword_bytes w = u8 w ∷ u8 (w / 2 ^ 8) ∷ u8 (w / 2 ^ 16) ∷ u8 (w / 2 ^ 24) ∷ []

abbrev pub dword : ℤ → ℕ
dword (pos n) = u32 n
dword (negsuc n) = sub32 0 (n + 1)

-- The two branches on the tag, for the text behind it.
abbrev pub query_dword : ℕ → Text → Answer
query_dword size t =
    if ltb size 4
    then more_data 4
    else success 4 (dword_bytes (dword (strtol t false (pos 16)).value))

abbrev pub query_sz : ℕ → ℕ → Text → Answer
query_sz size len t =
    if ltb size (len - 3 + 1)
    then more_data (len - 3 + 1)
    else success 1 (take (len - 3 + 1) (t ++ (0 ∷ [])))

-- `RegQueryValueExA` on the text of the value, `kcfg_read_all`.
abbrev pub query_text : Option Text → ℕ → Outcome Answer
query_text none size = done file_not_found
query_text (some val) size =
    if leb 3 (strlen val)
    then if get_or val 0 0 == b'D' && get_or val 1 0 == b'W' && get_or val 2 0 == b':'
      then done (query_dword size (drop 3 val))
      else if get_or val 0 0 == b'S' && get_or val 1 0 == b'Z' && get_or val 2 0 == b':'
      then done (query_sz size (strlen val) (drop 3 val))
      else panic
    else panic

pub reg_query_value : ℕ → Config → Text → ℕ → Outcome Answer
reg_query_value (suc raw_key) c name size = panic
reg_query_value zero c name size = query_text (c name) size

-- `RegCloseKey`: what the file of the configuration holds afterwards.
pub reg_close_key : ℕ → Config → Outcome Config
reg_close_key zero c = done c
reg_close_key (suc raw_key) c = panic
