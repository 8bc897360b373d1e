-- ===== src/Kernel32/Search.antt =====
-- The search for files by a mask: `FindFirstFileA` and `FindNextFileA` of
-- src/uwin/target_dlls/KERNEL32/kernel32.c. The names of a directory and what is known of a file come
-- from the kernel.
pub mod Masks
pub mod Listing
pub mod Split
mod Tests
use uwin_old.Common.{ℕ, zero, suc, ◌+◌, ◌-◌, ◌*◌, ◌/◌, ◌%◌, ◌^◌, ◌≤◌, ◌<◌, bit_and, bit_or}
use uwin_old.Common.{◌≡◌, refl, sym, ap, ap₂, ◌∙◌, fun_ext, ◌≢◌, ◌↔◌, ◌⊎◌, inl, inr, arith}
use uwin_old.Common.{
  Bool, true, false, not, ◌&&◌, ◌||◌, Option, none, some, List, [], ◌∷◌, ◌++◌, map,
}
use uwin_old.Common.{
  ltb, leb, ◌==◌, if◌then◌else◌, Bool-cases, Option-cases, length, get_elem?, set,
}
use uwin_old.Common.{
  get_or, take, drop, replicate, length-append, length-set, get_elem?-set_self, get_elem?-set_ne,
}
use uwin_old.Common.{
  Outcome, done, panic, ◌>>=◌, ◌>>◌, require, u8, u16, u32, u64, sub32, sub64, signed32,
}
use uwin_old.Common.Int.{ℤ, pos, negsuc, pos_part, neg_part, sub_ℕ, ◌+ℤ◌, ◌-ℤ◌, ◌*ℤ◌, ◌≤ℤ◌, ltb_ℤ}
use uwin_old.Ksvc.Text.{Text, deref, next, tolower, strlen, strcmp, strrchr}
use uwin_old.Common.{last_index}
use uwin_old.Kernel32.Calendar.{FileTime, unix_time_to_filetime}

pub is_mask : Text → Bool
is_mask [] = false
is_mask (c ∷ s) = c == b'*' || c == b'?' || is_mask s

-- `!strcmp(s, t)`
abbrev pub is_zero : ℤ → Bool
is_zero (pos zero) = true
is_zero (pos (suc n)) = false
is_zero (negsuc n) = false

abbrev pub at_end : Text → Bool
at_end [] = true
at_end (c ∷ s) = false

-- `win32_nostar_mask_test`; the code never calls it with an empty mask.
pub nostar_mask_test : Text → Text → Bool
nostar_mask_test [] haystack = false
nostar_mask_test (c ∷ p1) haystack =
    let rest = nostar_mask_test p1 (next haystack) in
    if tolower c == tolower (deref haystack) || c == b'?'
    then if at_end p1 || at_end (next haystack) then at_end p1 && at_end (next haystack) else rest
    else false

-- `win32_mask_test`
pub mask_test : Text → Text → Outcome Bool
mask_test mask haystack =
    let right_length = strlen mask - 1 in
    if strlen mask == 0
    then done false
    else if is_zero (strcmp mask (b'*' ∷ [])) || is_zero (strcmp mask (b'*' ∷ b'.' ∷ b'*' ∷ []))
    then done true
    else if deref mask == b'*'
    then elim (strrchr (next mask) b'*') [
      | none ↦ done (
          leb right_length (strlen haystack)
          && nostar_mask_test (next mask) (drop (strlen haystack - right_length) haystack))
      | some star ↦ panic
    ]
    else panic

-- kfile_stat_t
pub record Stat : Type 0 where
  pub is_file : Bool
  pub atime : ℕ
  pub mtime : ℕ
  pub ctime : ℕ
  pub size : ℕ

-- WIN32_FIND_DATAA
pub record FindData : Type 0 where
  pub file_attributes : ℕ
  pub last_access_time : FileTime
  pub last_write_time : FileTime
  pub creation_time : FileTime
  pub file_size_low : ℕ
  pub file_size_high : ℕ
  pub file_name : Text

-- win32_search_t, with the names that the directory has still to give.
pub record Search : Type 0 where
  pub filename_mask : Text
  pub path : Text
  pub names : List Text

-- What is written about a file; `snprintf` cuts the path to 4095 bytes and the name to 259.
pub find_data : (Text → Stat) → Text → Text → FindData
find_data stat path name =
    let s = stat (take 4095 (path ++ (b'/' ∷ name))) in
    record {
      file_attributes = if s.is_file then 0x80 else 0x10;
      last_access_time = unix_time_to_filetime s.atime;
      last_write_time = unix_time_to_filetime s.mtime;
      creation_time = unix_time_to_filetime s.ctime;
      file_size_low = u32 s.size;
      file_size_high = u32 (s.size / 2 ^ 32);
      file_name = take 259 name;
    }

-- The loop of `win32_readdir`: the answer, and the names that are left.
pub read_dir : (Text → Stat) → Text → Text → List Text → Outcome (Option FindData × List Text)
read_dir stat mask path [] = done (none, [])
read_dir stat mask path (name ∷ names) =
    let rest = read_dir stat mask path names in
    mask_test mask name >>= λ hit.
    if hit then done (some (find_data stat path name), names) else rest

-- `FindNextFileA`
pub find_next_file : (Text → Stat) → Search → Outcome (Option FindData × Search)
find_next_file stat s = read_dir stat s.filename_mask s.path s.names >>= λ found.
    done (found.0, record s { names = found.1 })

abbrev pub is_separator : ℕ → Bool
is_separator c = c == b'/' || c == b'\\'

-- The loop that looks for the last separator; position 0 is not looked at.
pub last_separator : ℕ → Text → ℕ
last_separator l name = last_index (λ i. is_separator (get_or name i 0)) l

-- The path and the mask of a name, whose last separator is at a position; 0 stands for none.
abbrev pub parts_at : ℕ → Text → Text × Text
parts_at l name =
    if l == 0
    then (b'.' ∷ [], if is_separator (deref name) then next name else name)
    else (take l name, drop (l + 1) name)

pub split_name : Text → Text × Text
split_name name = parts_at (last_separator (strlen name) name) name

-- `FindFirstFileA`: `opendir` gives the names of a directory.
pub find_first_file : (Text → List Text) → (Text → Stat) → Text → Outcome (Option FindData × Search)
find_first_file opendir stat name = do
  require (not (strlen name == 0))
  let (path, mask) = split_name name
  require (not (is_mask path) && is_mask mask)
  find_next_file stat (record { filename_mask = mask; path = path; names = opendir path })
