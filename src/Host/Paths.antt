-- ===== src/Host/Paths.antt =====
-- The paths of src/uwin/file.cpp: names of the emulated program are made absolute, cleared of `.` and
-- `..`, and mapped below the directory of the program on the host.
pub mod Directories
pub mod Buffer
pub mod Resolve
pub mod Confine
mod Tests
use uwin_old.Common.{ℕ, zero, suc, ◌+◌, ◌-◌, ◌*◌, ◌/◌, ◌%◌, ◌^◌, ◌≤◌, ◌<◌, bit_and, bit_or}
use uwin_old.Common.{◌≡◌, refl, sym, ap, ap₂, ◌∙◌, fun_ext, ◌≢◌, ◌↔◌, ◌⊎◌, inl, inr, arith}
use uwin_old.Common.{
  Bool, true, false, not, ◌&&◌, ◌||◌, Option, none, some, List, [], ◌∷◌, ◌++◌, map,
}
use uwin_old.Common.{
  ltb, leb, ◌==◌, if◌then◌else◌, Bool-cases, Option-cases, length, get_elem?, set,
}
use uwin_old.Common.{
  get_or, take, drop, replicate, length-append, length-set, get_elem?-set_self, get_elem?-set_ne,
}
use uwin_old.Common.{
  Outcome, done, panic, ◌>>=◌, ◌>>◌, require, u8, u16, u32, u64, sub32, sub64, signed32,
}
use uwin_old.Common.Int.{ℤ, pos, negsuc, pos_part, neg_part, sub_ℕ, ◌+ℤ◌, ◌-ℤ◌, ◌*ℤ◌, ◌≤ℤ◌, ltb_ℤ}
use uwin_old.Common.{last_index}
use uwin_old.Ksvc.Text.{Text}

-- "C:/"
abbrev pub root : Text
root = b'C' ∷ b':' ∷ b'/' ∷ []

-- UW_GUEST_PROG_PATH, "C:\\HOMM3"
abbrev pub guest_prog_path : Text
guest_prog_path = b'C' ∷ b':' ∷ b'\\' ∷ b'H' ∷ b'O' ∷ b'M' ∷ b'M' ∷ b'3' ∷ []

-- Forward slashes for backslashes.
abbrev pub forward : Text → Text
forward = map (λ c. if c == b'\\' then b'/' else c)

-- The name with the current directory before it, if it has no drive. A byte behind the end of the
-- text reads as 0.
pub absolute : Text → Text → Text
absolute current_directory file_name =
    let copy = forward file_name in
    if not (get_or copy 1 0 == b':') || not (get_or copy 2 0 == b'/')
    then if get_or copy 0 0 == b'/'
      then forward (current_directory ++ copy)
      else forward (current_directory ++ (b'/' ∷ copy))
    else copy

abbrev pub is_empty : Text → Bool
is_empty [] = true
is_empty (c ∷ s) = false

abbrev pub is_dot : Text → Bool
is_dot [] = false
is_dot (c ∷ s) = c == b'.' && is_empty s

abbrev pub is_dot_dot : Text → Bool
is_dot_dot [] = false
is_dot_dot (c ∷ s) = c == b'.' && is_dot s

-- `while (out_buffer[p] != '/') p--;`; the code never gets to position 0, which is a `C`.
pub slash_before : ℕ → Text → ℕ
slash_before p out = last_index (λ i. get_or out i 0 == b'/') p

-- What `..` does to the buffer.
pub parent : Text → Text
parent out = let p = length out - 2 in if p == 1 then out else take (slash_before p out + 1) out

-- What a component does to the buffer.
pub add_component : Text → Text → Text
add_component out component =
    if is_dot component || is_empty component
    then out
    else if is_dot_dot component
    then parent out
    else out ++ (component ++ (b'/' ∷ []))

-- The loop over the path; `component` is what has been read of the component.
pub normalize : Text → Text → Text → Text
normalize out component [] = add_component out component
normalize out component (c ∷ path) =
    let next_component = normalize (add_component out component) [] path in
    let same_component = normalize out (component ++ (c ∷ [])) path in
    if c == b'/' then next_component else same_component

-- `target_realpath`: the assertion on the drive stops the process.
pub target_realpath : Text → Text → Outcome Text
target_realpath current_directory file_name =
    let copy = absolute current_directory file_name in
    let drive = get_or copy 0 0 in
    require (drive == b'C' || drive == b'c')
    >> (let out = normalize root [] (drop 3 copy) in done (take (length out - 1) out))

-- The loop of `translate_path`: what is left of the program's directory, and of the path.
pub strip_prefix : Text → Text → Text × Text
strip_prefix [] path = ([], path)
strip_prefix (v ∷ vpath) [] = (v ∷ vpath, [])
strip_prefix (v ∷ vpath) (c ∷ path) =
    let rest = strip_prefix vpath path in
    if not (v == c) && (not (v == b'\\') || not (c == b'/')) then (v ∷ vpath, c ∷ path) else rest

-- `translate_path`; `none` is NULL.
pub translate_path : Text → Text → Text → Outcome (Option Text)
translate_path host_base_path current_directory file_name = do
  copy ← target_realpath current_directory file_name
  let left = strip_prefix guest_prog_path copy
  done (
      if not (get_or copy 0 0 == b'C') && not (get_or copy 0 0 == b'c')
      then none
      else if not (is_empty left.0)
      then none
      else some (host_base_path ++ left.1))

-- `uw_file_set_current_directory`: `opens` tells whether the host has a directory of that name. A
-- path that is not below the program's directory is NULL, and a directory that is not there stops
-- the process.
pub set_current_directory : (Text → Bool) → Text → Text → Text → Outcome Text
set_current_directory opens host_base_path current_directory name = do
  real_new ← target_realpath current_directory name
  host_path ← translate_path host_base_path current_directory real_new
  elim host_path [ none ↦ panic | some path ↦ require (opens path) >> done real_new ]

-- `uw_file_get_current_directory`: the bytes written to a buffer of at least one byte.
pub get_current_directory : Text → ℕ → List ℕ
get_current_directory current_directory size =
    let l = length current_directory + 1 in
    let l' = if ltb size l then size else l in take (l' - 1) current_directory ++ (0 ∷ [])

-- `uw_file_set_host_directory`, but for the directories that it makes: slashes at the end go.
pub trim_slashes : Text → Text
trim_slashes [] = []
trim_slashes (c ∷ s) =
    let rest = trim_slashes s in if c == b'/' && is_empty rest then [] else c ∷ rest
