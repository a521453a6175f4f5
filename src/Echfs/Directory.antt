-- ===== src/Echfs/Directory.antt =====
-- src/fs/filesystems/echfs.c: the main directory, the search for a path in it, and reading and
-- writing a file whose entry has been found. The directory is a function from the number of an
-- entry to the entry. A text that a search would read past the end of its memory gives `none`.
pub mod Search
pub mod Names
pub mod Entries
use drip_os.Prelude.{
  ℕ, zero, suc, ◌+◌, ◌-◌, ◌*◌, ◌/◌, ◌^◌, Bool, true, false, ◌&&◌, ◌||◌, not, Option, none, some,
  List, [], ◌∷◌, ◌++◌, if◌then◌else◌, ◌==◌, ltb, add64, sub64, ◌>>=◌, get_elem?, ◌%◌,
}
use drip_os.Text.{Buffer, strcmp}
use drip_os.Echfs.{
  Geometry, Store, read_for_range, allocate_blocks_for_file, write_blocks_for_range,
}

pub record DirEntry : Type 0 where
  pub parent_id : ℕ
  pub entry_type : ℕ
  pub name : Buffer
  pub unix_access_time : ℕ
  pub unix_modify_time : ℕ
  pub permissions : ℕ
  pub owner_id : ℕ
  pub group_id : ℕ
  pub unix_create_time : ℕ
  pub starting_block : ℕ
  pub file_size_bytes : ℕ
  pub entry_number : ℕ

abbrev pub Directory : Type 0
Directory = ℕ → DirEntry

abbrev pub search_fail : ℕ
search_fail = 0xFFFFFFFFFFFFFFFF

abbrev pub root_dir_id : ℕ
root_dir_id = 0xFFFFFFFFFFFFFFFF

abbrev pub deleted_entry : ℕ
deleted_entry = 0xFFFFFFFFFFFFFFFE

abbrev pub type_dir : ℕ
type_dir = 1

-- `entry->parent_id == parent_id && strcmp(name, entry->name) == 0`
unfoldable pub name_matches : DirEntry → Buffer → ℕ → Option Bool
name_matches entry name parent_id =
    let compared : Option Bool = (do c ← strcmp name entry.name; some (c == 0)) in
    if entry.parent_id == parent_id then compared else some false

-- The loop of `echfs_find_entry_name_parent` from entry `entry_n` on.
pub find_entry_from : Directory → ℕ → Buffer → ℕ → ℕ → Option ℕ
find_entry_from dir zero name parent_id entry_n = none
find_entry_from dir (suc fuel) name parent_id entry_n =
    let rest = find_entry_from dir fuel name parent_id (entry_n + 1) in
    do
      found ← name_matches (dir entry_n) name parent_id
      if found
          then some entry_n
          else if (dir entry_n).parent_id == 0
          then some search_fail
          else rest

pub find_entry_name_parent : Directory → ℕ → Buffer → ℕ → Option ℕ
find_entry_name_parent dir fuel name parent_id = find_entry_from dir fuel name parent_id 0

-- The loop of `get_free_directory_entry` with `n` rounds left.
pub free_entry_from : Directory → ℕ → ℕ → ℕ
free_entry_from dir zero i = 0
free_entry_from dir (suc n) i =
    let rest = free_entry_from dir n (i + 1) in
    if ((dir i).parent_id == 0) || ((dir i).parent_id == deleted_entry) then i else rest

-- `sizeof(echfs_dir_entry_t) - 8`
abbrev pub entry_size : ℕ
entry_size = 256

pub get_free_directory_entry : Geometry → Directory → ℕ
get_free_directory_entry g dir =
    free_entry_from dir (g.main_dir_blocks * g.block_size % 2 ^ 64 / entry_size) 0

-- A path's next element, whether it is the last, and the path behind it.
pub data Element : Type 0 where
  too_long : Element
  element : List ℕ → Bool → Buffer → Element

pub with_char : ℕ → Element → Element
with_char c too_long = too_long
with_char c (element name is_last filename) = element (c ∷ name) is_last filename

-- The inner loop of `echfs_path_resolve`, with `i` characters stored so far.
pub next_element : ℕ → Buffer → Option Element
next_element i [] = none
next_element i (c ∷ filename) =
    let rest = next_element (i + 1) filename in
    let longer : Option Element = (do e ← rest; some (with_char c e)) in
    let checked : Option Element = (do
      next ← get_elem? filename 0
      if not (next == 0) then some too_long else longer) in
    if c == b'/'
    then some (element [] false filename)
    else if c == 0
    then some (element [] true filename)
    else if i + 1 == 201
    then checked
    else longer

-- What the search gives: an entry, or the error code.
pub data Resolved : Type 0 where
  resolved : DirEntry → Resolved
  failed : ℕ → Resolved

-- What follows once the number of an element's entry is known.
pub go_on : Directory → ℕ → Bool → Option Resolved → Option Resolved
go_on dir found_elem_index is_last deeper =
    if found_elem_index == search_fail
    then some (failed 4)
    else if is_last
    then some (resolved (record (dir found_elem_index) { entry_number = found_elem_index }))
    else if (dir found_elem_index).entry_type == type_dir
    then deeper
    else some (failed 4)

-- From `next_elem` on. `fuel` bounds the elements of the path, `entries` the search for each.
pub resolve_from : Directory → ℕ → ℕ → Buffer → ℕ → Option Resolved
resolve_from dir entries zero filename current_parent = none
resolve_from dir entries (suc fuel) filename current_parent = do
  e ← next_element 0 filename
  elim e [
    | too_long ↦ some (failed 2)
    | element current_name is_last filename' ↦ do
      i ← find_entry_name_parent dir entries (current_name ++ 0 ∷ []) current_parent
      go_on dir i is_last (resolve_from dir entries fuel filename' (dir i).starting_block)
  ]

abbrev pub skip_slash : Buffer → Buffer
skip_slash [] = []
skip_slash (c ∷ filename) = if c == b'/' then filename else c ∷ filename

-- `echfs_path_resolve` for `unid` 0, which does not look into the cache of entries.
pub path_resolve : Directory → ℕ → ℕ → Buffer → Option Resolved
path_resolve dir entries fuel filename = do
  root ← strcmp (skip_slash filename) (b'/' ∷ 0 ∷ [])
  if root == 0
      then some (failed 1)
      else resolve_from dir entries fuel (skip_slash filename) root_dir_id

-- A transfer's result: the number of bytes, or an error.
pub data Transfer : Type 0 where
  done : ℕ → Transfer
  einval : Transfer
  eio : Transfer

-- `echfs_read` once the entry is found: the result, the bytes copied to `buf`, and the new seek.
pub read_entry : Geometry → DirEntry → ℕ → ℕ → Store → (Transfer × Option (ℕ → ℕ) × ℕ) × Store
read_entry g entry seek count s =
    let (local_buf, s') = read_for_range g entry.starting_block seek count s in
    if count == 0
    then ((done 0, none, seek), s)
    else if ltb entry.file_size_bytes (add64 count seek)
    then ((einval, none, seek), s)
    else elim local_buf [
      | none ↦ ((eio, none, seek), s')
      | some bytes ↦ ((done count, some bytes, add64 seek count), s')
    ]

-- `echfs_write` once the entry is found, at the time `now`: the result, and the entry written
-- back to the main directory.
pub write_entry :
    Geometry
    → ℕ
    → ℕ
    → DirEntry
    → ℕ
    → ℕ
    → (ℕ → ℕ)
    → Store
    → Option (Transfer × Option DirEntry × Store)
write_entry g fuel now entry seek count buf s =
    let needed = add64 count seek in
    let blocks_needed = sub64 (add64 needed g.block_size) 1 / g.block_size in
    if count == 0 then some (done 0, none, s) else do
      s' ← allocate_blocks_for_file g fuel entry.starting_block blocks_needed s
      let (err, s'') = write_blocks_for_range g entry.starting_block seek count buf s' in
          if err == 0
          then some (
            done count,
            some (record entry { file_size_bytes = needed; unix_modify_time = now }),
            s'',
          )
          else some (eio, none, s'')
