-- ===== src/Vfs/Open.antt =====
-- src/fs/vfs/vfs.c: the nodes that a path lacks, mount points, and `vfs_open`.
pub mod Create
pub mod Elements
pub mod Loop
pub mod Mounts
pub mod Verdict
pub mod Branches
use drip_os.Prelude.{
  ℕ, zero, suc, ◌+◌, ◌%◌, ◌^◌, bit_and, Bool, true, false, ◌&&◌, ◌||◌, not, Option, none, some,
  List, [], ◌∷◌, ◌++◌, if◌then◌else◌, ◌==◌, ◌>>=◌, length, take, drop,
}
use drip_os.Vfs.{
  Text, Ops, Descriptor, Node, Vfs, skip_slash, search_node_name, split_path_elements,
  get_node_from_path, vfs_new_node, set_fs_root, vfs_add_child, get_full_path, join_split_path,
}

-- The last byte of a text.
unfoldable pub last_byte : Text → Option ℕ
last_byte [] = none
last_byte (c ∷ []) = some c
last_byte (c ∷ d ∷ text) = last_byte (d ∷ text)

unfoldable pub without_last : Text → Text
without_last [] = []
without_last (c ∷ []) = []
without_last (c ∷ d ∷ text) = c ∷ without_last (d ∷ text)

abbrev pub first_byte : Text → ℕ
first_byte [] = 0
first_byte (c ∷ text) = c

-- `path_join` on texts.
pub path_join : Text → Text → Option Text
path_join dst src = do
  last ← last_byte dst
  some
      (if not (last == b'/') && not (first_byte src == b'/') then dst ++ b'/' ∷ src else dst ++ src)

-- What `create_missing_nodes_from_path` leaves of the text it is handed: without a slash at the
-- end. The byte in front of an empty text is not there.
pub cut_path : Text → Option Text
cut_path path = do last ← last_byte path; some (if last == b'/' then without_last path else path)

-- The variables of `create_missing_nodes_from_path`, with `i` for `index`.
pub record Missing : Type 0 where
  pub index : ℕ
  pub temp_buffer : Text
  pub current_full_path : Text
  pub first_missing : Option ℕ
  pub vfs : Vfs

-- `if (!first_missing) first_missing = new_node;`
abbrev pub keep_first : Option ℕ → ℕ → Option ℕ
keep_first none new = some new
keep_first (some a) new = some a

-- A node for the name under `cur_node`, if it lacks one.
pub add_under : Ops → Option ℕ → ℕ → Missing → Option Missing
add_under ops root_node cur_node s = do
  found ← search_node_name s.vfs cur_node s.temp_buffer
  elim found [
    | some i ↦ some s
    | none ↦ do
      let (new_node, v) = vfs_new_node s.temp_buffer ops s.vfs
      v' ← set_fs_root new_node root_node v
      v'' ← vfs_add_child cur_node new_node v'
      some (record s { first_missing = keep_first s.first_missing new_node; vfs = v'' })
  ]

-- At the end of an element: whether to go on, and the state.
pub add_missing : Ops → Option ℕ → Missing → Option (Bool × Missing)
add_missing ops root_node s = do
  found ← get_node_from_path s.vfs s.current_full_path
  elim found [
    | none ↦ some (false, s)
    | some cur_node ↦ do s' ← add_under ops root_node cur_node s; some (true, s')
  ]

pub next_missing : Missing → Option (Bool × Missing)
next_missing s = do
  joined ← path_join s.current_full_path s.temp_buffer
  some (true, record s { index = 0; current_full_path = joined })

-- A slash ends an element, and the next one starts.
pub missing_slash : Ops → Option ℕ → Missing → Option (Bool × Missing)
missing_slash ops root_node s = do
  (going, s') ← add_missing ops root_node s
  let next = next_missing s'
  if going then next else some (false, s')

-- `temp_buffer[i++] = *path; temp_buffer[i] = '\0';`
pub missing_byte : ℕ → Missing → Missing
missing_byte c s = record s {
  index = s.index + 1;
  temp_buffer = take s.index s.temp_buffer ++ c ∷ [];
}

pub missing_from : Ops → Option ℕ → Text → Missing → Option Missing
missing_from ops root_node [] s = do (going, s') ← add_missing ops root_node s; some s'
missing_from ops root_node (c ∷ path) s = do
  (going, s') ← (if c == b'/' then missing_slash ops root_node s else some (true, missing_byte c s))
  let rest = missing_from ops root_node path s'
  if going then rest else some s'

-- The first node that was created, and the tree.
pub create_missing_nodes_from_path : Text → Ops → Option ℕ → Vfs → Option (Option ℕ × Vfs)
create_missing_nodes_from_path path ops root_node v = do
  cut ← cut_path path
  let start : Missing = record {
    index = 0;
    temp_buffer = [];
    current_full_path = b'/' ∷ [];
    first_missing = none;
    vfs = v;
  }
  s ← missing_from ops root_node (skip_slash cut) start
  some (s.first_missing, s.vfs)

-- The loop of `get_mountpoint_of_node`, with a round for every node on the way up.
pub get_mountpoint_of_node : ℕ → Vfs → ℕ → Option ℕ
get_mountpoint_of_node zero v cur = none
get_mountpoint_of_node (suc fuel) v cur =
    let above : Option ℕ = (do
      node ← v.nodes cur
      let further = (do parent ← node.parent; get_mountpoint_of_node fuel v parent)
      elim node.filesystem_descriptor [ none ↦ further | some _ ↦ some cur ]) in
    if cur == v.root_node then some cur else above

-- The loop of `get_mountpoint_of_path`, from the first `i` elements down. A node that is found is
-- as old as the newest at most.
pub mountpoint_from : Vfs → List Text → ℕ → Option ℕ
mountpoint_from v path_elements zero = some v.root_node
mountpoint_from v path_elements (suc i) = do
  found ← get_node_from_path v (join_split_path (take (suc i) path_elements))
  let shorter = mountpoint_from v path_elements i
  elim found [ none ↦ shorter | some node ↦ get_mountpoint_of_node v.next_node v node ]

pub get_mountpoint_of_path : Vfs → Text → Option ℕ
get_mountpoint_of_path v path = do
  path_elements ← split_path_elements path
  mountpoint_from v path_elements (length path_elements)

-- `normalize_path` on texts: with a slash at both ends.
pub normalize_path : Text → Text
normalize_path path =
    let normalized = (if first_byte path == b'/' then [] else b'/' ∷ []) ++ path in
    elim (last_byte normalized) [
      | none ↦ normalized
      | some c ↦ if c == b'/' then normalized else normalized ++ b'/' ∷ []
    ]

-- Behind a text of `normalize_path` its buffer is zeroed, so that nothing is left of a path
-- that is shorter than the mount point's.
pub get_mountpoint_relative_path : Vfs → ℕ → Text → Option Text
get_mountpoint_relative_path v mountpoint path = do
  mountpoint_path ← get_full_path v.next_node v mountpoint
  let mp_normalized = normalize_path mountpoint_path
  let path_normalized = normalize_path path
  some (normalize_path (drop (length mp_normalized) path_normalized))

-- The functions of file systems that `vfs_open` calls: by their address, on a node, a path, and the
-- mode; `create_handle` returns minus the error. `open` may change the nodes.
pub record Handlers : Type 0 where
  pub file_exists : ℕ → ℕ → Text → Bool
  pub create_handle : ℕ → ℕ → Text → ℕ → ℕ
  pub open_op : ℕ → Text → ℕ → Vfs → Option Vfs

-- What `vfs_open` returns, with the tree: the node, or the error in `*err`.
pub data Opened : Type 0 where
  opened : ℕ → Vfs → Opened
  refused : ℕ → Vfs → Opened

abbrev pub o_creat : ℕ
o_creat = 0x10

abbrev pub eperm : ℕ
eperm = 1

abbrev pub enoent : ℕ
enoent = 2

abbrev pub eexist : ℕ
eexist = 17

abbrev pub asks_create : ℕ → Bool
asks_create mode = not (bit_and mode o_creat == 0)

-- The calls of `file_exists` and `create_handle`: the error, 0 for none.
pub may_open : Handlers → Node → Descriptor → ℕ → Text → ℕ → ℕ
may_open h mountpoint_node descriptor mountpoint relative_path mode =
    if not (h.file_exists descriptor.file_exists mountpoint relative_path) && not (asks_create mode)
    then enoent
    else if asks_create mode
    then (elim mountpoint_node.create_handle [
      | none ↦ eperm
      | some create ↦ h.create_handle create mountpoint relative_path mode
    ])
    else 0

-- The end of `vfs_open`: the nodes that are missing, and the operation of the file system.
pub open_created : Handlers → Descriptor → ℕ → Text → ℕ → Vfs → Option Opened
open_created h descriptor mountpoint name mode v = do
  (first, v') ← create_missing_nodes_from_path name descriptor.fs_ops (some mountpoint) v
  cut ← cut_path name
  found ← get_node_from_path v' cut
  node ← found
  n ← v'.nodes node
  v'' ← h.open_op n.ops.open_op cut mode v'
  some (opened node v'')

-- The part of `vfs_open` for a path without a node. The last byte of the path in the mount point,
-- a slash, is cut off.
pub open_missing : Handlers → Text → ℕ → Vfs → Option Opened
open_missing h name mode v = do
  mountpoint ← get_mountpoint_of_path v name
  slashed ← get_mountpoint_relative_path v mountpoint name
  mountpoint_node ← v.nodes mountpoint
  descriptor ← mountpoint_node.filesystem_descriptor
  let err = may_open h mountpoint_node descriptor mountpoint (without_last slashed) mode
  let done = open_created h descriptor mountpoint name mode v
  if err == 0 then done else some (refused err v)

pub vfs_open : Handlers → Text → ℕ → Vfs → Option Opened
vfs_open h name mode v = do
  found ← get_node_from_path v name
  elim found [
    | some node ↦ some (if asks_create mode then refused eexist v else opened node v)
    | none ↦ open_missing h name mode v
  ]
