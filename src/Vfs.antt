-- ===== src/Vfs.antt =====
-- src/fs/vfs/vfs.c: the tree of nodes. Nodes are numbered in the order they are allocated, and a
-- pointer is such a number. A name or path is the list of its bytes in front of the final zero. A
-- null or freed pointer that is used, a failed `assert` and a lock taken twice are `none`; every
-- operation takes `vfs_lock` and gives it back, so that it is free between them.
pub mod Split
pub mod Search
pub mod Walk
pub mod FullPath
pub mod Likeness
pub mod Grow
pub mod Adding
pub mod Attach
pub mod Open
mod Tests
use drip_os.Prelude.{
  ℕ, zero, suc, ◌+◌, ◌%◌, ◌^◌, bit_and, Bool, true, false, ◌&&◌, not, Option, none, some, List, [],
  ◌∷◌, ◌++◌, if◌then◌else◌, ◌==◌, ◌>>=◌, length, get_elem?, set, take, drop, replicate, add64,
}
use drip_os.ProcessTable.{slot_at, claim_slot}
use drip_os.Text.Reverse.{turned}

abbrev pub Text : Type 0
Text = List ℕ

-- `vfs_ops_t`: the addresses of the functions.
pub record Ops : Type 0 where
  pub open_op : ℕ
  pub post_open : ℕ
  pub close : ℕ
  pub read : ℕ
  pub write : ℕ
  pub seek : ℕ

-- `vfs_fs_descriptor_t`; `file_exists` is the address of the function.
pub record Descriptor : Type 0 where
  pub fs_root : Option ℕ
  pub fs_ops : Ops
  pub file_exists : ℕ

-- `vfs_node_t`, less `node_handle`, which nothing calls. The size of the array of children is that
-- of the list.
pub record Node : Type 0 where
  pub name : Text
  pub ops : Ops
  pub create_handle : Option ℕ
  pub filesystem_descriptor : Option Descriptor
  pub parent : Option ℕ
  pub fs_root : Option ℕ
  pub children : List (Option ℕ)
  pub unid : ℕ

-- The nodes that are allocated, the number the next one gets, and the globals.
pub record Vfs : Type 0 where
  pub nodes : ℕ → Option Node
  pub next_node : ℕ
  pub root_node : ℕ
  pub current_unid : ℕ

pub put_node : ℕ → Node → Vfs → Vfs
put_node a node v = record v { nodes = λ b. if b == a then some node else v.nodes b }

-- `strcmp(a, b) == 0`
unfoldable pub same_name : Text → Text → Bool
same_name [] [] = true
same_name [] (d ∷ t) = false
same_name (c ∷ s) [] = false
same_name (c ∷ s) (d ∷ t) = if c == d then same_name s t else false

-- The loop of `search_node_name` from child number `i` on.
pub search_from : Vfs → List (Option ℕ) → Text → ℕ → Option (Option ℕ)
search_from v [] name i = some none
search_from v (none ∷ cs) name i = search_from v cs name (i + 1)
search_from v (some c ∷ cs) name i =
    let rest = search_from v cs name (i + 1) in
    do cur ← v.nodes c; if same_name cur.name name then some (some i) else rest

-- The number of the first child with the name.
pub search_node_name : Vfs → ℕ → Text → Option (Option ℕ)
search_node_name v a name = do node ← v.nodes a; search_from v node.children name 0

-- What a round of the loop of `split_path_elements` does with the last element.
pub append_last : ℕ → List Text → Option (List Text)
append_last c [] = none
append_last c (s ∷ []) = some ((s ++ c ∷ []) ∷ [])
append_last c (s ∷ t ∷ output) = do rest ← append_last c (t ∷ output); some (s ∷ rest)

abbrev pub has_more : Text → Bool
has_more [] = false
has_more (c ∷ path) = true

-- A round of the loop on a byte, given what is behind it: `starting_new` and `output`.
pub split_step : Bool → List Text → ℕ → Text → Option (Bool × List Text)
split_step starting_new output c path =
    let starts = starting_new && has_more path in
    let output' = if starts then output ++ [] ∷ [] else output in
    let starting_new' = if starts then false else starting_new in
    let extended : Option (Bool × List Text) = (do
      longer ← append_last c output'
      some (starting_new', longer)) in
    if c == b'/' then (if starting_new' then none else some (true, output')) else extended

pub split_from : Bool → List Text → Text → Option (List Text)
split_from starting_new output [] = some output
split_from starting_new output (c ∷ path) = do
  (starting_new', output') ← split_step starting_new output c path
  split_from starting_new' output' path

abbrev pub skip_slash : Text → Text
skip_slash [] = []
skip_slash (c ∷ path) = if c == b'/' then path else c ∷ path

pub split_path_elements : Text → Option (List Text)
split_path_elements path = split_from true [] (skip_slash path)

-- The loop of `get_node_from_path`: null is `some none`.
pub walk : Vfs → ℕ → List Text → Option (Option ℕ)
walk v cur [] = some (some cur)
walk v cur (name ∷ names) = do
  found ← search_node_name v cur name
  elim found [
    | none ↦ some none
    | some i ↦ do node ← v.nodes cur; next ← slot_at node.children i; walk v next names
  ]

pub get_node_from_path : Vfs → Text → Option (Option ℕ)
get_node_from_path v path =
    if same_name path (b'/' ∷ [])
    then some (some v.root_node)
    else do names ← split_path_elements path; walk v v.root_node names

-- A zeroed node with ten places for children.
pub empty_node : Text → Ops → ℕ → Node
empty_node name ops unid = record {
  name = name;
  ops = ops;
  create_handle = none;
  filesystem_descriptor = none;
  parent = none;
  fs_root = none;
  children = replicate 10 none;
  unid = unid;
}

-- Setting up the root node. Its name stays null; no operation reads it. The table of mounted file
-- systems, which is set up with it, is left out.
pub vfs_init : Vfs
vfs_init =
    let no_ops : Ops = record {
      open_op = 0;
      post_open = 0;
      close = 0;
      read = 0;
      write = 0;
      seek = 0;
    } in
    let root = empty_node [] no_ops 0 in
    record {
      nodes = λ a. if a == 0 then some root else none;
      next_node = 1;
      root_node = 0;
      current_unid = 0;
    }

pub vfs_new_node : Text → Ops → Vfs → ℕ × Vfs
vfs_new_node name ops v = (
  v.next_node,
  record (put_node v.next_node (empty_node name ops v.current_unid) v) {
    next_node = suc v.next_node;
    current_unid = add64 v.current_unid 1;
  },
)

-- The first empty place of the array, or ten new ones.
pub vfs_add_child : ℕ → ℕ → Vfs → Option Vfs
vfs_add_child parent child v = do
  node ← v.nodes parent
  let (i, places) = claim_slot node.children
  let v' = put_node parent (record node { children = set places i (some child) }) v
  added ← v'.nodes child
  some (put_node child (record added { parent = some parent }) v')

-- `new_node->fs_root = root_node`
pub set_fs_root : ℕ → Option ℕ → Vfs → Option Vfs
set_fs_root a fs_root v = do
  node ← v.nodes a
  some (put_node a (record node { fs_root = fs_root }) v)

-- A name and a slash, written from the end. The bytes of an empty name would be counted down from
-- 2 ^ 64 - 1.
pub write_name : Text → Text → Option Text
write_name [] path = none
write_name (c ∷ name) path = some (path ++ (turned (c ∷ name) ++ b'/' ∷ []))

-- A round of the loop of `get_full_path`, which writes the path from its end: the parent and what
-- is written.
pub climb_step : Vfs → ℕ → Text → Option (ℕ × Text)
climb_step v cur path = do
  node ← v.nodes cur
  written ← write_name node.name path
  parent ← node.parent
  some (parent, written)

pub climb : ℕ → Vfs → ℕ → Text → Option Text
climb zero v cur path = none
climb (suc fuel) v cur path =
    let further : Option Text = (do
      (parent, written) ← climb_step v cur path
      climb fuel v parent written) in
    if cur == v.root_node then some path else further

pub get_full_path : ℕ → Vfs → ℕ → Option Text
get_full_path fuel v node = do path ← climb fuel v node []; some (turned path)

pub join_split_path : List Text → Text
join_split_path [] = []
join_split_path (name ∷ path) = b'/' ∷ (name ++ join_split_path path)
