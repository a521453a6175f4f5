-- ===== src/Vfs/Open/Branches.antt =====
-- `vfs_open` (src/fs/vfs/vfs.c) on a well-formed tree.
use drip_os.Prelude.{ℕ, ◌≡◌, ◌≢◌, some}
use drip_os.Vfs.{Text, Descriptor, Node, Vfs, get_node_from_path}
use drip_os.Vfs.Open.{Handlers, Opened, opened, refused}
use drip_os.Vfs.Open.Create.{Keeps}
use drip_os.Vfs.Open.Verdict.{Verdict}
use drip_os.Vfs.Walk.{IsVfs}

-- The `open` functions of the file systems return, and keep the tree and its paths.
abbrev pub OpensKeep : Handlers → Type 0
OpensKeep h =
    (op : ℕ) (path : Text) (mode : ℕ) (v : Vfs)
    → IsVfs v
    → (v' : Vfs) × (h.open_op op path mode v ≡ some v') × Keeps v v'

-- A file system is mounted on the root.
abbrev pub RootMounted : Vfs → Type 0
RootMounted v =
    (r : Node) × (d : Descriptor) × (v.nodes v.root_node ≡ some r)
    × (r.filesystem_descriptor ≡ some d)

-- What `vfs_open` may answer for a path: a node that the path leads to in a tree that keeps its
-- paths, or an error, and the tree as it was.
abbrev pub Answers : Vfs → Text → Opened → Type 0
Answers v path (opened b v') = (get_node_from_path v' path ≡ some (some b)) × Keeps v v'
Answers v path (refused err v') = (err ≢ 0) × (v' ≡ v)
