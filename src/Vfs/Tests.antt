-- ===== src/Vfs/Tests.antt =====
-- A tree with a file system on its root and a device, and the paths of `/dev/sda`
-- (src/fs/vfs/vfs.c).
use drip_os.Prelude.{
  ℕ, suc, ◌≡◌, ◌≢◌, ◌<◌, ◌↔◌, ◌⊎◌, refl, sym, ap, subst, true, Option, none, some, List, [], ◌∷◌,
  ◌++◌, arith,
}
use drip_os.Vfs.{
  Text, Ops, Descriptor, Node, Vfs, vfs_init, put_node, empty_node, vfs_new_node, vfs_add_child,
  walk, get_node_from_path, get_full_path, split_path_elements, join_split_path,
}
use drip_os.Vfs.Attach.{vfs_add_child-IsVfs}
use drip_os.Vfs.FullPath.{get_node_from_path-full_path}
use drip_os.Vfs.Grow.{IsOrphan, empty_places, vfs_new_node-IsVfs, vfs_init-IsVfs}
use drip_os.Vfs.Open.{Handlers, create_missing_nodes_from_path, get_mountpoint_of_node}
use drip_os.Vfs.Open.Create.{Keeps}
use drip_os.Vfs.Open.Elements.{AreLong}
use drip_os.Vfs.Open.Loop.{create_missing_nodes_from_path-finds}
use drip_os.Vfs.Open.Mounts.{Mounted, Plain, get_mountpoint_of_node-nearest}
use drip_os.Vfs.Search.{NoneNamed}
use drip_os.Vfs.Split.{IsElem, IsSplit, split_path_elements-join, split_path_elements-single}
use drip_os.Vfs.Walk.{IsVfs, Under, Walked, walk-Walked}

abbrev ops : Ops
ops = record { open_op = 1; post_open = 2; close = 3; read = 4; write = 5; seek = 6 }

abbrev dev : Text
dev = b'd' ∷ b'e' ∷ b'v' ∷ []

abbrev sda : Text
sda = b's' ∷ b'd' ∷ b'a' ∷ []

abbrev path : Text
path = join_split_path (dev ∷ sda ∷ [])

-- What is left of the creation of nodes.
abbrev tree_of : Option (Option ℕ × Vfs) → Vfs
tree_of none = vfs_init
tree_of (some (first, v)) = v

-- The tree with `/dev` and `/dev/sda`.
abbrev tree : Vfs
tree = tree_of (create_missing_nodes_from_path path ops none vfs_init)

letter : (c : ℕ) → b'/' < c → (0 < c) × (c ≢ b'/')
letter c above = (omega (arith, above), λ e. absurd (omega (arith, above, e)))

dev-IsElem : IsElem dev
dev-IsElem =
    let (d, d') = letter b'd' (omega arith) in
    let (e, e') = letter b'e' (omega arith) in
    let (v, v') = letter b'v' (omega arith) in (d, d', (e, e', (v, v', tt)))

sda-IsElem : IsElem sda
sda-IsElem =
    let (s, s') = letter b's' (omega arith) in
    let (d, d') = letter b'd' (omega arith) in
    let (a, a') = letter b'a' (omega arith) in (s, s', (d, d', (a, a', tt)))

long : AreLong (dev ∷ sda ∷ [])
long = (dev-IsElem, omega arith, (sda-IsElem, omega arith, tt))

is_split : IsSplit (dev ∷ sda ∷ [])
is_split = (dev-IsElem, (sda-IsElem, omega arith))

tree-found : (b : ℕ) × IsVfs tree × Under tree tree.root_node (dev ∷ sda ∷ []) b
tree-found =
    let (first, v, b, e, keeps, under, found, same) =
      create_missing_nodes_from_path-finds vfs_init dev (sda ∷ []) ops none vfs_init-IsVfs long in
    let v_tree = sym (ap tree_of e) in
    (
      b,
      subst IsVfs v_tree keeps.well_formed,
      subst (λ t. Under t t.root_node (dev ∷ sda ∷ []) b) v_tree under,
    )

tree-IsVfs : IsVfs tree
tree-IsVfs = tree-found.1

-- A file system on the root: every file exists, and creating one is error 5.
abbrev fs : Descriptor
fs = record { fs_root = some 0; fs_ops = ops; file_exists = 7 }

abbrev handlers : Handlers
handlers = record {
  file_exists = λ f node path. true;
  create_handle = λ f node path mode. 5;
  open_op = λ f path mode v. some v;
}

abbrev root : Node
root =
    empty_node [] (record { open_op = 0; post_open = 0; close = 0; read = 0; write = 0; seek = 0 })
      0

abbrev fs_root : Node
fs_root = record root { filesystem_descriptor = some fs; create_handle = some 3 }

abbrev mounted : Vfs
mounted = put_node 0 fs_root vfs_init

root_at : vfs_init.nodes 0 ≡ some root
unfolding vfs_init
root_at = refl

create_missing_nodes_from_path-finds_example :
    (first : Option ℕ) × (v' : Vfs) × (b : ℕ) × (create_missing_nodes_from_path path ops none
        vfs_init
      ≡ some (first, v'))
    × Keeps vfs_init v'
    × Under v' v'.root_node (dev ∷ sda ∷ []) b
    × (get_node_from_path v' path ≡ some (some b))
    × (((first ≡ none) × (v' ≡ vfs_init)) ⊎ (first ≡ some vfs_init.next_node))
create_missing_nodes_from_path-finds_example =
    create_missing_nodes_from_path-finds vfs_init dev (sda ∷ []) ops none vfs_init-IsVfs long

get_node_from_path-full_path_example : (get_node_from_path tree path ≡ some (some tree-found.0)) ↔ (
    Under tree tree.root_node (dev ∷ sda ∷ []) tree-found.0
    × (get_full_path (suc tree-found.0) tree tree-found.0 ≡ some path))
get_node_from_path-full_path_example =
    get_node_from_path-full_path tree (suc tree-found.0) tree-found.0 (dev ∷ sda ∷ []) tree-IsVfs
      is_split (omega arith)

walk-Walked_example : Walked vfs_init 0 (dev ∷ []) (walk vfs_init 0 (dev ∷ []))
walk-Walked_example = walk-Walked vfs_init 0 root (dev ∷ []) vfs_init-IsVfs root_at

-- The tree with a node that is no child yet.
abbrev device : Vfs
device = (vfs_new_node dev ops vfs_init).1

device-facts :
    (device.nodes 0 ≡ some root)
    × (device.nodes 1 ≡ some (empty_node dev ops 0))
    × IsOrphan device 1
    × IsVfs device
unfolding vfs_new_node vfs_init put_node
device-facts =
    let (unused, at, orphan, covers, w) = vfs_new_node-IsVfs vfs_init dev ops vfs_init-IsVfs in
    (refl, at, orphan, w)

root_empty : NoneNamed device root.children dev
unfolding empty_node
root_empty k c m here at same = absurd (empty_places 10 k c here)

vfs_add_child-IsVfs_example :
    (v' : Vfs) × (vfs_add_child 0 1 device ≡ some v')
    × IsVfs v'
    × (v'.root_node ≡ device.root_node)
    × Under v' 0 ((empty_node dev ops 0).name ∷ []) 1
    × ((a b : ℕ) (names : List Text) → Under device a names b → Under v' a names b)
unfolding empty_node
vfs_add_child-IsVfs_example =
    vfs_add_child-IsVfs device 0 root 1 (empty_node dev ops 0) device-facts.3 device-facts.0
      device-facts.1 (omega arith) dev-IsElem device-facts.2 root_empty

split_path_elements-join_example : split_path_elements path ≡ some (dev ∷ sda ∷ [])
split_path_elements-join_example = split_path_elements-join (dev ∷ sda ∷ []) is_split

split_path_elements-single_example :
    (split_path_elements (join_split_path (dev ∷ []) ++ b'/' ∷ b'x' ∷ [])
      ≡ some ((dev ++ b'x' ∷ []) ∷ []))
    × (split_path_elements (b'/' ∷ b'x' ∷ []) ≡ none)
split_path_elements-single_example =
    let (x, x') = letter b'x' (omega arith) in
    split_path_elements-single [] dev b'x' (dev-IsElem, tt) (x, x', tt)

get_mountpoint_of_node-nearest_example :
    ((m : ℕ) × (get_mountpoint_of_node (suc tree-found.0) tree tree-found.0 ≡ some m)
      × Mounted tree tree.root_node (dev ∷ sda ∷ []) tree-found.0 m)
    ⊎ ((get_mountpoint_of_node (suc tree-found.0) tree tree-found.0 ≡ some tree.root_node)
        × Plain tree tree.root_node (dev ∷ sda ∷ []) tree-found.0)
get_mountpoint_of_node-nearest_example =
    get_mountpoint_of_node-nearest tree (suc tree-found.0) tree-found.0 (dev ∷ sda ∷ []) tree-IsVfs
      tree-found.2 (omega arith)
