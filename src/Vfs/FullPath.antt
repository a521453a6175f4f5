-- ===== src/Vfs/FullPath.antt =====
-- `get_full_path` (src/fs/vfs/vfs.c), which climbs from a node to the root, and
-- `get_node_from_path`, which comes back.
use drip_os.Prelude.{
  ℕ, suc, ◌+◌, ◌-◌, ◌≤◌, ◌<◌, ◌≡◌, refl, sym, ap, ◌∙◌, true, false, some, some-injective, ◌↔◌, List,
  [], ◌∷◌, ◌++◌, ◌==◌, arith, length,
}
use drip_os.Text.Buffers.{append_assoc}
use drip_os.Text.Reverse.{turned}
use drip_os.Vfs.{
  Text, Node, Vfs, same_name, walk, get_node_from_path, write_name, climb_step, climb,
  get_full_path, join_split_path,
}
use drip_os.Vfs.Split.{IsElem, IsSplit, split_path_elements-join, append_nil}
use drip_os.Vfs.Walk.{IsChild, IsVfs, Under, here, down, walk-Under, zero_plus, walk-Walked}

turned-append : (s t : Text) → turned (s ++ t) ≡ turned t ++ turned s
turned-append [] t = sym (append_nil (turned t))
turned-append (c ∷ s) t = rw (turned-append s t) (append_assoc (turned t) (turned s) (c ∷ []))

turned-turned : (s : Text) → turned (turned s) ≡ s
turned-turned [] = refl
turned-turned (c ∷ s) = rw (turned-append (turned s) (c ∷ []), turned-turned s) refl

-- A child is younger than the root, so that the climb does not stop at it.
pub IsChild-root :
    (v : Vfs) (a i c : ℕ) (m : Node)
    → IsVfs v
    → IsChild v a i c m
    → ((c == v.root_node) ≡ false) × (m.parent ≡ some a) × IsElem m.name × (a < c)
IsChild-root v a i c m w h =
    let (m', at, up, elem, young) = w.child a i c h.parent h.parent_at h.in_place in
    let one : m' ≡ m = some-injective (sym at ∙ h.node_at) in
    let old = w.oldest a h.parent h.parent_at in (ground arith, rw one at up, rw one at elem, young)

write_name-elem :
    (name path : Text) → IsElem name → write_name name path ≡ some (path ++ turned (b'/' ∷ name))
unfolding write_name
write_name-elem [] path elem = absurd elem
write_name-elem (c ∷ name) path elem = refl

climb_step-child :
    (v : Vfs) (a i c : ℕ) (m : Node) (path : Text)
    → IsVfs v
    → IsChild v a i c m
    → climb_step v c path ≡ some (a, path ++ turned (b'/' ∷ m.name))
unfolding climb_step
climb_step-child v a i c m path w h =
    let (other, up, elem, young) = IsChild-root v a i c m w h in
    rw (h.node_at, write_name-elem m.name path elem, up) refl

pub Under-length :
    (v : Vfs) (a b : ℕ) (names : List Text) → IsVfs v → Under v a names b → a + length names ≤ b
Under-length v a b names w (here _) = omega arith
Under-length v a b names w (down _ i c m names' _ h under) =
    let (other, up, elem, young) = IsChild-root v a i c m w h in
    omega (arith, young, Under-length v c b names' w under)

-- The climb from a node to one above it writes the names between them, from the end.
climb-Under :
    (v : Vfs) (a b fuel : ℕ) (names : List Text) (path : Text)
    → IsVfs v
    → Under v a names b
    → climb (length names + fuel) v b path ≡ climb fuel v a (path ++ turned (join_split_path names))
unfolding climb join_split_path
climb-Under v a b fuel names path w (here _) = rw (append_nil path, zero_plus fuel) refl
climb-Under v a b fuel names path w (down _ i c m names' _ h under) =
    let (other, up, elem, young) = IsChild-root v a i c m w h in
    let next : length (m.name ∷ names') + fuel ≡ length names' + suc fuel = omega arith in
    let text : (path ++ turned (join_split_path names')) ++ turned (b'/' ∷ m.name)
        ≡ path ++ turned (join_split_path (m.name ∷ names')) =
      rw
        (
          append_assoc path (turned (join_split_path names')) (turned (b'/' ∷ m.name)),
          turned-append m.name (join_split_path names'),
        )
        (ap (λ t. path ++ t)
          (sym (append_assoc (turned (join_split_path names')) (turned m.name) (b'/' ∷ [])))) in
    rw next (
      climb-Under v c b (suc fuel) names' path w under
      ∙ rw (other, climb_step-child v a i c m (path ++ turned (join_split_path names')) w h, text)
          refl)

pub self : (a : ℕ) → (a == a) ≡ true
self a = ground arith

pub enough_rounds : (n fuel : ℕ) → n < fuel → (k : ℕ) × (fuel ≡ n + suc k)
enough_rounds n fuel lt = (fuel - suc n, omega (arith, lt))

-- In a well-formed tree the full path of a node is that of the names that lead to it from the
-- root, and the loop ends within as many rounds as there are nodes up to this one.
pub get_full_path-Under :
    (v : Vfs) (fuel b : ℕ) (names : List Text)
    → IsVfs v
    → Under v v.root_node names b
    → b < fuel
    → get_full_path fuel v b ≡ some (join_split_path names)
unfolding get_full_path climb
get_full_path-Under v fuel b names w under enough =
    let deep = Under-length v v.root_node b names w under in
    let (k, fuel_k) = enough_rounds (length names) fuel (omega (arith, deep, enough)) in
    rw (fuel_k, climb-Under v v.root_node b (suc k) names [] w under, self v.root_node)
      (ap some (turned-turned (join_split_path names)))

not_root :
    (name : Text) (names : List Text)
    → IsSplit (name ∷ names)
    → same_name (join_split_path (name ∷ names)) (b'/' ∷ []) ≡ false
unfolding same_name join_split_path
not_root [] [] (v, long) = absurd v
not_root [] (next ∷ names) (v, w) = absurd v
not_root (c ∷ name) names v = refl

-- Finding a node by its path, if that has no single byte for its last element.
pub get_node_from_path-join :
    (v : Vfs) (names : List Text)
    → IsSplit names
    → get_node_from_path v (join_split_path names) ≡ walk v v.root_node names
unfolding get_node_from_path same_name join_split_path
get_node_from_path-join v [] s = rw (split_path_elements-join [] tt) refl
get_node_from_path-join v (name ∷ names) s =
    rw (not_root name names s, split_path_elements-join (name ∷ names) s) refl

-- In a well-formed tree, for a path of elements behind slashes, none of them empty and the last of
-- two bytes at least (a last element of one byte is lost by the split), and with fuel above the
-- node's number: the path leads to the node exactly if the node stands under the root by these
-- names and the path is its full path.
pub get_node_from_path-full_path :
    (v : Vfs) (fuel b : ℕ) (names : List Text)
    → IsVfs v
    → IsSplit names
    → b < fuel
    → (get_node_from_path v (join_split_path names) ≡ some (some b))
      ↔ (Under v v.root_node names b × (get_full_path fuel v b ≡ some (join_split_path names)))
get_node_from_path-full_path v fuel b names w s enough =
    let (r, at) = w.root in
    (
      λ e.
          let walked = walk-Walked v v.root_node r names w at in
          let under : Under v v.root_node names b =
            rw (sym (get_node_from_path-join v names s) ∙ e) at walked in
          (under, get_full_path-Under v fuel b names w under enough),
      λ (under, full). get_node_from_path-join v names s ∙ walk-Under v v.root_node b names w under,
    )
