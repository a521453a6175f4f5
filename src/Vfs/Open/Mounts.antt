-- ===== src/Vfs/Open/Mounts.antt =====
-- `get_mountpoint_of_node` and `get_mountpoint_of_path` (src/fs/vfs/vfs.c) find the nearest node on
-- the way up that a file system is mounted on.
use drip_os.Prelude.{
  ℕ, zero, suc, ◌+◌, ◌≤◌, ◌<◌, ◌≡◌, refl, sym, ap, ◌∙◌, ◌⊎◌, inl, inr, none, some, subst, List, [],
  ◌∷◌, ◌++◌, arith, Option-cases, ℕ_discrete, length, take,
}
use drip_os.Vfs.{Text, Descriptor, Node, Vfs, walk, get_node_from_path, join_split_path}
use drip_os.Vfs.FullPath.{IsChild-root, enough_rounds, self, Under-length, get_node_from_path-join}
use drip_os.Vfs.Grow.{given}
use drip_os.Vfs.Open.{get_mountpoint_of_node, mountpoint_from}
use drip_os.Vfs.Open.Create.{Under-node}
use drip_os.Vfs.Open.Elements.{AreLong, AreLong-IsSplit}
use drip_os.Vfs.Walk.{IsChild, IsVfs, Under, here, down, zero_plus, walk-Walked}

-- Node `b` is under `a`, and nothing is mounted on the nodes below `a` on the way.
pub data Plain (v : Vfs) : ℕ → List Text → ℕ → Type 0 where
  stop : (a : ℕ) → Plain v a [] a
  below :
      (a i c : ℕ) (m : Node) (names : List Text) (b : ℕ)
      → IsChild v a i c m
      → m.filesystem_descriptor ≡ none
      → Plain v c names b
      → Plain v a (m.name ∷ names) b

-- Node `m`, under `a`, is the nearest to `b` that has something mounted on it.
pub record Mounted (v : Vfs) (a : ℕ) (names : List Text) (b m : ℕ) : Type 0 where
  pub node : Node
  pub node_at : v.nodes m ≡ some node
  pub descriptor : Descriptor
  pub mounted : node.filesystem_descriptor ≡ some descriptor
  pub above : List Text
  pub rest : List Text
  pub names_split : names ≡ above ++ rest
  pub under : Under v a above m
  pub plain : Plain v m rest b

-- The rounds of the loop between a node and one above it.
climb_mounts :
    (v : Vfs) (a b fuel : ℕ) (names : List Text)
    → IsVfs v
    → Under v a names b
    → (Plain v a names b
        × (get_mountpoint_of_node (length names + fuel) v b ≡ get_mountpoint_of_node fuel v a))
      ⊎ ((m : ℕ) × Mounted v a names b m
          × (get_mountpoint_of_node (length names + fuel) v b ≡ some m))
unfolding get_mountpoint_of_node
climb_mounts v a b fuel names w (here _) = inl (stop a, rw (zero_plus fuel) refl)
climb_mounts v a b fuel names w (down _ i c k names' _ h under) =
    let (other, up, elem, young) = IsChild-root v a i c k w h in
    let next : length (k.name ∷ names') + fuel ≡ length names' + suc fuel = omega arith in
    rw next (elim (climb_mounts v c b (suc fuel) names' w under) [
      | inr (m, mounted, e) ↦ inr (
        m,
        record {
          node = mounted.node;
          node_at = mounted.node_at;
          descriptor = mounted.descriptor;
          mounted = mounted.mounted;
          above = k.name ∷ mounted.above;
          rest = mounted.rest;
          names_split = ap (λ l. k.name ∷ l) mounted.names_split;
          under = down a i c k mounted.above m h mounted.under;
          plain = mounted.plain;
        },
        e,
      )
      | inl (plain, e) ↦ elim (Option-cases k.filesystem_descriptor) [
        | inl bare ↦
            inl (below a i c k names' b h bare plain, e ∙ rw (other, h.node_at, bare, up) refl)
        | inr (descriptor, mounted) ↦ inr (
          c,
          record {
            node = k;
            node_at = h.node_at;
            descriptor = descriptor;
            mounted = mounted;
            above = k.name ∷ [];
            rest = names';
            names_split = refl;
            under = down a i c k [] c h (here c);
            plain = plain;
          },
          e ∙ rw (other, h.node_at, mounted) refl,
        )
      ]
    ])

-- From a node of a well-formed tree `get_mountpoint_of_node` reaches, in as many rounds as there
-- are nodes up to this one, the nearest node with a file system mounted on it, itself included; or
-- the root, where there is none below the root.
pub get_mountpoint_of_node-nearest :
    (v : Vfs) (fuel b : ℕ) (names : List Text)
    → IsVfs v
    → Under v v.root_node names b
    → b < fuel
    → ((m : ℕ) × (get_mountpoint_of_node fuel v b ≡ some m) × Mounted v v.root_node names b m)
      ⊎ ((get_mountpoint_of_node fuel v b ≡ some v.root_node) × Plain v v.root_node names b)
unfolding get_mountpoint_of_node
get_mountpoint_of_node-nearest v fuel b names w under enough =
    let deep = Under-length v v.root_node b names w under in
    let (k, fuel_k) = enough_rounds (length names) fuel (omega (arith, deep, enough)) in
    rw fuel_k (elim (climb_mounts v v.root_node b (suc k) names w under) [
      | inl (plain, e) ↦ inr (e ∙ rw (self v.root_node) refl, plain)
      | inr (m, mounted, e) ↦ inl (m, e, mounted)
    ])

-- A mount point is a node of the tree: the root, or one with a file system.
pub record MountPoint (v : Vfs) (m : ℕ) : Type 0 where
  pub path : List Text
  pub under : Under v v.root_node path m
  pub kind :
      (m ≡ v.root_node)
      ⊎ ((n : Node) × (d : Descriptor) × (v.nodes m ≡ some n) × (n.filesystem_descriptor ≡ some d))

node_mount :
    (v : Vfs) (b : ℕ) (names : List Text)
    → IsVfs v
    → Under v v.root_node names b
    → (m : ℕ) × (get_mountpoint_of_node v.next_node v b ≡ some m) × MountPoint v m
node_mount v b names w under =
    let (r, at_r) = w.root in
    let (n, at) = Under-node v v.root_node b r names at_r under in
    elim (get_mountpoint_of_node-nearest v v.next_node b names w under (given v b n w at)) [
      | inl (m, e, mounted) ↦ (
        m,
        e,
        record {
          path = mounted.above;
          under = mounted.under;
          kind = inr (mounted.node, mounted.descriptor, mounted.node_at, mounted.mounted);
        },
      )
      | inr (e, plain) ↦
          (v.root_node, e, record { path = []; under = here v.root_node; kind = inl refl })
    ]

root_mount :
    (v : Vfs) → IsVfs v → get_mountpoint_of_node v.next_node v v.root_node ≡ some v.root_node
unfolding get_mountpoint_of_node
root_mount v w =
    let (r, at) = w.root in
    let (k, next) = enough_rounds 0 v.next_node (omega (arith, given v v.root_node r w at)) in
    let next' : v.next_node ≡ suc k = next ∙ zero_plus (suc k) in
    subst (λ f. get_mountpoint_of_node f v v.root_node ≡ some v.root_node) (sym next')
      (rw (self v.root_node) refl)

AreLong-take : (k : ℕ) (names : List Text) → AreLong names → AreLong (take k names)
AreLong-take zero names long = tt
AreLong-take (suc k) [] long = tt
AreLong-take (suc k) (name ∷ names) (elem, more, long) = (elem, more, AreLong-take k names long)

-- On a well-formed tree `get_mountpoint_of_path` asks for the mount point of the longest beginning
-- of the path that there is a node for.
pub mountpoint_from-longest :
    (v : Vfs) (names : List Text) (i : ℕ)
    → IsVfs v
    → AreLong names
    → (j b m : ℕ) × (j ≤ i)
      × Under v v.root_node (take j names) b
      × ((k : ℕ) → j < k → k ≤ i → walk v v.root_node (take k names) ≡ some none)
      × (get_mountpoint_of_node v.next_node v b ≡ some m)
      × (mountpoint_from v names i ≡ some m)
      × MountPoint v m
unfolding mountpoint_from
mountpoint_from-longest v names zero w long = (
  0,
  v.root_node,
  v.root_node,
  omega arith,
  here v.root_node,
  λ k lt le. absurd (omega (arith, lt, le)),
  root_mount v w,
  refl,
  record { path = []; under = here v.root_node; kind = inl refl },
)
mountpoint_from-longest v names (suc i) w long =
    let (r, at_r) = w.root in
    let found : get_node_from_path v (join_split_path (take (suc i) names))
        ≡ walk v v.root_node (take (suc i) names) =
      get_node_from_path-join v (take (suc i) names)
        (AreLong-IsSplit (take (suc i) names) (AreLong-take (suc i) names long)) in
    let walked = walk-Walked v v.root_node r (take (suc i) names) w at_r in
    elim (Option-cases (walk v v.root_node (take (suc i) names))) [
      | inl e ↦ absurd (rw e at walked)
      | inr (some b, e) ↦
          let under : Under v v.root_node (take (suc i) names) b = rw e at walked in
          let (m, at_m, mount) = node_mount v b (take (suc i) names) w under in
          (
            suc i,
            b,
            m,
            omega arith,
            under,
            λ k lt le. absurd (omega (arith, lt, le)),
            at_m,
            rw (found, e) at_m,
            mount,
          )
      | inr (none, e) ↦
          let (j, b, m, le, under, longest, at_m, from, mount) =
            mountpoint_from-longest v names i w long in
          (
            j,
            b,
            m,
            omega (arith, le),
            under,
            λ k lt le'. elim (ℕ_discrete k (suc i)) [
              | yes same ↦ rw same e
              | no ne ↦ longest k lt (ground (arith, ne, le'))
            ],
            at_m,
            rw (found, e) from,
            mount,
          )
    ]
