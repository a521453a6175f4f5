-- ===== src/Vfs/Grow.antt =====
-- `vfs_new_node` and `vfs_add_child` (src/fs/vfs/vfs.c) keep the tree well formed.
use drip_os.Prelude.{
  ℕ, zero, suc, ◌<◌, ◌≡◌, ◌≢◌, refl, sym, ◌∙◌, true, false, none, some, none≢some, some-injective,
  subst, ◌==◌, arith, Bool-cases, ltb, ltb→lt, Option-cases, inl, inr, ◌⊎◌, ℕ_discrete, replicate,
}
use drip_os.ProcessTable.{slot_at}
use drip_os.Vfs.{Text, Ops, Node, Vfs, empty_node, put_node, vfs_init, vfs_new_node}
use drip_os.Vfs.Likeness.{Alike-self, Covers, put_node_self}
use drip_os.Vfs.Walk.{IsChild, IsVfs}

-- No place of the tree holds the node.
abbrev pub IsOrphan : Vfs → ℕ → Type 0
IsOrphan v c = (a i : ℕ) (n : Node) → v.nodes a ≡ some n → slot_at n.children i ≢ some c

pub empty_places : (n i c : ℕ) → slot_at (replicate n none) i ≢ some c
empty_places zero i c e = none≢some e
empty_places (suc n) zero c e = none≢some e
empty_places (suc n) (suc i) c e = empty_places n i c e

-- The nodes after `vfs_new_node`: either the new one, or as before.
new_node_or :
    (v : Vfs) (name : Text) (ops : Ops) (a : ℕ) (n : Node)
    → ((vfs_new_node name ops v).1).nodes a ≡ some n
    → ((a ≡ v.next_node) × (n ≡ empty_node name ops v.current_unid))
      ⊎ ((a ≢ v.next_node) × (v.nodes a ≡ some n))
unfolding vfs_new_node put_node
new_node_or v name ops a n at = elim (ℕ_discrete a v.next_node) [
  | yes e ↦
      let same : (a == v.next_node) ≡ true = ground arith in
      inl (e, some-injective (sym (rw same at at)))
  | no ne ↦ let other : (a == v.next_node) ≡ false = ground (arith, ne) in inr (ne, rw other at at)
]

-- A node there is was given out before.
pub given : (v : Vfs) (a : ℕ) (n : Node) → IsVfs v → v.nodes a ≡ some n → a < v.next_node
given v a n w at = elim (Bool-cases (ltb a v.next_node)) [
  | inl lt ↦ ltb→lt a v.next_node lt
  | inr ge ↦ absurd (none≢some (sym (w.fresh a (ground arith)) ∙ at))
]

new_node_kept :
    (v : Vfs) (name : Text) (ops : Ops) (a : ℕ) (n : Node)
    → IsVfs v
    → v.nodes a ≡ some n
    → ((vfs_new_node name ops v).1).nodes a ≡ some n
unfolding vfs_new_node put_node
new_node_kept v name ops a n w at =
    let lt = given v a n w at in
    let other : (a == v.next_node) ≡ false = ground (arith, lt) in rw other at

-- A child after the allocation was one before, of the same parent.
new_node-IsChild :
    (v : Vfs) (name : Text) (ops : Ops) (a i c : ℕ) (m : Node)
    → IsVfs v
    → IsChild ((vfs_new_node name ops v).1) a i c m
    → IsChild v a i c m
unfolding empty_node
new_node-IsChild v name ops a i c m w h = elim (new_node_or v name ops a h.parent h.parent_at) [
  | inl (e, fresh) ↦ absurd (empty_places 10 i c (rw fresh at h.in_place))
  | inr (ne, at) ↦
      let (m', at', up, elem, young) = w.child a i c h.parent at h.in_place in
      let kept = new_node_kept v name ops c m' w at' in
      record {
        parent = h.parent;
        parent_at = at;
        in_place = h.in_place;
        node_at = at' ∙ sym kept ∙ h.node_at;
      }
]

-- In a well-formed tree `vfs_new_node` hands out an unused node that has the name and no children
-- and that no place holds; the nodes there were stay, and the tree stays well formed.
pub vfs_new_node-IsVfs :
    (v : Vfs) (name : Text) (ops : Ops)
    → IsVfs v
    → (let (c, v') = vfs_new_node name ops v in
        (v.nodes c ≡ none)
        × (v'.nodes c ≡ some (empty_node name ops v.current_unid))
        × IsOrphan v' c
        × Covers v v'
        × IsVfs v')
unfolding vfs_new_node put_node empty_node
vfs_new_node-IsVfs v name ops w =
    let new = put_node_self v v.next_node (empty_node name ops v.current_unid) in
    (
      w.fresh v.next_node (omega arith),
      new,
      λ a i n at e.
          let child =
            new_node-IsChild v name ops a i v.next_node (empty_node name ops v.current_unid) w
              (record { parent = n; parent_at = at; in_place = e; node_at = new }) in
          none≢some (sym (w.fresh v.next_node (omega arith)) ∙ child.node_at),
      λ a n at. (n, new_node_kept v name ops a n w at, Alike-self n),
      record {
        root = let (r, at) = w.root in (r, new_node_kept v name ops v.root_node r w at);
        oldest = λ a n at. elim (new_node_or v name ops a n at) [
          | inl (e, fresh) ↦
              let (r, at_r) = w.root in rw e (omega (arith, given v v.root_node r w at_r))
          | inr (ne, at') ↦ w.oldest a n at'
        ];
        fresh = λ a le. elim (Option-cases (((vfs_new_node name ops v).1).nodes a)) [
          | inl e ↦ e
          | inr (n, e) ↦ elim (new_node_or v name ops a n e) [
            | inl (same, _) ↦ absurd (omega (arith, same, le))
            | inr (ne, at) ↦ absurd (omega (arith, given v a n w at, le))
          ]
        ];
        child = λ a i c n at e. elim (new_node_or v name ops a n at) [
          | inl (_, fresh) ↦ absurd (empty_places 10 i c (rw fresh at e))
          | inr (ne, at') ↦
              let (m, at_m, up, elem, young) = w.child a i c n at' e in
              (m, new_node_kept v name ops c m w at_m, up, elem, young)
        ];
        apart = λ a i j c d m m' h h'.
            w.apart a i j c d m m' (new_node-IsChild v name ops a i c m w h)
              (new_node-IsChild v name ops a j d m' w h');
      },
    )

init-no_child : (a i c : ℕ) (n : Node) → vfs_init.nodes a ≡ some n → slot_at n.children i ≢ some c
unfolding vfs_init empty_node
init-no_child a i c n at e = elim (Bool-cases (a == 0)) [
  | inl first ↦
      let one = some-injective (rw first at at) in
      empty_places 10 i c (subst (λ x. slot_at x.children i ≡ some c) (sym one) e)
  | inr other ↦ none≢some (rw other at at)
]

-- The tree that `vfs_init` sets up is well formed.
pub vfs_init-IsVfs : IsVfs vfs_init
unfolding vfs_init empty_node
vfs_init-IsVfs = record {
  root = (_, refl);
  oldest = λ a n at. omega arith;
  fresh = λ a le. let other : (a == 0) ≡ false = ground (arith, le) in rw other refl;
  child = λ a i c n at e. absurd (init-no_child a i c n at e);
  apart = λ a i j c d m m' h h' same. absurd (init-no_child a i c h.parent h.parent_at h.in_place);
}
