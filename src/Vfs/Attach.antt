-- ===== src/Vfs/Attach.antt =====
-- `vfs_add_child` (src/fs/vfs/vfs.c) keeps the tree well formed.
use drip_os.Prelude.{
  ℕ, ◌<◌, ◌≡◌, ◌≢◌, refl, sym, ◌∙◌, some, none≢some, some-injective, subst, List, [], ◌∷◌, arith,
  Option-cases, inl, inr,
}
use drip_os.ProcessTable.{slot_at}
use drip_os.Vfs.{Text, Node, Vfs, vfs_add_child}
use drip_os.Vfs.Grow.{IsOrphan}
use drip_os.Vfs.Search.{NoneNamed}
use drip_os.Vfs.Split.{IsElem}
use drip_os.Vfs.Walk.{IsChild, IsVfs, Under, here, down}
use drip_os.Vfs.Adding.{
  Added, vfs_add_child-Added, Moved-forth, Moved-back, Added-Under, Added-new, Added-back,
}

module _ {v : Vfs} {p : ℕ} {n : Node} {c : ℕ} {m : Node} {i : ℕ} {v' : Vfs}
    (added : Added v p n c m i v') (w : IsVfs v) (young : p < c) (elem : IsElem m.name)
    (orphan : IsOrphan v c) (distinct : NoneNamed v n.children m.name) where
  -- No child there was has the name.
  Added-distinct : (j d : ℕ) (k : Node) → IsChild v p j d k → k.name ≢ m.name
  Added-distinct j d k h =
      let one : h.parent ≡ n = some-injective (sym h.parent_at ∙ added.before_parent) in
      distinct j d k (rw one at h.in_place) h.node_at

  Added-apart :
      (a j j' d d' : ℕ) (k k' : Node)
      → IsChild v' a j d k
      → IsChild v' a j' d' k'
      → k.name ≡ k'.name
      → j ≡ j'
  Added-apart a j j' d d' k k' h h' same = elim (Added-back added a j d k h) [
    | inl (a_p, e, _, name) ↦ elim (Added-back added a j' d' k' h') [
      | inl (_, e', _, _) ↦ e ∙ sym e'
      | inr (k1, h1, name1) ↦
          absurd (Added-distinct j' d' k1 (rw a_p at h1) (sym name1 ∙ sym same ∙ name))
    ]
    | inr (k0, h0, name0) ↦ elim (Added-back added a j' d' k' h') [
      | inl (a_p, e', _, name) ↦
          absurd (Added-distinct j d k0 (rw a_p at h0) (sym name0 ∙ same ∙ name))
      | inr (k1, h1, name1) ↦ w.apart a j j' d d' k0 k1 h0 h1 (sym name0 ∙ same ∙ name1)
    ]
  ]

  Added-child :
      (a j d : ℕ) (k : Node)
      → v'.nodes a ≡ some k
      → slot_at k.children j ≡ some d
      → (k' : Node) × (v'.nodes d ≡ some k') × (k'.parent ≡ some a) × IsElem k'.name × (a < d)
  Added-child a j d k at e =
      let (k0, moved) = Moved-back added a k at in
      elim (moved.entered j d e) [
        | inl e0 ↦
            let (m0, at0, up, elem0, young0) = w.child a j d k0 moved.before e0 in
            let (m1, moved1) = Moved-forth added d m0 at0 in
            let other : d ≢ c = λ same. orphan a j k0 moved.before (rw same at e0) in
            (m1, moved1.after, moved1.parent other ∙ up, rw moved1.name elem0, young0)
        | inr (a_p, j_i, d_c) ↦ (
          record m { parent = some p },
          rw d_c added.at_child,
          rw a_p refl,
          elem,
          rw (a_p, d_c) young,
        )
      ]

  Added-IsVfs : IsVfs v'
  Added-IsVfs = record {
    root =
        let (r, at) = w.root in
        let (r', moved) = Moved-forth added v.root_node r at in
        (r', subst (λ a. v'.nodes a ≡ some r') (sym added.root) moved.after);
    oldest = λ a k at.
        let (k0, moved) = Moved-back added a k at in rw added.root (w.oldest a k0 moved.before);
    fresh = λ a le. elim (Option-cases (v'.nodes a)) [
      | inl e ↦ e
      | inr (k, e) ↦
          let (k0, moved) = Moved-back added a k e in
          absurd (none≢some (sym (w.fresh a (rw added.next at le)) ∙ moved.before))
    ];
    child = λ a j d k at e. Added-child a j d k at e;
    apart = λ a j j' d d' k k' h h' same. Added-apart a j j' d d' k k' h h' same;
  }

-- Adding a node that no place holds to an older one, none of whose children has its name, keeps
-- the tree well formed: all paths lead where they led, and the name leads to the node.
pub vfs_add_child-IsVfs :
    (v : Vfs) (p : ℕ) (n : Node) (c : ℕ) (m : Node)
    → IsVfs v
    → v.nodes p ≡ some n
    → v.nodes c ≡ some m
    → p < c
    → IsElem m.name
    → IsOrphan v c
    → NoneNamed v n.children m.name
    → (v' : Vfs) × (vfs_add_child p c v ≡ some v')
      × IsVfs v'
      × (v'.root_node ≡ v.root_node)
      × Under v' p (m.name ∷ []) c
      × ((a b : ℕ) (names : List Text) → Under v a names b → Under v' a names b)
vfs_add_child-IsVfs v p n c m w at_p at_c young elem orphan distinct =
    let ne : p ≢ c = λ e. absurd (omega (arith, e, young)) in
    let (i, v', e, added) = vfs_add_child-Added v p n c m at_p at_c ne in
    (
      v',
      e,
      Added-IsVfs added w young elem orphan distinct,
      added.root,
      down p i c (record m { parent = some p }) [] c (Added-new added) (here c),
      λ a b names under. Added-Under added a b names under,
    )
