-- ===== src/Vfs/Open/Create.antt =====
-- `create_missing_nodes_from_path` (src/fs/vfs/vfs.c) on a path of elements.
use drip_os.Prelude.{
  ℕ, ◌≡◌, refl, sym, ap, ◌∙◌, Option, none, some, some-injective, subst, List, [], ◌∷◌, inl, inr,
  ◌⊎◌,
}
use drip_os.Vfs.{
  Text, Ops, Node, Vfs, vfs_new_node, set_fs_root, vfs_add_child, put_node, empty_node,
}
use drip_os.Vfs.Attach.{vfs_add_child-IsVfs}
use drip_os.Vfs.Grow.{IsOrphan, given, vfs_new_node-IsVfs}
use drip_os.Vfs.Likeness.{Covers, Covers-trans, set_fs_root-Like, IsVfs-Like, Under-Covers}
use drip_os.Vfs.Search.{NoneNamed}
use drip_os.Vfs.Split.{IsElem}
use drip_os.Vfs.Open.{Missing, keep_first, add_under}
use drip_os.Vfs.Walk.{IsVfs, Under, here, down, search_node_name_or}

-- What the creation of nodes keeps: the tree stays well formed, and all paths in it lead where
-- they led.
pub record Keeps (v v' : Vfs) : Type 0 where
  pub well_formed : IsVfs v'
  pub root : v'.root_node ≡ v.root_node
  pub under : (a b : ℕ) (names : List Text) → Under v a names b → Under v' a names b

-- The end of a path is a node.
pub Under-node :
    (v : Vfs) (a b : ℕ) (n : Node) (names : List Text)
    → v.nodes a ≡ some n
    → Under v a names b
    → (k : Node) × (v.nodes b ≡ some k)
Under-node v a b n names at (here _) = (n, at)
Under-node v a b n names at (down _ i c m names' _ h under) =
    Under-node v c b m names' h.node_at under

-- No child gets the name by an allocation or by a change of file systems.
NoneNamed-kept :
    (v v' : Vfs) (p : ℕ) (n : Node) (name : Text)
    → IsVfs v
    → v.nodes p ≡ some n
    → Covers v v'
    → NoneNamed v n.children name
    → NoneNamed v' n.children name
NoneNamed-kept v v' p n name w at covers distinct k d m e at_d same =
    let (m0, at0, up, elem, young) = w.child p k d n at e in
    let (m1, at1, like) = covers d m0 at0 in
    let one : m1 ≡ m = some-injective (sym at1 ∙ at_d) in
    distinct k d m0 e at0 (sym like.name ∙ ap (λ x. x.name) one ∙ same)

-- A node that has no child of the name gets one.
new_child :
    (v : Vfs) (name : Text) (ops : Ops) (fs_root : Option ℕ) (p : ℕ) (n : Node)
    → IsVfs v
    → v.nodes p ≡ some n
    → IsElem name
    → NoneNamed v n.children name
    → (v2 v' : Vfs) × (set_fs_root
          ((vfs_new_node name ops v).0)
          fs_root
          ((vfs_new_node name ops v).1)
        ≡ some v2)
      × (vfs_add_child p ((vfs_new_node name ops v).0) v2 ≡ some v')
      × Keeps v v'
      × Under v' p (name ∷ []) ((vfs_new_node name ops v).0)
unfolding vfs_new_node empty_node put_node
new_child v name ops fs_root p n w at elem distinct =
    let c = (vfs_new_node name ops v).0 in
    let v1 = (vfs_new_node name ops v).1 in
    let (unused, at_c, orphan, covers, w1) = vfs_new_node-IsVfs v name ops w in
    let (v2, e2, like) = set_fs_root-Like v1 c (empty_node name ops v.current_unid) fs_root at_c in
    let w2 = IsVfs-Like v1 v2 like w1 in
    let both = Covers-trans v v1 v2 covers like.forth in
    let (n2, at2, like_n) = both p n at in
    let (m2, at_m2, like_m) = like.forth c (empty_node name ops v.current_unid) at_c in
    let distinct2 : NoneNamed v2 n2.children m2.name =
      rw (like_n.children, like_m.name) (NoneNamed-kept v v2 p n name w at both distinct) in
    let orphan2 : IsOrphan v2 c = λ a i k at_a e.
      let (k1, at_k1, like_k) = like.back a k at_a in orphan a i k1 at_k1 (rw like_k.children e) in
    let (v', e', w', root, child, unders) =
      vfs_add_child-IsVfs v2 p n2 c m2 w2 at2 at_m2 (given v p n w at) (rw like_m.name elem) orphan2
        distinct2 in
    (
      v2,
      v',
      e2,
      e',
      record {
        well_formed = w';
        root = root ∙ like.root;
        under = λ a b names under. unders a b names (Under-Covers v v2 a b names both under);
      },
      subst (λ x. Under v' p (x ∷ []) c) like_m.name child,
    )

pub Keeps-self : (v : Vfs) → IsVfs v → Keeps v v
Keeps-self v w = record { well_formed = w; root = refl; under = λ a b names under. under }

pub Keeps-trans : (u v w : Vfs) → Keeps u v → Keeps v w → Keeps u w
Keeps-trans u v w k k' = record {
  well_formed = k'.well_formed;
  root = k'.root ∙ k.root;
  under = λ a b names under. k'.under a b names (k.under a b names under);
}

-- What a part of the loop does to `first_missing` and the tree: a node that is there is kept;
-- otherwise nothing is created, or the first node that is created is put there, which is the next
-- of the nodes that were not yet given out.
pub record KeepsFirst (s s' : Missing) : Type 0 where
  pub kept : (a : ℕ) → s.first_missing ≡ some a → s'.first_missing ≡ some a
  pub made :
      s.first_missing ≡ none
      → ((s'.first_missing ≡ none) × (s'.vfs ≡ s.vfs)) ⊎ (s'.first_missing ≡ some s.vfs.next_node)

pub KeepsFirst-trans : (s t u : Missing) → KeepsFirst s t → KeepsFirst t u → KeepsFirst s u
KeepsFirst-trans s t u k k' = record {
  kept = λ a e. k'.kept a (k.kept a e);
  made = λ e. elim (k.made e) [
    | inl (quiet, same) ↦ elim (k'.made quiet) [
      | inl (quiet', same') ↦ inl (quiet', same' ∙ same)
      | inr e' ↦ inr (e' ∙ ap (λ v. some v.next_node) same)
    ]
    | inr e1 ↦ inr (k'.kept s.vfs.next_node e1)
  ];
}

-- What an element does: a node with the name is under the current one.
pub record Stepped (s : Missing) (cur : ℕ) (s' : Missing) : Type 0 where
  pub keeps : Keeps s.vfs s'.vfs
  pub end : ℕ
  pub child : Under s'.vfs cur (s.temp_buffer ∷ []) end
  pub temp_buffer : s'.temp_buffer ≡ s.temp_buffer
  pub current_full_path : s'.current_full_path ≡ s.current_full_path
  pub keeps_first : KeepsFirst s s'

vfs_new_node-next : (name : Text) (ops : Ops) (v : Vfs) → (vfs_new_node name ops v).0 ≡ v.next_node
unfolding vfs_new_node
vfs_new_node-next name ops v = refl

pub add_under-Stepped :
    (ops : Ops) (fs_root : Option ℕ) (cur : ℕ) (n : Node) (s : Missing)
    → IsVfs s.vfs
    → s.vfs.nodes cur ≡ some n
    → IsElem s.temp_buffer
    → (s' : Missing) × (add_under ops fs_root cur s ≡ some s') × Stepped s cur s'
unfolding add_under
add_under-Stepped ops fs_root cur n s w at elem =
    elim (search_node_name_or s.vfs cur n s.temp_buffer w at) [
      | inl (e, distinct) ↦
          let new_node = (vfs_new_node s.temp_buffer ops s.vfs).0 in
          let (v2, v', e2, e', keeps, child) =
            new_child s.vfs s.temp_buffer ops fs_root cur n w at elem distinct in
          (
            record s { first_missing = keep_first s.first_missing new_node; vfs = v' },
            rw (e, e2, e') refl,
            record {
              keeps = keeps;
              end = new_node;
              child = child;
              temp_buffer = refl;
              current_full_path = refl;
              keeps_first = record {
                kept = λ a before. rw before refl;
                made =
                    λ before. inr (rw before (ap some (vfs_new_node-next s.temp_buffer ops s.vfs)));
              };
            },
          )
      | inr (i, c, m, h, same, e) ↦ (
        s,
        rw e refl,
        record {
          keeps = Keeps-self s.vfs w;
          end = c;
          child = subst (λ x. Under s.vfs cur (x ∷ []) c) same (down cur i c m [] c h (here c));
          temp_buffer = refl;
          current_full_path = refl;
          keeps_first = record { kept = λ a before. before; made = λ before. inl (before, refl) };
        },
      )
    ]
