-- ===== src/Vfs/Likeness.antt =====
-- Trees of nodes (src/fs/vfs/vfs.c) that differ in the operations and file systems of their nodes
-- only.
use drip_os.Prelude.{
  ℕ, ◌≡◌, ◌≢◌, refl, sym, ap, ◌∙◌, true, false, Option, some, none≢some, some-injective, subst,
  List, ◌∷◌, ◌==◌, arith, Option-cases, inl, inr, ℕ_discrete,
}
use drip_os.Vfs.{Text, Node, Vfs, put_node, set_fs_root}
use drip_os.Vfs.Walk.{IsChild, IsVfs, Under, here, down}

-- The parts of a node that make the tree.
pub record Alike (n n' : Node) : Type 0 where
  pub name : n'.name ≡ n.name
  pub parent : n'.parent ≡ n.parent
  pub children : n'.children ≡ n.children

-- The nodes of the one have counterparts in the other.
abbrev pub Covers : Vfs → Vfs → Type 0
Covers v v' =
    (a : ℕ) (n : Node) → v.nodes a ≡ some n → (n' : Node) × (v'.nodes a ≡ some n') × Alike n n'

pub record Like (v v' : Vfs) : Type 0 where
  pub forth : Covers v v'
  pub back : Covers v' v
  pub next : v'.next_node ≡ v.next_node
  pub root : v'.root_node ≡ v.root_node

pub Alike-self : (n : Node) → Alike n n
Alike-self n = record { name = refl; parent = refl; children = refl }

pub Like-self : (v : Vfs) → Like v v
Like-self v = record {
  forth = λ a n at. (n, at, Alike-self n);
  back = λ a n at. (n, at, Alike-self n);
  next = refl;
  root = refl;
}

pub Covers-trans : (u v w : Vfs) → Covers u v → Covers v w → Covers u w
Covers-trans u v w f g a n at =
    let (m, at_m, like) = f a n at in
    let (k, at_k, like') = g a m at_m in
    (
      k,
      at_k,
      record {
        name = like'.name ∙ like.name;
        parent = like'.parent ∙ like.parent;
        children = like'.children ∙ like.children;
      },
    )

pub Like-trans : (u v w : Vfs) → Like u v → Like v w → Like u w
Like-trans u v w l l' = record {
  forth = Covers-trans u v w l.forth l'.forth;
  back = Covers-trans w v u l'.back l.back;
  next = l'.next ∙ l.next;
  root = l'.root ∙ l.root;
}

pub IsChild-Covers :
    (v v' : Vfs) (a i c : ℕ) (m : Node)
    → Covers v v'
    → IsChild v a i c m
    → (m' : Node) × IsChild v' a i c m' × (m'.name ≡ m.name)
IsChild-Covers v v' a i c m f h =
    let (p, at_p, like) = f a h.parent h.parent_at in
    let (m', at', like') = f c m h.node_at in
    (
      m',
      record {
        parent = p;
        parent_at = at_p;
        in_place = rw like.children h.in_place;
        node_at = at';
      },
      like'.name,
    )

pub Under-Covers :
    (v v' : Vfs) (a b : ℕ) (names : List Text)
    → Covers v v'
    → Under v a names b
    → Under v' a names b
Under-Covers v v' a b names f (here _) = here a
Under-Covers v v' a b names f (down _ i c m names' _ h under) =
    let (m', h', same) = IsChild-Covers v v' a i c m f h in
    subst (λ n. Under v' a (n ∷ names') b) same
      (down a i c m' names' b h' (Under-Covers v v' c b names' f under))

-- The invariant looks at the parts that make the tree only.
pub IsVfs-Like : (v v' : Vfs) → Like v v' → IsVfs v → IsVfs v'
IsVfs-Like v v' l w = record {
  root =
      let (r, at) = w.root in let (r', at', like) = l.forth v.root_node r at in (r', rw l.root at');
  oldest = λ a n at. let (m, at', like) = l.back a n at in rw l.root (w.oldest a m at');
  fresh = λ a le. elim (Option-cases (v'.nodes a)) [
    | inl e ↦ e
    | inr (n, e) ↦
        let (m, at', like) = l.back a n e in
        absurd (none≢some (sym (w.fresh a (rw (sym l.next) le)) ∙ at'))
  ];
  child = λ a i c n at e.
      let (p, at_p, like) = l.back a n at in
      let (m, at_m, up, elem, young) = w.child a i c p at_p (rw like.children e) in
      let (m', at_m', like') = l.forth c m at_m in
      (m', at_m', like'.parent ∙ up, rw like'.name elem, young);
  apart = λ a i j c d m m' h h' same.
      let (n, k, e) = IsChild-Covers v' v a i c m l.back h in
      let (n', k', e') = IsChild-Covers v' v a j d m' l.back h' in
      w.apart a i j c d n n' k k' (e ∙ same ∙ sym e');
}

pub put_node_self : (v : Vfs) (a : ℕ) (node : Node) → (put_node a node v).nodes a ≡ some node
unfolding put_node
put_node_self v a node = let same : (a == a) ≡ true = ground arith in rw same refl

pub put_node_other :
    (v : Vfs) (a b : ℕ) (node : Node) → b ≢ a → (put_node a node v).nodes b ≡ v.nodes b
unfolding put_node
put_node_other v a b node ne = let other : (b == a) ≡ false = ground (arith, ne) in rw other refl

-- Writing a node that makes the same part of the tree.
pub put_node-Like :
    (v : Vfs) (a : ℕ) (n n' : Node) → v.nodes a ≡ some n → Alike n n' → Like v (put_node a n' v)
unfolding put_node
put_node-Like v a n n' at like = record {
  forth = λ b m at_b. elim (ℕ_discrete b a) [
    | yes e ↦
        let one : m ≡ n = some-injective (sym at_b ∙ ap v.nodes e ∙ at) in
        (n', rw e (put_node_self v a n'), rw one like)
    | no ne ↦ (m, put_node_other v a b n' ne ∙ at_b, Alike-self m)
  ];
  back = λ b m at_b. elim (ℕ_discrete b a) [
    | yes e ↦
        let one : m ≡ n' =
          some-injective (sym at_b ∙ ap (put_node a n' v).nodes e ∙ put_node_self v a n') in
        (
          n,
          rw e at,
          rw one (record {
            name = sym like.name;
            parent = sym like.parent;
            children = sym like.children;
          }),
        )
    | no ne ↦ (m, sym (put_node_other v a b n' ne) ∙ at_b, Alike-self m)
  ];
  next = refl;
  root = refl;
}

pub set_fs_root-Like :
    (v : Vfs) (a : ℕ) (n : Node) (fs_root : Option ℕ)
    → v.nodes a ≡ some n
    → (v' : Vfs) × (set_fs_root a fs_root v ≡ some v') × Like v v'
unfolding set_fs_root
set_fs_root-Like v a n fs_root at = (
  put_node a (record n { fs_root = fs_root }) v,
  rw at refl,
  put_node-Like v a n (record n { fs_root = fs_root }) at
      (record { name = refl; parent = refl; children = refl }),
)
