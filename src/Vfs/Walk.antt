-- ===== src/Vfs/Walk.antt =====
-- The well-formed trees of nodes (src/fs/vfs/vfs.c), and walks in them.
use drip_os.Prelude.{
  ℕ, ◌+◌, ◌≤◌, ◌<◌, ◌≡◌, ◌⊎◌, refl, sym, ap, ◌∙◌, Option, none, some, some-injective, subst, List,
  [], ◌∷◌, arith, Option-cases, inl, inr,
}
use drip_os.ProcessTable.{slot_at}
use drip_os.Vfs.{Text, Node, Vfs, search_from, search_node_name, walk}
use drip_os.Vfs.Search.{search_from_at, search_from-Answer, AreNodes, NoneNamed}
use drip_os.Vfs.Split.{IsElem}

-- Node `c`, which is `m`, is in place `i` of the children of `a`.
pub record IsChild (v : Vfs) (a i c : ℕ) (m : Node) : Type 0 where
  pub parent : Node
  pub parent_at : v.nodes a ≡ some parent
  pub in_place : slot_at parent.children i ≡ some c
  pub node_at : v.nodes c ≡ some m

-- The root exists and is the oldest node; nodes not given out do not exist; a child is an allocated
-- node with a name, knows its parent, and is younger; siblings have different names.
pub record IsVfs (v : Vfs) : Type 0 where
  pub root : (r : Node) × (v.nodes v.root_node ≡ some r)
  pub oldest : (a : ℕ) (n : Node) → v.nodes a ≡ some n → v.root_node ≤ a
  pub fresh : (a : ℕ) → v.next_node ≤ a → v.nodes a ≡ none
  pub child :
      (a i c : ℕ) (n : Node)
      → v.nodes a ≡ some n
      → slot_at n.children i ≡ some c
      → (m : Node) × (v.nodes c ≡ some m) × (m.parent ≡ some a) × IsElem m.name × (a < c)
  pub apart :
      (a i j c d : ℕ) (m m' : Node)
      → IsChild v a i c m
      → IsChild v a j d m'
      → m.name ≡ m'.name
      → i ≡ j

pub zero_plus : (i : ℕ) → 0 + i ≡ i
zero_plus i = omega arith

-- The children of a node of the tree are nodes.
pub IsVfs-AreNodes :
    (v : Vfs) (a : ℕ) (n : Node) → IsVfs v → v.nodes a ≡ some n → AreNodes v n.children
IsVfs-AreNodes v a n w at k c e = let (m, at', up, elem, young) = w.child a k c n at e in (m, at')

pub search_node_name_at :
    (v : Vfs) (a i c : ℕ) (m : Node)
    → IsVfs v
    → IsChild v a i c m
    → search_node_name v a m.name ≡ some (some i)
unfolding search_node_name
search_node_name_at v a i c m w h =
    rw (h.parent_at, ← zero_plus i)
      (search_from_at v h.parent.children 0 i c m (IsVfs-AreNodes v a h.parent w h.parent_at)
        h.in_place h.node_at
        (λ j d m' lt e at same.
          let other : IsChild v a j d m' = record {
            parent = h.parent;
            parent_at = h.parent_at;
            in_place = e;
            node_at = at;
          } in
          let j_i = w.apart a j i d c m' m other h same in absurd (omega (arith, lt, j_i))))

-- Either no child has the name, or the search finds the one that has it.
pub search_node_name_or :
    (v : Vfs) (a : ℕ) (n : Node) (name : Text)
    → IsVfs v
    → v.nodes a ≡ some n
    → ((search_node_name v a name ≡ some none) × NoneNamed v n.children name)
      ⊎ ((i c : ℕ) × (m : Node) × (IsChild v a i c m)
          × (m.name ≡ name)
          × (search_node_name v a name ≡ some (some i)))
unfolding search_node_name
search_node_name_or v a n name w at =
    let answer = search_from-Answer v n.children name 0 (IsVfs-AreNodes v a n w at) in
    rw at (elim (Option-cases (search_from v n.children name 0)) [
      | inl e ↦ absurd (rw e at answer)
      | inr (none, e) ↦ inl (e, rw e at answer)
      | inr (some i, e) ↦
          let (k, c, m, i_k, here, node, same) = rw e at answer in
          inr (
            k,
            c,
            m,
            record { parent = n; parent_at = at; in_place = here; node_at = node },
            same,
            e ∙ ap (λ j. some (some j)) (i_k ∙ zero_plus k),
          )
    ])

-- The step to a child.
pub walk-child :
    (v : Vfs) (a i c : ℕ) (m : Node) (names : List Text)
    → IsVfs v
    → IsChild v a i c m
    → walk v a (m.name ∷ names) ≡ walk v c names
unfolding walk
walk-child v a i c m names w h =
    rw (search_node_name_at v a i c m w h, h.parent_at, h.in_place) refl

-- Node `b` is under `a`, with the names of the nodes on the way.
pub data Under (v : Vfs) : ℕ → List Text → ℕ → Type 0 where
  here : (a : ℕ) → Under v a [] a
  down :
      (a i c : ℕ) (m : Node) (names : List Text) (b : ℕ)
      → IsChild v a i c m
      → Under v c names b
      → Under v a (m.name ∷ names) b

pub walk-Under :
    (v : Vfs) (a b : ℕ) (names : List Text)
    → IsVfs v
    → Under v a names b
    → walk v a names ≡ some (some b)
unfolding walk
walk-Under v a b names w (here _) = refl
walk-Under v a b names w (down _ i c m names' _ h under) =
    walk-child v a i c m names' w h ∙ walk-Under v c b names' w under

-- What a walk on a well-formed tree answers.
abbrev pub Walked : Vfs → ℕ → List Text → Option (Option ℕ) → Type 0
Walked v a names none = ⊥
Walked v a names (some none) = (b : ℕ) → ¬ (Under v a names b)
Walked v a names (some (some b)) = Under v a names b

Under-names :
    (v : Vfs) (a b : ℕ) (name : Text) (names : List Text)
    → Under v a (name ∷ names) b
    → (i c : ℕ) × (m : Node) × (IsChild v a i c m) × (m.name ≡ name) × (Under v c names b)
Under-names v a b name names (down _ i c m _ _ h under) = (i, c, m, h, refl, under)

-- Siblings with one name are one node.
pub IsChild-same :
    (v : Vfs) (a i j c d : ℕ) (m m' : Node)
    → IsVfs v
    → IsChild v a i c m
    → IsChild v a j d m'
    → m.name ≡ m'.name
    → c ≡ d
IsChild-same v a i j c d m m' w h h' same =
    let i_j = w.apart a i j c d m m' h h' same in
    let one : h.parent ≡ h'.parent = some-injective (sym h.parent_at ∙ h'.parent_at) in
    some-injective (
      sym h.in_place
      ∙ ap (λ p. slot_at p.children i) one
      ∙ ap (slot_at h'.parent.children) i_j
      ∙ h'.in_place)

Walked-down :
    (v : Vfs) (a i c : ℕ) (m : Node) (name : Text) (names : List Text) (o : Option (Option ℕ))
    → IsVfs v
    → IsChild v a i c m
    → m.name ≡ name
    → Walked v c names o
    → Walked v a (name ∷ names) o
Walked-down v a i c m name names none w h same walked = walked
Walked-down v a i c m name names (some none) w h same walked = λ b under.
    let (j, d, m', h', same', rest) = Under-names v a b name names under in
    let one = IsChild-same v a i j c d m m' w h h' (same ∙ sym same') in walked b (rw one rest)
Walked-down v a i c m name names (some (some b)) w h same walked =
    subst (λ n. Under v a (n ∷ names) b) same (down a i c m names b h walked)

-- In a well-formed tree a walk from a node never fails: it ends at the node that the names lead
-- to, and at null exactly if they lead to none.
pub walk-Walked :
    (v : Vfs) (a : ℕ) (n : Node) (names : List Text)
    → IsVfs v
    → v.nodes a ≡ some n
    → Walked v a names (walk v a names)
unfolding walk
walk-Walked v a n [] w at = here a
walk-Walked v a n (name ∷ names) w at = elim (search_node_name_or v a n name w at) [
  | inl (e, other) ↦ rw e (λ b under.
      let (i, c, m, h, same, rest) = Under-names v a b name names under in
      let n_parent : h.parent ≡ n = some-injective (sym h.parent_at ∙ at) in
      other i c m (rw n_parent at h.in_place) h.node_at same)
  | inr (i, c, m, h, same, e) ↦
      rw (e, h.parent_at, h.in_place)
        (Walked-down v a i c m name names _ w h same (walk-Walked v c m names w h.node_at))
]
