-- ===== src/Vfs/Adding.antt =====
-- What `vfs_add_child` (src/fs/vfs/vfs.c) changes.
use drip_os.Prelude.{
  ℕ, ◌≡◌, ◌≢◌, refl, sym, ap, ◌∙◌, true, false, if◌then◌else◌, Option, none, some, none≢some,
  some-injective, subst, List, ◌∷◌, ◌==◌, arith, Bool-cases, inl, inr, ◌⊎◌, ==_iff, ℕ_discrete, set,
}
use drip_os.ProcessTable.{slot_at, claim_slot}
use drip_os.ProcessTable.Slots.{claim_slot-Claimed, slot_at-set}
use drip_os.Vfs.{Text, Node, Vfs, put_node, vfs_add_child}
use drip_os.Vfs.Likeness.{put_node_self, put_node_other}
use drip_os.Vfs.Walk.{IsChild, Under, here, down}

-- Node `c`, which was `m`, has become a child of `p`, which was `n`, in place `i`.
pub record Added (v : Vfs) (p : ℕ) (n : Node) (c : ℕ) (m : Node) (i : ℕ) (v' : Vfs) : Type 0 where
  pub before_parent : v.nodes p ≡ some n
  pub before_child : v.nodes c ≡ some m
  pub grown : List (Option ℕ)
  pub at_parent : v'.nodes p ≡ some (record n { children = grown })
  pub at_child : v'.nodes c ≡ some (record m { parent = some p })
  pub others : (b : ℕ) → b ≢ p → b ≢ c → v'.nodes b ≡ v.nodes b
  pub next : v'.next_node ≡ v.next_node
  pub root : v'.root_node ≡ v.root_node
  pub empty : slot_at n.children i ≡ none
  pub slots : (j : ℕ) → slot_at grown j ≡ (if i == j then some c else slot_at n.children j)

pub vfs_add_child-Added :
    (v : Vfs) (p : ℕ) (n : Node) (c : ℕ) (m : Node)
    → v.nodes p ≡ some n
    → v.nodes c ≡ some m
    → p ≢ c
    → (i : ℕ) × (v' : Vfs) × (vfs_add_child p c v ≡ some v') × Added v p n c m i v'
unfolding vfs_add_child put_node
vfs_add_child-Added v p n c m at_p at_c ne =
    let claimed = claim_slot-Claimed n.children in
    let i = (claim_slot n.children).0 in
    let grown = set ((claim_slot n.children).1) i (some c) in
    let between = put_node p (record n { children = grown }) v in
    let kept : between.nodes c ≡ some m =
      put_node_other v p c (record n { children = grown }) (λ e. ne (sym e)) ∙ at_c in
    let v' = put_node c (record m { parent = some p }) between in
    (
      i,
      v',
      rw at_p (rw kept refl),
      record {
        before_parent = at_p;
        before_child = at_c;
        grown = grown;
        at_parent =
            put_node_other between c p (record m { parent = some p }) ne
            ∙ put_node_self v p (record n { children = grown });
        at_child = put_node_self between c (record m { parent = some p });
        others = λ b ne_p ne_c.
            put_node_other between c b (record m { parent = some p }) ne_c
            ∙ put_node_other v p b (record n { children = grown }) ne_p;
        next = refl;
        root = refl;
        empty = claimed.empty;
        slots = λ j.
            slot_at-set _ i j (some c) claimed.inside
            ∙ ap (λ o. if i == j then some c else o) (claimed.kept j);
      },
    )

-- What the addition makes of a node.
module _ {v : Vfs} {p : ℕ} {n : Node} {c : ℕ} {m : Node} {i : ℕ} {v' : Vfs}
    (added : Added v p n c m i v') where
  -- A node before and after.
  pub record Moved (b : ℕ) (k k' : Node) : Type 0 where
    pub before : v.nodes b ≡ some k
    pub after : v'.nodes b ≡ some k'
    pub name : k'.name ≡ k.name
    pub parent : b ≢ c → k'.parent ≡ k.parent
    pub kept : (j d : ℕ) → slot_at k.children j ≡ some d → slot_at k'.children j ≡ some d
    pub entered :
        (j d : ℕ)
        → slot_at k'.children j ≡ some d
        → (slot_at k.children j ≡ some d) ⊎ ((b ≡ p) × (j ≡ i) × (d ≡ c))

  Moved-parent : Moved p n (record n { children = added.grown })
  Moved-parent = record {
    before = added.before_parent;
    after = added.at_parent;
    name = refl;
    parent = λ _. refl;
    kept = λ j d e.
        let other : (i == j) ≡ false = elim (Bool-cases (i == j)) [
          | inl same ↦
              let i_j = (==_iff i j).0 same in
              absurd (none≢some (sym added.empty ∙ ap (slot_at n.children) i_j ∙ e))
          | inr other ↦ other
        ] in
        added.slots j ∙ rw other e;
    entered = λ j d e. elim (Bool-cases (i == j)) [
      | inl same ↦
          inr
            (refl, sym ((==_iff i j).0 same), some-injective (sym e ∙ added.slots j ∙ rw same refl))
      | inr other ↦ inl (sym (added.slots j ∙ rw other refl) ∙ e)
    ];
  }

  Moved-child : Moved c m (record m { parent = some p })
  Moved-child = record {
    before = added.before_child;
    after = added.at_child;
    name = refl;
    parent = λ other. absurd (other refl);
    kept = λ j d e. e;
    entered = λ j d e. inl e;
  }

  Moved-other : (b : ℕ) (k : Node) → b ≢ p → b ≢ c → v.nodes b ≡ some k → Moved b k k
  Moved-other b k ne_p ne_c at = record {
    before = at;
    after = added.others b ne_p ne_c ∙ at;
    name = refl;
    parent = λ _. refl;
    kept = λ j d e. e;
    entered = λ j d e. inl e;
  }

  pub Moved-forth : (b : ℕ) (k : Node) → v.nodes b ≡ some k → (k' : Node) × Moved b k k'
  Moved-forth b k at = elim (ℕ_discrete b p) [
    | yes e ↦
        let one : n ≡ k = some-injective (sym added.before_parent ∙ ap v.nodes (sym e) ∙ at) in
        (record n { children = added.grown }, rw (e, sym one) Moved-parent)
    | no ne_p ↦ elim (ℕ_discrete b c) [
      | yes e ↦
          let one : m ≡ k = some-injective (sym added.before_child ∙ ap v.nodes (sym e) ∙ at) in
          (record m { parent = some p }, rw (e, sym one) Moved-child)
      | no ne_c ↦ (k, Moved-other b k ne_p ne_c at)
    ]
  ]

  pub Moved-back : (b : ℕ) (k' : Node) → v'.nodes b ≡ some k' → (k : Node) × Moved b k k'
  Moved-back b k' at = elim (ℕ_discrete b p) [
    | yes e ↦
        let one : record n { children = added.grown } ≡ k' =
          some-injective (sym added.at_parent ∙ ap v'.nodes (sym e) ∙ at) in
        (n, rw (e, sym one) Moved-parent)
    | no ne_p ↦ elim (ℕ_discrete b c) [
      | yes e ↦
          let one : record m { parent = some p } ≡ k' =
            some-injective (sym added.at_child ∙ ap v'.nodes (sym e) ∙ at) in
          (m, rw (e, sym one) Moved-child)
      | no ne_c ↦ (k', Moved-other b k' ne_p ne_c (sym (added.others b ne_p ne_c) ∙ at))
    ]
  ]

  -- The children there were stay.
  Added-forth :
      (a j d : ℕ) (k : Node)
      → IsChild v a j d k
      → (k' : Node) × IsChild v' a j d k' × (k'.name ≡ k.name)
  Added-forth a j d k h =
      let (parent, moved) = Moved-forth a h.parent h.parent_at in
      let (k', moved') = Moved-forth d k h.node_at in
      (
        k',
        record {
          parent = parent;
          parent_at = moved.after;
          in_place = moved.kept j d h.in_place;
          node_at = moved'.after;
        },
        moved'.name,
      )

  pub Added-Under : (a b : ℕ) (names : List Text) → Under v a names b → Under v' a names b
  Added-Under a b names (here _) = here a
  Added-Under a b names (down _ j d k names' _ h under) =
      let (k', h', same) = Added-forth a j d k h in
      subst (λ x. Under v' a (x ∷ names') b) same
        (down a j d k' names' b h' (Added-Under d b names' under))

  -- The new child.
  pub Added-new : IsChild v' p i c (record m { parent = some p })
  Added-new =
      let same : (i == i) ≡ true = ground arith in
      record {
        parent = record n { children = added.grown };
        parent_at = added.at_parent;
        in_place = added.slots i ∙ rw same refl;
        node_at = added.at_child;
      }

  -- A child afterwards is the new one or was one before.
  pub Added-back :
      (a j d : ℕ) (k' : Node)
      → IsChild v' a j d k'
      → ((a ≡ p) × (j ≡ i) × (d ≡ c) × (k'.name ≡ m.name))
        ⊎ ((k : Node) × IsChild v a j d k × (k'.name ≡ k.name))
  Added-back a j d k' h =
      let (parent, moved) = Moved-back a h.parent h.parent_at in
      let (k, moved') = Moved-back d k' h.node_at in
      elim (moved.entered j d h.in_place) [
        | inl e ↦ inr (
          k,
          record {
            parent = parent;
            parent_at = moved.before;
            in_place = e;
            node_at = moved'.before;
          },
          moved'.name,
        )
        | inr (a_p, j_i, d_c) ↦
            let one : m ≡ k =
              some-injective (sym added.before_child ∙ ap v.nodes (sym d_c) ∙ moved'.before) in
            inl (a_p, j_i, d_c, moved'.name ∙ ap (λ x. x.name) (sym one))
      ]
