-- ===== src/Vmm/Ensure.antt =====
-- `vmm_ensure_table` (src/mm/vmm.c) on a tree of page tables.
use drip_os.Prelude.{
  ℕ, suc, ◌+◌, ◌-◌, ◌*◌, ◌^◌, ◌≤◌, ◌<◌, ◌≡◌, refl, sym, ap, ◌∙◌, subst, true, false, ◌&&◌, some,
  if◌then◌else◌, ◌==◌, arith, Bool-cases, inl, inr, ==_iff, false≢true,
}
use drip_os.Pmm.{Pmm, is_free}
use drip_os.Vmm.{
  Vmm, higher_half, is_present, is_huge, frame_of, traverse_page_table, set_entry, fill_table,
  table_entry, ensure_table,
}
use drip_os.Vmm.Bits.{bit_or-below}
use drip_os.Vmm.Tree.{IsTree, IsChild, Fresh, fresh, free_pages}

-- A tree that has grown: old tables have their level, and entries that were present stay, as do
-- all entries of the lowest tables.
pub record Grown (s s' : Vmm) (root : ℕ) (level level' : ℕ → ℕ) (parent' : ℕ → ℕ × ℕ) : Type 0 where
  pub tree : IsTree s' root level' parent'
  pub levels : (t : ℕ) → 0 < level t → level' t ≡ level t
  pub kept :
      (t i : ℕ) → 0 < level t → is_present (s.tables t i) ≡ true → s'.tables t i ≡ s.tables t i
  pub leaves : (t i : ℕ) → level t ≡ 1 → s'.tables t i ≡ s.tables t i

table_entry-sum : (q : ℕ) → table_entry (q * 0x1000) ≡ q * 0x1000 + 7
table_entry-sum q = bit_or-below 12 q 7 (omega arith)

-- The state once a page has been made a table behind entry `i` of table `t`.
abbrev linked : Vmm → Pmm → ℕ → ℕ → ℕ → Vmm
linked s p' t i q =
    set_entry (fill_table (record s { pmm = p' }) (higher_half (q * 0x1000)) (λ j. 0)) t i
      (table_entry (q * 0x1000))

not_entry :
    (s : Vmm) (t i x j : ℕ)
    → is_present (s.tables t i) ≡ false
    → is_present (s.tables x j) ≡ true
    → ((x == t) && (j == i)) ≡ false
not_entry s t i x j absent present = elim (Bool-cases ((x == t) && (j == i))) [
  | inl e ↦
      let at : x ≡ t = (==_iff x t).0 (ground arith) in
      let index : j ≡ i = (==_iff j i).0 (ground arith) in
      absurd (
        false≢true (
          sym absent
          ∙ subst (λ y. is_present (s.tables t y) ≡ true) index
              (subst (λ y. is_present (s.tables y j) ≡ true) at present)))
  | inr e ↦ e
]

module _ (s : Vmm) (root : ℕ) (level : ℕ → ℕ) (parent : ℕ → ℕ × ℕ)
    (tree : IsTree s root level parent) (t i q : ℕ) (p' : Pmm) (f : Fresh s.pmm p' q)
    (upper : 1 < level t) (low : i < 512) (absent : is_present (s.tables t i) ≡ false) where
  abbrev new : ℕ
  new = higher_half (q * 0x1000)

  -- The new table is none of the old.
  new_table : level new ≡ 0
  new_table = elim (Bool-cases (level new == 0)) [
    | inl e ↦ (==_iff (level new) 0).0 e
    | inr e ↦
        let (x, pos, lt, at, used) = tree.page new (ground arith) in
        let same : q ≡ x = omega (arith, at, lt, f.below, tree.small) in
        absurd (false≢true (sym used ∙ subst (λ y. is_free s.pmm.bitmap y ≡ true) same f.free))
  ]

  old : (x : ℕ) → 0 < level x → (x == new) ≡ false
  old x h = elim (Bool-cases (x == new)) [
    | inl e ↦
        absurd (omega (arith, h, subst (λ y. level y ≡ 0) (sym ((==_iff x new).0 e)) new_table))
    | inr e ↦ e
  ]

  abbrev level' : ℕ → ℕ
  level' x = if x == new then level t - 1 else level x

  abbrev parent' : ℕ → ℕ × ℕ
  parent' x = if x == new then (t, i) else parent x

  abbrev after : Vmm
  after = linked s p' t i q

  at_new : after.tables t i ≡ q * 0x1000 + 7
  at_new = rw ((==_iff t t).1 refl, (==_iff i i).1 refl) (table_entry-sum q)

  frame_new : frame_of (q * 0x1000 + 7) ≡ q * 0x1000
  frame_new = omega arith

  traverse_new : traverse_page_table after t i ≡ new
  traverse_new = ap (λ e. higher_half (frame_of e)) at_new ∙ ap higher_half frame_new

  elsewhere :
      (x j : ℕ) → 0 < level x → ((x == t) && (j == i)) ≡ false → after.tables x j ≡ s.tables x j
  elsewhere x j h e = rw (e, old x h) refl

  IsChild-new : IsChild after level' parent' t i
  IsChild-new = (
    ap is_huge at_new ∙ ground arith,
    ap (λ c. suc (level' c)) traverse_new
        ∙ rw ((==_iff new new).1 refl, old t (omega (arith, upper))) (omega (arith, upper)),
    ap parent' traverse_new ∙ rw ((==_iff new new).1 refl) refl,
  )

  IsChild-old :
      (x j : ℕ)
      → 1 < level x
      → j < 512
      → ((x == t) && (j == i)) ≡ false
      → is_present (after.tables x j) ≡ true
      → IsChild after level' parent' x j
  IsChild-old x j h lt e present =
      let at = elsewhere x j (omega (arith, h)) e in
      let same : traverse_page_table after x j ≡ traverse_page_table s x j =
        ap (λ v. higher_half (frame_of v)) at in
      let (huge, down, place) = tree.child x j h lt (sym (ap is_present at) ∙ present) in
      let below : 0 < level (traverse_page_table s x j) = omega (arith, down, h) in
      let kept = old (traverse_page_table s x j) below in
      (
        ap is_huge at ∙ huge,
        ap (λ c. suc (level' c)) same ∙ rw (kept, old x (omega (arith, h))) down,
        ap parent' same ∙ rw kept place,
      )

  -- The new table is empty.
  child_none :
      (x j : ℕ)
      → (x == new) ≡ true
      → ((x == t) && (j == i)) ≡ false
      → is_present (after.tables x j) ≡ false
  child_none x j e e' = rw (e, e') refl

  IsChild-after :
      (x j : ℕ)
      → 1 < level' x
      → j < 512
      → is_present (after.tables x j) ≡ true
      → IsChild after level' parent' x j
  IsChild-after x j h lt present = elim (Bool-cases ((x == t) && (j == i))) [
    | inl e ↦
        let at : x ≡ t = (==_iff x t).0 (ground arith) in
        let index : j ≡ i = (==_iff j i).0 (ground arith) in
        subst (λ y. IsChild after level' parent' y j) (sym at)
          (subst (λ y. IsChild after level' parent' t y) (sym index) IsChild-new)
    | inr e ↦ elim (Bool-cases (x == new)) [
      | inl e' ↦ absurd (false≢true (sym (child_none x j e' e) ∙ present))
      | inr e' ↦
          IsChild-old x j (subst (λ b. 1 < (if b then level t - 1 else level x)) e' h) lt e present
    ]
  ]

  page_after :
      (x : ℕ)
      → 0 < level' x
      → (y : ℕ) × (0 < y)
        × (y < 2 ^ 35)
        × (x ≡ higher_half (y * 0x1000))
        × (is_free p'.bitmap y ≡ false)
  page_after x h = elim (Bool-cases (x == new)) [
    | inl e ↦ (
      q,
      f.positive,
      omega (arith, f.below, tree.small),
      (==_iff x new).0 e,
      f.others q ∙ rw ((==_iff q q).1 refl) (ground arith),
    )
    | inr e ↦
        let (y, pos, lt, at, used) =
          tree.page x (subst (λ b. 0 < (if b then level t - 1 else level x)) e h) in
        (y, pos, lt, at, f.others y ∙ rw used refl)
  ]

  lower_table : (x j : ℕ) → level x ≡ 1 → ((x == t) && (j == i)) ≡ false
  lower_table x j e = elim (Bool-cases ((x == t) && (j == i))) [
    | inl h ↦
        let at : x ≡ t = (==_iff x t).0 (ground arith) in
        absurd (omega (arith, upper, subst (λ y. level y ≡ 1) at e))
    | inr h ↦ h
  ]

  linked-Grown : Grown s after root level level' parent'
  linked-Grown = record {
    tree = record {
      valid = f.valid;
      small = omega (arith, f.same_size, tree.small);
      root_level = rw (old root (omega (arith, tree.root_level))) tree.root_level;
      page = page_after;
      child = IsChild-after;
    };
    levels = λ x h. rw (old x h) refl;
    kept = λ x j h present. elsewhere x j h (not_entry s t i x j absent present);
    leaves = λ x j e. elsewhere x j (omega (arith, e)) (lower_table x j e);
  }

-- What making sure of a table gives.
pub record Ensured (s s' : Vmm) (root : ℕ) (level : ℕ → ℕ) (t i : ℕ) : Type 0 where
  pub level' : ℕ → ℕ
  pub parent' : ℕ → ℕ × ℕ
  pub grown : Grown s s' root level level' parent'
  pub present : is_present (s'.tables t i) ≡ true
  pub room : free_pages s.pmm ≤ free_pages s'.pmm + 1

-- Making sure of a table behind an entry of an upper table.
pub ensure_table-Ensured :
    (s : Vmm) (root : ℕ) (level : ℕ → ℕ) (parent : ℕ → ℕ × ℕ) (t i : ℕ)
    → IsTree s root level parent
    → 1 < level t
    → i < 512
    → 0 < free_pages s.pmm
    → (s' : Vmm) × (ensure_table s t i ≡ some s') × Ensured s s' root level t i
unfolding ensure_table
ensure_table-Ensured s root level parent t i tree upper low room =
    elim (Bool-cases (is_present (s.tables t i))) [
      | inl e ↦ (
        s,
        rw e refl,
        record {
          level' = level;
          parent' = parent;
          grown = record {
            tree = tree;
            levels = λ x h. refl;
            kept = λ x j h present. refl;
            leaves = λ x j e. refl;
          };
          present = e;
          room = omega arith;
        },
      )
      | inr e ↦
          let (q, p', f) = fresh s.pmm tree.valid room in
          (
            linked s p' t i q,
            rw (e, f.runs) refl,
            record {
              level' = level' s root level parent tree t i q p' f upper low e;
              parent' = parent' s root level parent tree t i q p' f upper low e;
              grown = linked-Grown s root level parent tree t i q p' f upper low e;
              present =
                  ap is_present (at_new s root level parent tree t i q p' f upper low e)
                  ∙ ground arith;
              room = omega (arith, f.fewer);
            },
          )
    ]
