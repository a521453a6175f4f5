-- ===== src/Vmm/Walk.antt =====
-- `vmm_get_table` and `virt_to_phys` (src/mm/vmm.c) on a tree of page tables.
use drip_os.Prelude.{
  ℕ, suc, ◌%◌, ◌<◌, ◌≡◌, refl, sym, ap, ◌∙◌, subst, true, if◌then◌else◌, arith, ltb, add64,
}
use drip_os.Vmm.{
  Vmm, PtOff, higher_half, normal_vma_offset, no_address, is_present, frame_of, traverse_page_table,
  virt_to_offs, page_to_phys, directory_to_phys, virt_to_phys,
}
use drip_os.Vmm.Tree.{IsTree}
use drip_os.Vmm.Ensure.{Grown}

abbrev pub AreIndices : PtOff → Type 0
AreIndices offs =
    (offs.p4_off < 512) × (offs.p3_off < 512) × (offs.p2_off < 512) × (offs.p1_off < 512)

pub virt_to_offs-AreIndices : (addr : ℕ) → AreIndices (virt_to_offs addr)
unfolding virt_to_offs
virt_to_offs-AreIndices addr = (omega arith, omega arith, omega arith, omega arith)

-- A present entry and the table that it leads to.
abbrev pub Leads : Vmm → ℕ → ℕ → ℕ → Type 0
Leads s t i c = (is_present (s.tables t i) ≡ true) × (traverse_page_table s t i ≡ c)

-- The tables from the root down for four indices.
abbrev pub IsWalk : Vmm → ℕ → PtOff → ℕ → ℕ → ℕ → Type 0
IsWalk s root offs p3 p2 p1 =
    Leads s root offs.p4_off p3 × Leads s p3 offs.p3_off p2 × Leads s p2 offs.p2_off p1

pub Leads-same :
    (s s' : Vmm) (t i c : ℕ) → s'.tables t i ≡ s.tables t i → Leads s t i c → Leads s' t i c
Leads-same s s' t i c e (present, at) =
    (ap is_present e ∙ present, ap (λ v. higher_half (frame_of v)) e ∙ at)

module _ (s : Vmm) (root : ℕ) (level : ℕ → ℕ) (parent : ℕ → ℕ × ℕ)
    (tree : IsTree s root level parent) where
  pub Leads-level :
      (t i c n : ℕ) → level t ≡ suc (suc n) → i < 512 → Leads s t i c → level c ≡ suc n
  Leads-level t i c n h lt (present, at) =
      let (huge, down, place) = tree.child t i (omega (arith, h)) lt present in
      subst (λ x. level x ≡ suc n) at (omega (arith, down, h))

  pub Leads-parent : (t i c : ℕ) → 1 < level t → i < 512 → Leads s t i c → parent c ≡ (t, i)
  Leads-parent t i c h lt (present, at) =
      subst (λ x. parent x ≡ (t, i)) at (tree.child t i h lt present).2

  -- The levels of the tables of a walk.
  pub IsWalk-levels :
      (offs : PtOff) (p3 p2 p1 : ℕ)
      → AreIndices offs
      → IsWalk s root offs p3 p2 p1
      → (level p3 ≡ 3) × (level p2 ≡ 2) × (level p1 ≡ 1)
  IsWalk-levels offs p3 p2 p1 (a, b, c, d) (w4, w3, w2) =
      let l3 = Leads-level root offs.p4_off p3 2 tree.root_level a w4 in
      let l2 = Leads-level p3 offs.p3_off p2 1 l3 b w3 in
      (l3, l2, Leads-level p2 offs.p2_off p1 0 l2 c w2)

  -- A table's pointer lies above the start of the higher half.
  pub table-above : (t : ℕ) → 0 < level t → ltb normal_vma_offset t ≡ true
  table-above t h =
      let (q, pos, lt, at, used) = tree.page t h in
      subst (λ x. ltb normal_vma_offset x ≡ true) (sym at) (ground (arith, pos, lt))

-- A walk stays in a tree that has grown.
pub IsWalk-Grown :
    (s s' : Vmm) (root : ℕ) (level level' : ℕ → ℕ) (parent parent' : ℕ → ℕ × ℕ) (offs : PtOff)
    (p3 p2 p1 : ℕ)
    → IsTree s root level parent
    → Grown s s' root level level' parent'
    → AreIndices offs
    → IsWalk s root offs p3 p2 p1
    → IsWalk s' root offs p3 p2 p1
IsWalk-Grown s s' root level level' parent parent' offs p3 p2 p1 tree grown v (w4, w3, w2) =
    let (l3, l2, l1) = IsWalk-levels s root level parent tree offs p3 p2 p1 v (w4, w3, w2) in
    (
      Leads-same s s' root offs.p4_off p3
          (grown.kept root offs.p4_off (omega (arith, tree.root_level)) w4.0) w4,
      Leads-same s s' p3 offs.p3_off p2 (grown.kept p3 offs.p3_off (omega (arith, l3)) w3.0) w3,
      Leads-same s s' p2 offs.p2_off p1 (grown.kept p2 offs.p2_off (omega (arith, l2)) w2.0) w2,
    )

pub Grown-trans :
    (s s1 s2 : Vmm) (root : ℕ) (level level1 level2 : ℕ → ℕ) (parent1 parent2 : ℕ → ℕ × ℕ)
    → Grown s s1 root level level1 parent1
    → Grown s1 s2 root level1 level2 parent2
    → Grown s s2 root level level2 parent2
Grown-trans s s1 s2 root level level1 level2 parent1 parent2 g h = record {
  tree = h.tree;
  levels = λ t pos. h.levels t (omega (arith, g.levels t pos, pos)) ∙ g.levels t pos;
  kept = λ t i pos present.
      let first = g.kept t i pos present in
      h.kept t i (omega (arith, g.levels t pos, pos)) (ap is_present first ∙ present) ∙ first;
  leaves = λ t i e. h.leaves t i (g.levels t (omega (arith, e)) ∙ e) ∙ g.leaves t i e;
}

-- What `virt_to_phys` gives where there are tables for an address.
pub virt_to_phys-IsWalk :
    (s : Vmm) (p4 : ℕ) (level : ℕ → ℕ) (parent : ℕ → ℕ × ℕ) (virt p3 p2 p1 : ℕ)
    → IsTree s (higher_half p4) level parent
    → IsWalk s (higher_half p4) (virt_to_offs virt) p3 p2 p1
    → virt_to_phys s virt p4 ≡ (
        if is_present (s.tables p1 (virt_to_offs virt).p1_off)
        then add64 (frame_of (s.tables p1 (virt_to_offs virt).p1_off)) (virt % 0x1000)
        else no_address)
unfolding virt_to_phys directory_to_phys page_to_phys
virt_to_phys-IsWalk s p4 level parent virt p3 p2 p1 tree (w4, w3, w2) =
    let offs = virt_to_offs virt in
    let (a, b, c, d) = virt_to_offs-AreIndices virt in
    let (l3, l2, l1) =
      IsWalk-levels s (higher_half p4) level parent tree offs p3 p2 p1 (a, b, c, d) (w4, w3, w2) in
    let up3 = table-above s (higher_half p4) level parent tree p3 (omega (arith, l3)) in
    let up2 = table-above s (higher_half p4) level parent tree p2 (omega (arith, l2)) in
    let up1 = table-above s (higher_half p4) level parent tree p1 (omega (arith, l1)) in
    let huge = (tree.child p2 offs.p2_off (omega (arith, l2)) c w2.0).0 in
    rw (virt_to_phys, w4.1, up3, w3.1, directory_to_phys, huge, up2, w2.1, page_to_phys, up1) refl
