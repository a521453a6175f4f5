-- ===== src/Vmm/Mapping.antt =====
-- `vmm_remap_pages`, `vmm_map_pages` and `vmm_unmap_pages` (src/mm/vmm.c): what addresses lead to afterwards.
use drip_os.Prelude.{
  ℕ, ◌%◌, ◌≤◌, ◌<◌, ◌≡◌, ◌≢◌, refl, sym, ap, ◌∙◌, subst, true, false, ◌&&◌, some, if◌then◌else◌,
  ◌==◌, arith, Bool-cases, inl, inr, ==_iff, add64, bit_or,
}
use drip_os.Vmm.{
  Vmm, PtOff, higher_half, no_address, is_present, frame_of, set_entry, get_table, virt_to_offs,
  virt_to_phys, ensure_table, get_last_table, each_page, map_page, map_pages, remap_page,
  remap_pages, unmap_page, unmap_pages,
}
use drip_os.Vmm.Tree.{IsTree, free_pages}
use drip_os.Vmm.Ensure.{Grown}
use drip_os.Vmm.Walk.{
  AreIndices, virt_to_offs-AreIndices, IsWalk, IsWalk-levels, IsWalk-Grown, virt_to_phys-IsWalk,
}
use drip_os.Vmm.Remap.{get_table-Walked, remap_entry-sum}
use drip_os.Vmm.Leaves.{
  virt_to_offs-frame, set_entry-IsTree, set_entry-IsWalk, same_walk, same_offs,
}

-- What writing the entry of the page of `virt` leaves: a tree in which the addresses of the page
-- lead to `target`, and in which every other address that had tables leads where it did.
pub record Remapped (s s' : Vmm) (p4 virt : ℕ) (target : ℕ → ℕ) : Type 0 where
  pub level' : ℕ → ℕ
  pub parent' : ℕ → ℕ × ℕ
  pub tree : IsTree s' (higher_half p4) level' parent'
  pub here : (v : ℕ) → virt_to_offs v ≡ virt_to_offs virt → virt_to_phys s' v p4 ≡ target v
  pub elsewhere :
      (v q3 q2 q1 : ℕ)
      → IsWalk s (higher_half p4) (virt_to_offs v) q3 q2 q1
      → virt_to_offs v ≢ virt_to_offs virt
      → virt_to_phys s' v p4 ≡ virt_to_phys s v p4

-- What an address leads to once its entry is known.
abbrev leads_to : ℕ → ℕ → ℕ
leads_to entry v = if is_present entry then add64 (frame_of entry) (v % 0x1000) else no_address

module _ (s s1 : Vmm) (p4 : ℕ) (level level1 : ℕ → ℕ) (parent parent1 : ℕ → ℕ × ℕ)
    (virt p3 p2 p1 entry : ℕ) (tree : IsTree s (higher_half p4) level parent)
    (grown : Grown s s1 (higher_half p4) level level1 parent1)
    (walk : IsWalk s1 (higher_half p4) (virt_to_offs virt) p3 p2 p1) where
  abbrev s2 : Vmm
  s2 = set_entry s1 p1 (virt_to_offs virt).p1_off entry

  lowest : level1 p1 ≡ 1
  lowest =
      (IsWalk-levels s1 (higher_half p4) level1 parent1 grown.tree (virt_to_offs virt) p3 p2 p1
        (virt_to_offs-AreIndices virt) walk).2

  tree2 : IsTree s2 (higher_half p4) level1 parent1
  tree2 =
      set_entry-IsTree s1 (higher_half p4) level1 parent1 grown.tree p1 (virt_to_offs virt).p1_off
        entry lowest

  page_here : (v : ℕ) → virt_to_offs v ≡ virt_to_offs virt → virt_to_phys s2 v p4 ≡ leads_to entry v
  page_here v same =
      let walk' = subst (λ o. IsWalk s1 (higher_half p4) o p3 p2 p1) (sym same) walk in
      let walk2 =
        set_entry-IsWalk s1 (higher_half p4) level1 parent1 grown.tree p1 (virt_to_offs virt).p1_off
          entry lowest (virt_to_offs v) p3 p2 p1 (virt_to_offs-AreIndices v) walk' in
      let at : s2.tables p1 (virt_to_offs v).p1_off ≡ entry =
        rw
          (
            ap (λ o. o.p1_off) same,
            (==_iff p1 p1).1 refl,
            (==_iff (virt_to_offs virt).p1_off (virt_to_offs virt).p1_off).1 refl,
          )
          refl in
      virt_to_phys-IsWalk s2 p4 level1 parent1 v p3 p2 p1 tree2 walk2 ∙ ap (λ e. leads_to e v) at

  page_elsewhere :
      (v q3 q2 q1 : ℕ)
      → IsWalk s (higher_half p4) (virt_to_offs v) q3 q2 q1
      → virt_to_offs v ≢ virt_to_offs virt
      → virt_to_phys s2 v p4 ≡ virt_to_phys s v p4
  page_elsewhere v q3 q2 q1 w apart =
      let root = higher_half p4 in
      let offs = virt_to_offs v in
      let are = virt_to_offs-AreIndices v in
      let w1 = IsWalk-Grown s s1 root level level1 parent parent1 offs q3 q2 q1 tree grown are w in
      let w2 =
        set_entry-IsWalk s1 root level1 parent1 grown.tree p1 (virt_to_offs virt).p1_off entry
          lowest offs q3 q2 q1 are w1 in
      let lowest_q = (IsWalk-levels s root level parent tree offs q3 q2 q1 are w).2 in
      let other : ((q1 == p1) && (offs.p1_off == (virt_to_offs virt).p1_off)) ≡ false =
        elim (Bool-cases ((q1 == p1) && (offs.p1_off == (virt_to_offs virt).p1_off))) [
          | inl e ↦
              let table : q1 ≡ p1 = (==_iff q1 p1).0 (ground arith) in
              let index : offs.p1_off ≡ (virt_to_offs virt).p1_off =
                (==_iff _ _).0 (ground arith) in
              let same =
                same_walk s1 root level1 parent1 offs (virt_to_offs virt) q3 q2 p3 p2 q1 grown.tree
                  are (virt_to_offs-AreIndices virt) w1
                  (subst (λ x. IsWalk s1 root (virt_to_offs virt) p3 p2 x) (sym table) walk) in
              absurd (apart (same_offs offs (virt_to_offs virt) same.0 same.1 same.2 index))
          | inr e ↦ e
        ] in
      let at : s2.tables q1 offs.p1_off ≡ s.tables q1 offs.p1_off =
        rw other (grown.leaves q1 offs.p1_off lowest_q) in
      virt_to_phys-IsWalk s2 p4 level1 parent1 v q3 q2 q1 tree2 w2
      ∙ ap (λ e. leads_to e v) at
      ∙ sym (virt_to_phys-IsWalk s p4 level parent v q3 q2 q1 tree w)

  remapped :
      (target : ℕ → ℕ) → ((v : ℕ) → leads_to entry v ≡ target v) → Remapped s s2 p4 virt target
  remapped target goes = record {
    level' = level1;
    parent' = parent1;
    tree = tree2;
    here = λ v same. page_here v same ∙ goes v;
    elsewhere = page_elsewhere;
  }

-- `vmm_remap_pages` for one page, with flags below 0x1000 (the bits of an entry below the frame), in
-- a tree of page tables without huge pages and with three free pages in the allocator, which are
-- enough for the tables that may be missing: it returns 0, what
-- it leaves is a tree of page tables, every address of the page leads to its place in the frame of
-- `phys`, and every other address that had page tables leads where it did.
pub remap_pages-Remapped :
    (s : Vmm) (p4 : ℕ) (level : ℕ → ℕ) (parent : ℕ → ℕ × ℕ) (phys virt perms : ℕ)
    → IsTree s (higher_half p4) level parent
    → 3 ≤ free_pages s.pmm
    → perms < 0x1000
    → (s' : Vmm) × (remap_pages phys virt p4 1 perms s ≡ some (0, s'))
      × Remapped s s' p4 virt (λ v. add64 (frame_of phys) (v % 0x1000))
unfolding remap_pages each_page remap_page
remap_pages-Remapped s p4 level parent phys virt perms tree room small =
    let offs = virt_to_offs virt in
    let (ptrs, s1, runs, walked) =
      get_table-Walked s p4 level parent offs tree (virt_to_offs-AreIndices virt) room in
    let entry = bit_or (frame_of phys) (bit_or perms 1) in
    let (present, frame) = remap_entry-sum (frame_of phys) perms (omega arith) small in
    (
      set_entry s1 ptrs.p1 offs.p1_off entry,
      rw (virt_to_offs-frame virt, runs) refl,
      remapped s s1 p4 level walked.level' parent walked.parent' virt ptrs.p3 ptrs.p2 ptrs.p1 entry
          tree walked.grown walked.walk (λ v. add64 (frame_of phys) (v % 0x1000))
          (λ v. rw (present, frame) refl),
    )

-- Where all tables are there, `vmm_get_table` finds them and changes nothing.
get_table-IsWalk :
    (s : Vmm) (p4 : ℕ) (level : ℕ → ℕ) (parent : ℕ → ℕ × ℕ) (offs : PtOff) (p3 p2 p1 : ℕ)
    → IsTree s (higher_half p4) level parent
    → AreIndices offs
    → IsWalk s (higher_half p4) offs p3 p2 p1
    → get_table s offs p4 ≡ some (record { p3 = p3; p2 = p2; p1 = p1 }, s)
unfolding get_table get_last_table ensure_table
get_table-IsWalk s p4 level parent offs p3 p2 p1 tree v (w4, w3, w2) =
    let (l3, l2, l1) =
      IsWalk-levels s (higher_half p4) level parent tree offs p3 p2 p1 v (w4, w3, w2) in
    let huge = (tree.child p2 offs.p2_off (omega (arith, l2)) v.2 w2.0).0 in
    rw (w4.0, w4.1, w3.0, w3.1, w2.0, w2.1, huge) refl

-- `vmm_map_pages` for one page that is mapped already reports 1 and leaves everything as it is.
pub map_pages-mapped :
    (s : Vmm) (p4 : ℕ) (level : ℕ → ℕ) (parent : ℕ → ℕ × ℕ) (phys virt perms p3 p2 p1 : ℕ)
    → IsTree s (higher_half p4) level parent
    → IsWalk s (higher_half p4) (virt_to_offs virt) p3 p2 p1
    → is_present (s.tables p1 (virt_to_offs virt).p1_off) ≡ true
    → map_pages phys virt p4 1 perms s ≡ some (1, s)
unfolding map_pages each_page map_page
map_pages-mapped s p4 level parent phys virt perms p3 p2 p1 tree w present =
    let runs =
      get_table-IsWalk s p4 level parent (virt_to_offs virt) p3 p2 p1 tree
        (virt_to_offs-AreIndices virt) w in
    rw (virt_to_offs-frame virt, runs, present) refl

-- `vmm_unmap_pages` for one page, in a tree of page tables without huge pages where the three tables
-- of the page's address are present and the page is mapped, reports 0; afterwards no address of the
-- page leads anywhere, while every other address that had page tables leads where it did.
pub unmap_pages-Remapped :
    (s : Vmm) (p4 : ℕ) (level : ℕ → ℕ) (parent : ℕ → ℕ × ℕ) (virt p3 p2 p1 : ℕ)
    → IsTree s (higher_half p4) level parent
    → IsWalk s (higher_half p4) (virt_to_offs virt) p3 p2 p1
    → is_present (s.tables p1 (virt_to_offs virt).p1_off) ≡ true
    → (s' : Vmm) × (unmap_pages virt p4 1 s ≡ some (0, s'))
      × Remapped s s' p4 virt (λ v. no_address)
unfolding unmap_pages each_page unmap_page
unmap_pages-Remapped s p4 level parent virt p3 p2 p1 tree w present =
    let runs =
      get_table-IsWalk s p4 level parent (virt_to_offs virt) p3 p2 p1 tree
        (virt_to_offs-AreIndices virt) w in
    (
      set_entry s p1 (virt_to_offs virt).p1_off 0,
      rw (runs, present) refl,
      remapped s s p4 level level parent parent virt p3 p2 p1 0 tree
          (record {
            tree = tree;
            levels = λ x h. refl;
            kept = λ x j h e. refl;
            leaves = λ x j h. refl;
          })
          w (λ v. no_address) (λ v. refl),
    )
