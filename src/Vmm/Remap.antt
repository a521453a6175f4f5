-- ===== src/Vmm/Remap.antt =====
-- `vmm_get_table` and `vmm_remap_pages` (src/mm/vmm.c) on a tree of page tables.
use drip_os.Prelude.{
  ℕ, ◌+◌, ◌-◌, ◌*◌, ◌/◌, ◌%◌, ◌^◌, ◌≤◌, ◌<◌, ◌≡◌, refl, ap, ◌∙◌, Bool, true, false, ◌&&◌, not, some,
  ◌==◌, arith, Bool-cases, inl, inr, ==_iff, bit_or, every, every_at,
}
use drip_os.Vmm.{
  Vmm, PtOff, PtPtr, higher_half, is_present, is_huge, frame_of, traverse_page_table,
  get_last_table, get_table,
}
use drip_os.Vmm.Bits.{bit_or-below}
use drip_os.Vmm.Tree.{IsTree, free_pages}
use drip_os.Vmm.Ensure.{Grown, Ensured, ensure_table-Ensured}
use drip_os.Vmm.Walk.{AreIndices, IsWalk, Leads-same, Leads-level, Grown-trans}

and_false : (b : Bool) → (b && false) ≡ false
and_false b = ground arith

-- The end of `vmm_get_table`.
get_last_table-Ensured :
    (s : Vmm) (root : ℕ) (level : ℕ → ℕ) (parent : ℕ → ℕ × ℕ) (offs : PtOff) (p3 p2 : ℕ)
    → IsTree s root level parent
    → level p2 ≡ 2
    → offs.p2_off < 512
    → 0 < free_pages s.pmm
    → (s' : Vmm) × (get_last_table s offs p3 p2
        ≡ some (record { p3 = p3; p2 = p2; p1 = traverse_page_table s' p2 offs.p2_off }, s'))
      × Ensured s s' root level p2 offs.p2_off
unfolding get_last_table
get_last_table-Ensured s root level parent offs p3 p2 tree l2 low room =
    elim (Bool-cases (is_present (s.tables p2 offs.p2_off))) [
      | inl e ↦
          let huge = (tree.child p2 offs.p2_off (omega (arith, l2)) low e).0 in
          (
            s,
            rw (e, huge) refl,
            record {
              level' = level;
              parent' = parent;
              grown = record {
                tree = tree;
                levels = λ x h. refl;
                kept = λ x j h present. refl;
                leaves = λ x j h. refl;
              };
              present = e;
              room = omega arith;
            },
          )
      | inr e ↦
          let (s', runs, ensured) =
            ensure_table-Ensured s root level parent p2 offs.p2_off tree (omega (arith, l2)) low
              room in
          (
            s',
            rw
                (
                  e,
                  and_false (is_huge (s.tables p2 offs.p2_off)),
                  and_false (not (is_huge (s.tables p2 offs.p2_off))),
                  runs,
                )
                refl,
            ensured,
          )
    ]

-- What `vmm_get_table` gives: the tables for four indices, in a tree that has grown.
pub record Walked (s s' : Vmm) (root : ℕ) (level : ℕ → ℕ) (offs : PtOff) (ptrs : PtPtr)
    : Type 0 where
  pub level' : ℕ → ℕ
  pub parent' : ℕ → ℕ × ℕ
  pub grown : Grown s s' root level level' parent'
  pub walk : IsWalk s' root offs ptrs.p3 ptrs.p2 ptrs.p1

pub get_table-Walked :
    (s : Vmm) (p4 : ℕ) (level : ℕ → ℕ) (parent : ℕ → ℕ × ℕ) (offs : PtOff)
    → IsTree s (higher_half p4) level parent
    → AreIndices offs
    → 3 ≤ free_pages s.pmm
    → (ptrs : PtPtr) × (s' : Vmm) × (get_table s offs p4 ≡ some (ptrs, s'))
      × Walked s s' (higher_half p4) level offs ptrs
unfolding get_table
get_table-Walked s p4 level parent offs tree (a, b, c, d) room =
    let root = higher_half p4 in
    let (s1, r1, e1) =
      ensure_table-Ensured s root level parent root offs.p4_off tree
        (omega (arith, tree.root_level)) a (omega (arith, room)) in
    let t1 = e1.grown.tree in
    let p3 = traverse_page_table s1 root offs.p4_off in
    let l3 =
      Leads-level s1 root e1.level' e1.parent' t1 root offs.p4_off p3 2 t1.root_level a
        (e1.present, refl) in
    let (s2, r2, e2) =
      ensure_table-Ensured s1 root e1.level' e1.parent' p3 offs.p3_off t1 (omega (arith, l3)) b
        (omega (arith, room, e1.room)) in
    let t2 = e2.grown.tree in
    let p2 = traverse_page_table s2 p3 offs.p3_off in
    let l3' = e2.grown.levels p3 (omega (arith, l3)) ∙ l3 in
    let l2 =
      Leads-level s2 root e2.level' e2.parent' t2 p3 offs.p3_off p2 1 l3' b (e2.present, refl) in
    let (s3, r3, e3) =
      get_last_table-Ensured s2 root e2.level' e2.parent' offs p3 p2 t2 l2 c
        (omega (arith, room, e1.room, e2.room)) in
    let p1 = traverse_page_table s3 p2 offs.p2_off in
    let w4 =
      Leads-same s1 s2 root offs.p4_off p3
        (e2.grown.kept root offs.p4_off (omega (arith, t1.root_level)) e1.present)
        (e1.present, refl) in
    let w4' =
      Leads-same s2 s3 root offs.p4_off p3
        (e3.grown.kept root offs.p4_off (omega (arith, t2.root_level)) w4.0) w4 in
    let w3' =
      Leads-same s2 s3 p3 offs.p3_off p2
        (e3.grown.kept p3 offs.p3_off (omega (arith, l3')) e2.present) (e2.present, refl) in
    (
      record { p3 = p3; p2 = p2; p1 = p1 },
      s3,
      rw (get_table, r1, r2, r3) refl,
      record {
        level' = e3.level';
        parent' = e3.parent';
        grown = Grown-trans s s1 s3 root level e1.level' e3.level' e1.parent' e3.parent' e1.grown (
            Grown-trans s1 s2 s3 root e1.level' e2.level' e3.level' e2.parent' e3.parent' e2.grown
              e3.grown);
        walk = (w4', w3', (e3.present, refl));
      },
    )

-- An entry with the twelve low bits `perms` and the present bit.
flags_fact : ℕ → Bool
flags_fact perms = bit_or perms 1 == perms + 1 - perms % 2

flags_table : every 4096 flags_fact ≡ true
unfolding flags_fact every
flags_table = refl

pub remap_entry-sum :
    (phys perms : ℕ)
    → phys % 0x1000 ≡ 0
    → perms < 0x1000
    → (is_present (bit_or phys (bit_or perms 1)) ≡ true)
      × (frame_of (bit_or phys (bit_or perms 1)) ≡ phys)
unfolding flags_fact
remap_entry-sum phys perms aligned small =
    let flags : bit_or perms 1 ≡ perms + 1 - perms % 2 =
      (==_iff _ _).0 (every_at 4096 flags_fact flags_table perms small) in
    let whole : phys ≡ phys / 0x1000 * 2 ^ 12 = omega (arith, aligned) in
    let below : perms + 1 - perms % 2 < 2 ^ 12 = omega (arith, small) in
    let sum : bit_or phys (bit_or perms 1) ≡ phys + (perms + 1 - perms % 2) =
      ap (bit_or phys) flags
      ∙ ap (λ x. bit_or x (perms + 1 - perms % 2)) whole
      ∙ bit_or-below 12 (phys / 0x1000) (perms + 1 - perms % 2) below
      ∙ omega (arith, whole) in
    let frame : phys + (perms + 1 - perms % 2) - (phys + (perms + 1 - perms % 2)) % 0x1000 ≡ phys =
      omega (arith, aligned, small) in
    (ap is_present sum ∙ ground (arith, aligned), ap frame_of sum ∙ frame)
