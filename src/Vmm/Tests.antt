-- ===== src/Vmm/Tests.antt =====
-- The theorems on src/mm/vmm.c at small trees of page tables.
use drip_os.Prelude.{
  ℕ, ◌-◌, ◌*◌, ◌%◌, ◌^◌, ◌≤◌, ◌<◌, ◌≡◌, refl, true, false, ◌&&◌, some, if◌then◌else◌, ◌==◌, arith,
  add64, subst, sym, ◌∙◌, false≢true, Bool-cases, inl, inr, ==_iff,
}
use drip_os.Pmm.{Pmm, is_free, get_bit}
use drip_os.Pmm.Count.{count_free}
use drip_os.Pmm.Alloc.{IsValid}
use drip_os.Vmm.{
  Vmm, PtOff, higher_half, no_address, is_present, virt_to_offs, offs_to_virt, remap_pages,
  unmap_pages,
}
use drip_os.Vmm.Offsets.{offs_to_virt-virt_to_offs}
use drip_os.Vmm.Tree.{IsTree, IsChild, free_pages}
use drip_os.Vmm.Walk.{IsWalk}
use drip_os.Vmm.Mapping.{Remapped, remap_pages-Remapped, unmap_pages-Remapped}

-- Sixteen pages, of which the first five are in use.
abbrev pmm : Pmm
pmm = record {
  bitmap = λ i. if i == 0 then 31 else 0;
  bitmap_max_page = 16;
  total_memory = 11 * 0x1000;
  used_memory = 0;
  available_memory = 11 * 0x1000;
}

pmm-IsValid : IsValid pmm
unfolding count_free get_bit
pmm-IsValid = record {
  bytes = λ i. ground arith;
  low = refl;
  counted = omega arith;
  bounded = omega arith;
}

abbrev at : ℕ → ℕ
at q = higher_half (q * 0x1000)

-- Page 1 is the root; pages 2 to 4 are the tables below it for the address 0x400000, which leads to
-- page 5.
abbrev tables : ℕ → ℕ → ℕ
tables t i =
    if (t == at 1) && (i == 0)
    then 0x2007
    else if (t == at 2) && (i == 0)
    then 0x3007
    else if (t == at 3) && (i == 2)
    then 0x4007
    else if (t == at 4) && (i == 0)
    then 0x5003
    else 0

abbrev mapped : Vmm
mapped = record { tables = tables; pmm = pmm }

abbrev level : ℕ → ℕ
level t =
    if t == at 1
    then 4
    else if t == at 2
    then 3
    else if t == at 3
    then 2
    else if t == at 4
    then 1
    else 0

abbrev parent : ℕ → ℕ × ℕ
parent t = if t == at 2 then (at 1, 0) else if t == at 3 then (at 2, 0) else (at 3, 2)

level_page :
    (t : ℕ)
    → 0 < level t
    → (q : ℕ) × (0 < q) × (q < 2 ^ 35) × (t ≡ at q) × (is_free pmm.bitmap q ≡ false)
unfolding get_bit
level_page t h = elim (Bool-cases (t == at 1)) [
  | inl e ↦ (1, omega arith, omega arith, (==_iff t (at 1)).0 e, refl)
  | inr a ↦ elim (Bool-cases (t == at 2)) [
    | inl e ↦ (2, omega arith, omega arith, (==_iff t (at 2)).0 e, refl)
    | inr b ↦ elim (Bool-cases (t == at 3)) [
      | inl e ↦ (3, omega arith, omega arith, (==_iff t (at 3)).0 e, refl)
      | inr c ↦ elim (Bool-cases (t == at 4)) [
        | inl e ↦ (4, omega arith, omega arith, (==_iff t (at 4)).0 e, refl)
        | inr d ↦ absurd (ground (arith, h, a, b, c, d))
      ]
    ]
  ]
]

-- The only present entry of a table.
IsChild-at :
    (q o : ℕ)
    → IsChild mapped level parent (at q) o
    → ((i : ℕ) → (i == o) ≡ false → is_present (tables (at q) i) ≡ false)
    → (t i : ℕ) → (t == at q) ≡ true
    → is_present (tables t i) ≡ true
    → IsChild mapped level parent t i
IsChild-at q o v only t i e present =
    let table = (==_iff t (at q)).0 e in
    subst (λ x. IsChild mapped level parent x i) (sym table)
      (elim (Bool-cases (i == o)) [
        | inl f ↦ subst (λ x. IsChild mapped level parent (at q) x) (sym ((==_iff i o).0 f)) v
        | inr f ↦ absurd (
            false≢true (sym (only i f) ∙ subst (λ x. is_present (tables x i) ≡ true) table present))
      ])

level-IsChild :
    (t i : ℕ)
    → 1 < level t
    → i < 512
    → is_present (tables t i) ≡ true
    → IsChild mapped level parent t i
level-IsChild t i h lt present = elim (Bool-cases (t == at 1)) [
  | inl e ↦ IsChild-at 1 0 (refl, refl, refl) (λ j f. rw f refl) t i e present
  | inr a ↦ elim (Bool-cases (t == at 2)) [
    | inl e ↦ IsChild-at 2 0 (refl, refl, refl) (λ j f. rw f refl) t i e present
    | inr b ↦ elim (Bool-cases (t == at 3)) [
      | inl e ↦ IsChild-at 3 2 (refl, refl, refl) (λ j f. rw f refl) t i e present
      | inr c ↦ absurd (ground (arith, h, a, b, c))
    ]
  ]
]

mapped-IsTree : IsTree mapped (at 1) level parent
mapped-IsTree = record {
  valid = pmm-IsValid;
  small = omega arith;
  root_level = refl;
  page = level_page;
  child = level-IsChild;
}

walk : IsWalk mapped (at 1) (virt_to_offs 0x400000) (at 2) (at 3) (at 4)
unfolding virt_to_offs
walk = ((refl, refl), (refl, refl), (refl, refl))

-- Free pages enough for three tables.
three_free : 3 ≤ free_pages pmm
unfolding count_free get_bit
three_free = omega arith

remap_pages-Remapped_example :
    (s' : Vmm) × (remap_pages 0x7123 0x8000000000 0x1000 1 7 mapped ≡ some (0, s'))
    × Remapped mapped s' 0x1000 0x8000000000 (λ v. add64 0x7000 (v % 0x1000))
remap_pages-Remapped_example =
    remap_pages-Remapped mapped 0x1000 level parent 0x7123 0x8000000000 7 mapped-IsTree three_free
      (omega arith)

unmap_pages-Remapped_example :
    (s' : Vmm) × (unmap_pages 0x400000 0x1000 1 mapped ≡ some (0, s'))
    × Remapped mapped s' 0x1000 0x400000 (λ v. no_address)
unfolding virt_to_offs
unmap_pages-Remapped_example =
    unmap_pages-Remapped mapped 0x1000 level parent 0x400000 (at 2) (at 3) (at 4) mapped-IsTree walk
      refl

abbrev some_offs : PtOff
some_offs = record { p4_off = 1; p3_off = 2; p2_off = 3; p1_off = 511 }

offs_to_virt-virt_to_offs_example :
    (offs_to_virt (virt_to_offs 0x123456789) ≡ 0x123456789 - 0x123456789 % 0x1000)
    × (virt_to_offs (offs_to_virt some_offs) ≡ some_offs)
offs_to_virt-virt_to_offs_example =
    offs_to_virt-virt_to_offs 0x123456789 some_offs (omega arith) (omega arith) (omega arith)
      (omega arith) (omega arith)
