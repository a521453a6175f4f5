-- ===== src/Vmm.antt =====
-- src/mm/vmm.c: page tables of four levels. A table is found by the pointer to it in the higher
-- half; the memory that holds tables is a function from such a pointer and an index to an entry.
-- New tables come from the allocator of src/mm/pmm.c, and `none` is its stop where no memory is
-- left. A mask of single bits is written as the quotient and the remainder it computes; locks, the
-- interrupt flag and `invlpg` leave no trace in the state.
pub mod Bits
pub mod Offsets
pub mod Tree
pub mod Ensure
pub mod Walk
pub mod Remap
pub mod Leaves
pub mod Mapping
mod Tests
use drip_os.Prelude.{
  ℕ, zero, suc, ◌+◌, ◌-◌, ◌*◌, ◌/◌, ◌%◌, ◌^◌, bit_or, Bool, true, false, ◌&&◌, not, Option, none,
  some, if◌then◌else◌, ◌==◌, ltb, add64, sub64, ◌>>=◌,
}
use drip_os.Pmm.{Pmm, alloc}

pub record PtOff : Type 0 where
  pub p4_off : ℕ
  pub p3_off : ℕ
  pub p2_off : ℕ
  pub p1_off : ℕ

pub record Vmm : Type 0 where
  pub tables : ℕ → ℕ → ℕ
  pub pmm : Pmm

abbrev pub normal_vma_offset : ℕ
normal_vma_offset = 0xFFFF800000000000

abbrev pub higher_half : ℕ → ℕ
higher_half lower_half = add64 lower_half normal_vma_offset

-- `VMM_PRESENT`, `VMM_HUGE`, and the bits that `VMM_4K_PERM_MASK` keeps.
abbrev pub is_present : ℕ → Bool
is_present entry = entry % 2 == 1

abbrev pub is_huge : ℕ → Bool
is_huge entry = entry / 128 % 2 == 1

abbrev pub frame_of : ℕ → ℕ
frame_of entry = entry - entry % 0x1000

pub virt_to_offs : ℕ → PtOff
virt_to_offs addr = record {
  p4_off = addr / 2 ^ 39 % 512;
  p3_off = addr / 2 ^ 30 % 512;
  p2_off = addr / 2 ^ 21 % 512;
  p1_off = addr / 2 ^ 12 % 512;
}

-- `<<` on a `uint64_t`
abbrev pub shift_left : ℕ → ℕ → ℕ
shift_left n k = n * 2 ^ k % 2 ^ 64

pub offs_to_virt : PtOff → ℕ
offs_to_virt offs =
    bit_or
      (bit_or (bit_or (bit_or 0 (shift_left offs.p4_off 39)) (shift_left offs.p3_off 30))
        (shift_left offs.p2_off 21))
      (shift_left offs.p1_off 12)

abbrev pub traverse_page_table : Vmm → ℕ → ℕ → ℕ
traverse_page_table s cur_table offset = higher_half (frame_of (s.tables cur_table offset))

abbrev pub no_address : ℕ
no_address = 0xFFFFFFFFFFFFFFFF

-- The last level of `virt_to_phys`, and the last two.
pub page_to_phys : Vmm → ℕ → ℕ → ℕ
page_to_phys s virt p1 =
    let entry = s.tables p1 (virt_to_offs virt).p1_off in
    if ltb normal_vma_offset p1 && is_present entry
    then add64 (frame_of entry) (virt % 0x1000)
    else no_address

pub directory_to_phys : Vmm → ℕ → ℕ → ℕ
directory_to_phys s virt p2 =
    let entry = s.tables p2 (virt_to_offs virt).p2_off in
    if is_huge entry
    then add64 (frame_of entry) (virt % 0x200000)
    else if ltb normal_vma_offset p2
    then page_to_phys s virt (traverse_page_table s p2 (virt_to_offs virt).p2_off)
    else no_address

pub virt_to_phys : Vmm → ℕ → ℕ → ℕ
virt_to_phys s virt p4 =
    let offs = virt_to_offs virt in
    let p3 = traverse_page_table s (higher_half p4) offs.p4_off in
    if ltb normal_vma_offset p3
    then directory_to_phys s virt (traverse_page_table s p3 offs.p3_off)
    else no_address

-- With the register CR3 as an argument.
pub kernel_address : Vmm → ℕ → ℕ → ℕ
kernel_address s cr3 virt =
    let phys = virt_to_phys s virt cr3 in if phys == no_address then 0 else higher_half phys

pub is_mapped : Vmm → ℕ → ℕ → Bool
is_mapped s cr3 address = not (virt_to_phys s address cr3 == no_address)

abbrev pub set_entry : Vmm → ℕ → ℕ → ℕ → Vmm
set_entry s table offset entry = record s {
  tables = λ t i. if (t == table) && (i == offset) then entry else s.tables t i;
}

-- A table of 512 entries.
abbrev pub fill_table : Vmm → ℕ → (ℕ → ℕ) → Vmm
fill_table s table entries = record s {
  tables = λ t i. if t == table then entries i else s.tables t i;
}

-- `new_table | VMM_PRESENT | VMM_WRITE | VMM_USER`
abbrev pub table_entry : ℕ → ℕ
table_entry new_table = bit_or new_table 7

pub ensure_table : Vmm → ℕ → ℕ → Option Vmm
ensure_table s table offset =
    let made : Option Vmm = (do
      (new_table, pmm) ← alloc s.pmm 0x1000
      let cleared = fill_table (record s { pmm = pmm }) (higher_half new_table) (λ i. 0) in
          some (set_entry cleared table offset (table_entry new_table))) in
    if is_present (s.tables table offset) then some s else made

-- A huge page as 512 pages with the same low twelve bits.
pub remap_to_4k : Vmm → ℕ → ℕ → Option Vmm
remap_to_4k s p2 offset = do
  (new_pml1, pmm) ← alloc s.pmm 0x1000
  let entry = s.tables p2 offset in
      let filled =
        fill_table (record s { pmm = pmm }) (higher_half new_pml1)
          (λ i. bit_or ((frame_of entry + i * 0x1000) % 2 ^ 64) (entry % 0x1000)) in
      some (set_entry filled p2 offset (table_entry new_pml1))

pub record PtPtr : Type 0 where
  pub p3 : ℕ
  pub p2 : ℕ
  pub p1 : ℕ

-- The end of `vmm_get_table`, once `p2` is known.
pub get_last_table : Vmm → PtOff → ℕ → ℕ → Option (PtPtr × Vmm)
get_last_table s offs p3 p2 =
    let entry = s.tables p2 offs.p2_off in
    let split : Option Vmm =
      if is_huge entry && is_present entry then remap_to_4k s p2 offs.p2_off else some s in
    let made : Option (PtPtr × Vmm) = (do
      s1 ← split
      s2 ← ensure_table s1 p2 offs.p2_off
      some (record { p3 = p3; p2 = p2; p1 = traverse_page_table s2 p2 offs.p2_off }, s2)) in
    if not (is_huge entry) && is_present entry
    then some (record { p3 = p3; p2 = p2; p1 = traverse_page_table s p2 offs.p2_off }, s)
    else made

pub get_table : Vmm → PtOff → ℕ → Option (PtPtr × Vmm)
get_table s offs p4 = do
  s1 ← ensure_table s (higher_half p4) offs.p4_off
  let p3 = traverse_page_table s1 (higher_half p4) offs.p4_off in
      do
        s2 ← ensure_table s1 p3 offs.p3_off
        get_last_table s2 offs p3 (traverse_page_table s2 p3 offs.p3_off)

-- One round of the loop of `vmm_map_pages`: the result so far and the state.
pub map_page : ℕ → ℕ → ℕ → ℕ → ℕ × Vmm → Option (ℕ × Vmm)
map_page cur_phys cur_virt p4 perms (ret, s) =
    let offs = virt_to_offs cur_virt in
    do
      (ptrs, s') ← get_table s offs p4
      if is_present (s'.tables ptrs.p1 offs.p1_off)
          then some (1, s')
          else some (ret, set_entry s' ptrs.p1 offs.p1_off (bit_or cur_phys perms))

pub remap_page : ℕ → ℕ → ℕ → ℕ → ℕ × Vmm → Option (ℕ × Vmm)
remap_page cur_phys cur_virt p4 perms (ret, s) =
    let offs = virt_to_offs cur_virt in
    do
      (ptrs, s') ← get_table s offs p4
      some (ret, set_entry s' ptrs.p1 offs.p1_off (bit_or cur_phys (bit_or perms 1)))

pub unmap_page : ℕ → ℕ → ℕ × Vmm → Option (ℕ × Vmm)
unmap_page cur_virt p4 (ret, s) =
    let offs = virt_to_offs cur_virt in
    do
      (ptrs, s') ← get_table s offs p4
      if is_present (s'.tables ptrs.p1 offs.p1_off)
          then some (ret, set_entry s' ptrs.p1 offs.p1_off 0)
          else some (1, s')

-- A loop over `count` pages, given its round.
pub each_page : (ℕ → ℕ → ℕ × Vmm → Option (ℕ × Vmm)) → ℕ → ℕ → ℕ → ℕ × Vmm → Option (ℕ × Vmm)
each_page round zero cur_phys cur_virt s = some s
each_page round (suc count) cur_phys cur_virt s = do
  s' ← round cur_phys cur_virt s
  each_page round count (add64 cur_phys 0x1000) (add64 cur_virt 0x1000) s'

pub map_pages : ℕ → ℕ → ℕ → ℕ → ℕ → Vmm → Option (ℕ × Vmm)
map_pages phys virt p4 count perms s =
    each_page (λ cur_phys cur_virt. map_page cur_phys cur_virt p4 perms) count (frame_of phys)
      (frame_of virt) (0, s)

pub remap_pages : ℕ → ℕ → ℕ → ℕ → ℕ → Vmm → Option (ℕ × Vmm)
remap_pages phys virt p4 count perms s =
    each_page (λ cur_phys cur_virt. remap_page cur_phys cur_virt p4 perms) count (frame_of phys)
      (frame_of virt) (0, s)

pub unmap_pages : ℕ → ℕ → ℕ → Vmm → Option (ℕ × Vmm)
unmap_pages virt p4 count s =
    each_page (λ cur_phys cur_virt. unmap_page cur_virt p4) count 0 virt (0, s)
