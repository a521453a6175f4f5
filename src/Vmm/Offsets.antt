-- ===== src/Vmm/Offsets.antt =====
-- `vmm_virt_to_offs` and `vmm_offs_to_virt` (src/mm/vmm.c).
use drip_os.Prelude.{ℕ, ◌+◌, ◌-◌, ◌*◌, ◌/◌, ◌%◌, ◌^◌, ◌<◌, ◌≡◌, refl, ap, ◌∙◌, bit_or, arith}
use drip_os.Vmm.{PtOff, virt_to_offs, offs_to_virt, shift_left}
use drip_os.Vmm.Bits.{bit_or-below}

or-sum : (x k y m : ℕ) → y < 2 ^ k → x ≡ m * 2 ^ k → bit_or x y ≡ x + y
or-sum x k y m lt e = rw e (bit_or-below k m y lt)

-- The four indices, each below 512, side by side.
pub offs_to_virt-sum :
    (offs : PtOff)
    → offs.p4_off < 512
    → offs.p3_off < 512
    → offs.p2_off < 512
    → offs.p1_off < 512
    → offs_to_virt offs
      ≡ offs.p4_off * 2 ^ 39 + offs.p3_off * 2 ^ 30 + offs.p2_off * 2 ^ 21 + offs.p1_off * 2 ^ 12
unfolding offs_to_virt
offs_to_virt-sum offs a b c d =
    let x4 = offs.p4_off * 2 ^ 39 in
    let x3 = offs.p3_off * 2 ^ 30 in
    let x2 = offs.p2_off * 2 ^ 21 in
    let x1 = offs.p1_off * 2 ^ 12 in
    let s4 : shift_left offs.p4_off 39 ≡ x4 = omega (arith, a) in
    let s3 : shift_left offs.p3_off 30 ≡ x3 = omega (arith, b) in
    let s2 : shift_left offs.p2_off 21 ≡ x2 = omega (arith, c) in
    let s1 : shift_left offs.p1_off 12 ≡ x1 = omega (arith, d) in
    let o4 : bit_or 0 x4 ≡ x4 = bit_or-below 48 0 x4 (omega (arith, a)) ∙ omega arith in
    let o3 : bit_or x4 x3 ≡ x4 + x3 = or-sum x4 39 x3 offs.p4_off (omega (arith, b)) refl in
    let o2 : bit_or (x4 + x3) x2 ≡ x4 + x3 + x2 =
      or-sum (x4 + x3) 30 x2 (offs.p4_off * 512 + offs.p3_off) (omega (arith, c)) (omega arith) in
    let o1 : bit_or (x4 + x3 + x2) x1 ≡ x4 + x3 + x2 + x1 =
      or-sum (x4 + x3 + x2) 21 x1 (offs.p4_off * 512 * 512 + offs.p3_off * 512 + offs.p2_off)
        (omega (arith, d)) (omega arith) in
    rw (s4, s3, s2, s1, o4, o3, o2) o1

indices-sum :
    (offs : PtOff)
    → offs.p4_off < 512
    → offs.p3_off < 512
    → offs.p2_off < 512
    → offs.p1_off < 512
    → virt_to_offs
        (offs.p4_off * 2 ^ 39 + offs.p3_off * 2 ^ 30 + offs.p2_off * 2 ^ 21 + offs.p1_off * 2 ^ 12)
      ≡ offs
unfolding virt_to_offs
indices-sum offs a b c d =
    let sum =
      offs.p4_off * 2 ^ 39 + offs.p3_off * 2 ^ 30 + offs.p2_off * 2 ^ 21 + offs.p1_off * 2 ^ 12 in
    let e4 : sum / 2 ^ 39 % 512 ≡ offs.p4_off = omega (arith, a, b, c, d) in
    let e3 : sum / 2 ^ 30 % 512 ≡ offs.p3_off = omega (arith, a, b, c, d) in
    let e2 : sum / 2 ^ 21 % 512 ≡ offs.p2_off = omega (arith, a, b, c, d) in
    let e1 : sum / 2 ^ 12 % 512 ≡ offs.p1_off = omega (arith, a, b, c, d) in
    λ i. record { p4_off = e4 i; p3_off = e3 i; p2_off = e2 i; p1_off = e1 i }

-- The indices of an address of 48 bits give back its page; the indices of the address that is made
-- of four indices below 512 are these.
pub offs_to_virt-virt_to_offs :
    (addr : ℕ) (offs : PtOff)
    → addr < 2 ^ 48
    → offs.p4_off < 512
    → offs.p3_off < 512
    → offs.p2_off < 512
    → offs.p1_off < 512
    → (offs_to_virt (virt_to_offs addr) ≡ addr - addr % 0x1000)
      × (virt_to_offs (offs_to_virt offs) ≡ offs)
unfolding virt_to_offs
offs_to_virt-virt_to_offs addr offs small a b c d = (
  offs_to_virt-sum (virt_to_offs addr) (omega arith) (omega arith) (omega arith) (omega arith)
      ∙ omega (arith, small),
  ap virt_to_offs (offs_to_virt-sum offs a b c d) ∙ indices-sum offs a b c d,
)
