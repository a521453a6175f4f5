-- ===== src/Vmm/Tree.antt =====
-- Trees of page tables (src/mm/vmm.c), and a page for a new table from the allocator of
-- src/mm/pmm.c.
use drip_os.Prelude.{
  ℕ, zero, suc, ◌+◌, ◌*◌, ◌/◌, ◌^◌, ◌≤◌, ◌<◌, ◌≡◌, sym, ap, ◌∙◌, subst, true, false, ◌&&◌, not,
  some, if◌then◌else◌, ◌==◌, arith, Bool-cases, inl, inr, ==_iff, ltb, false≢true,
}
use drip_os.Pmm.{Pmm, Bitmap, is_free, alloc}
use drip_os.Pmm.Bits.{within}
use drip_os.Pmm.Count.{count_free}
use drip_os.Pmm.Alloc.{IsValid, alloc-takes, alloc-IsValid, alloc-succeeds}
use drip_os.Vmm.{Vmm, higher_half, is_present, is_huge, traverse_page_table}

-- An entry of a table leads to a table one level down that has it as its place.
abbrev pub IsChild : Vmm → (ℕ → ℕ) → (ℕ → ℕ × ℕ) → ℕ → ℕ → Type 0
IsChild s level parent t i =
    (is_huge (s.tables t i) ≡ false)
    × (suc (level (traverse_page_table s t i)) ≡ level t)
    × (parent (traverse_page_table s t i) ≡ (t, i))

-- The page tables below `root`, told apart by ghost functions: a table's level, 4 for the root down
-- to 1, and 0 for all that is not a table; and the table and index that its entry stands at.
-- Every table is a page in use, and no page is huge.
pub record IsTree (s : Vmm) (root : ℕ) (level : ℕ → ℕ) (parent : ℕ → ℕ × ℕ) : Type 0 where
  pub valid : IsValid s.pmm
  pub small : s.pmm.bitmap_max_page ≤ 2 ^ 35
  pub root_level : level root ≡ 4
  pub page :
      (t : ℕ)
      → 0 < level t
      → (q : ℕ) × (0 < q)
        × (q < 2 ^ 35)
        × (t ≡ higher_half (q * 0x1000))
        × (is_free s.pmm.bitmap q ≡ false)
  pub child :
      (t i : ℕ)
      → 1 < level t
      → i < 512
      → is_present (s.tables t i) ≡ true
      → IsChild s level parent t i

-- The free pages that the allocator has.
abbrev pub free_pages : Pmm → ℕ
free_pages p = count_free p.bitmap p.bitmap_max_page

-- A page from the allocator.
pub record Fresh (p p' : Pmm) (q : ℕ) : Type 0 where
  pub runs : alloc p 0x1000 ≡ some (q * 0x1000, p')
  pub positive : 0 < q
  pub below : q < p.bitmap_max_page
  pub free : is_free p.bitmap q ≡ true
  pub others : (x : ℕ) → is_free p'.bitmap x ≡ (is_free p.bitmap x && not (x == q))
  pub valid : IsValid p'
  pub same_size : p'.bitmap_max_page ≡ p.bitmap_max_page
  pub fewer : free_pages p' + 1 ≡ free_pages p

free_page : (bm : Bitmap) (n : ℕ) → 0 < count_free bm n → (p : ℕ) × (p < n) × (is_free bm p ≡ true)
unfolding count_free
free_page bm zero h = absurd (omega (arith, h))
free_page bm (suc n) h = elim (Bool-cases (is_free bm n)) [
  | inl e ↦ (n, omega arith, e)
  | inr e ↦
      let fewer : 0 < count_free bm n =
        omega (arith, subst (λ b. 0 < count_free bm n + (if b then 1 else 0)) e h) in
      let (p, lt, free) = free_page bm n fewer in (p, omega (arith, lt), free)
]

count_free-taken :
    (bm bm' : Bitmap) (q n : ℕ)
    → is_free bm q ≡ true
    → ((x : ℕ) → is_free bm' x ≡ (is_free bm x && not (x == q)))
    → count_free bm' n + (if ltb q n then 1 else 0) ≡ count_free bm n
unfolding count_free
count_free-taken bm bm' q zero free others = ground arith
count_free-taken bm bm' q (suc n) free others =
    let rest = count_free-taken bm bm' q n free others in
    elim (Bool-cases (n == q)) [
      | inl e ↦
          let same = (==_iff n q).0 e in
          let at : is_free bm n ≡ true = subst (λ x. is_free bm x ≡ true) (sym same) free in
          rw (others n, at, e) (ground (arith, rest, same))
      | inr e ↦ rw (others n, e) (ground (arith, rest, e))
    ]

one_page : (q y : ℕ) → within q 1 y ≡ (y == q)
one_page q y = ground arith

positive_page : (p : Pmm) (q : ℕ) → is_free p.bitmap 0 ≡ false → is_free p.bitmap q ≡ true → 0 < q
positive_page p zero low free = absurd (false≢true (sym low ∙ free))
positive_page p (suc q) low free = omega arith

pub fresh : (p : Pmm) → IsValid p → 0 < free_pages p → (q : ℕ) × (p' : Pmm) × Fresh p p' q
fresh p v h =
    let (x, lt, free) = free_page p.bitmap p.bitmap_max_page h in
    let (addr, p', runs, at) =
      alloc-succeeds 0x1000 x v (omega arith, omega arith) (omega (arith, lt))
        (λ y lo hi.
          subst (λ z. is_free p.bitmap z ≡ true) {x = x} {y = y} (omega (arith, lo, hi)) free) in
    let q = addr / 0x1000 in
    let size : (0 < 0x1000) × (0x1000 + 0xfff < 2 ^ 64) = (omega arith, omega arith) in
    let (aligned, covers, room, taken, here) = alloc-takes 0x1000 addr q v size runs in
    let (valid, available, used, same_size) = alloc-IsValid 0x1000 addr v size runs in
    let was_free : is_free p.bitmap q ≡ true = ground (arith, taken) in
    let others : (y : ℕ) → is_free p'.bitmap y ≡ (is_free p.bitmap y && not (y == q)) = λ y.
      (alloc-takes 0x1000 addr y v size runs).4
      ∙ ap (λ b. is_free p.bitmap y && not b) (one_page q y) in
    let counts = count_free-taken p.bitmap p'.bitmap q p.bitmap_max_page was_free others in
    let below : q < p.bitmap_max_page = omega (arith, room) in
    let inside : ltb q p.bitmap_max_page ≡ true = ground (arith, below) in
    let whole : addr ≡ q * 0x1000 = omega (arith, aligned) in
    (
      q,
      p',
      record {
        runs = runs ∙ ap (λ a. some (a, p')) whole;
        positive = positive_page p q v.low was_free;
        below = below;
        free = was_free;
        others = others;
        valid = valid;
        same_size = same_size;
        fewer =
            ap (λ n. count_free p'.bitmap n + 1) same_size
            ∙ subst
                (λ b. count_free p'.bitmap p.bitmap_max_page + (if b then 1 else 0) ≡ free_pages p)
                inside counts;
      },
    )
