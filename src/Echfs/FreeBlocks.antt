-- ===== src/Echfs/FreeBlocks.antt =====
-- Free blocks of an echFS device (src/fs/filesystems/echfs.c), counted and taken.
use drip_os.Prelude.{
  ℕ, zero, suc, ◌+◌, ◌^◌, ◌≤◌, ◌<◌, ◌≡◌, List, [], ◌∷◌, if◌then◌else◌, ◌==◌, arith, Bool-cases, inl,
  inr, ==_iff, subst, leb,
}
use drip_os.Echfs.{Geometry, Store, end_of_chain}
use drip_os.Echfs.Cache.{entry_of}
use drip_os.Echfs.Extend.{Linked, free_count, AreFree}

abbrev one_if_free : ℕ → ℕ
one_if_free e = if e == 0 then 1 else 0

-- A block that is counted can be found.
pub free_count-block :
    (g : Geometry) (s : Store) (n i : ℕ)
    → 0 < free_count g s n i
    → (k : ℕ) × (entry_of g s k ≡ 0) × (i ≤ k) × (k < i + n)
free_count-block g s zero i some_free = absurd (omega (arith, some_free))
free_count-block g s (suc n) i some_free = elim (Bool-cases (entry_of g s i == 0)) [
  | inl e ↦ (i, (==_iff _ 0).0 e, omega arith, omega arith)
  | inr e ↦
      let fewer : 0 < free_count g s n (i + 1) =
        omega
          (arith, subst (λ b. 0 < (if b then 1 else 0) + free_count g s n (i + 1)) e some_free) in
      let (k, free, lo, hi) = free_count-block g s n (i + 1) fewer in
      (k, free, omega (arith, lo), omega (arith, hi))
]

-- Taking one free block leaves all the others free.
pub free_count-Linked :
    (g : Geometry) (s s' : Store) (l f n i : ℕ)
    → Linked g s s' l f
    → i + n ≤ 2 ^ 61
    → entry_of g s l ≡ end_of_chain
    → free_count g s n i ≤ free_count g s' n i + (if leb i f then 1 else 0)
free_count-Linked g s s' l f zero i linked fits ended = ground arith
free_count-Linked g s s' l f (suc n) i linked fits ended =
    let later = free_count-Linked g s s' l f n (i + 1) linked (omega (arith, fits)) ended in
    let here : one_if_free (entry_of g s i)
        ≤ one_if_free (entry_of g s' i) + (if f == i then 1 else 0) =
      rw (linked i (omega (arith, fits))) (elim (Bool-cases (l == i)) [
        | inl e ↦
            let at : entry_of g s i ≡ end_of_chain =
              subst (λ j. entry_of g s j ≡ end_of_chain) ((==_iff l i).0 e) ended in
            rw at (omega arith)
        | inr e ↦ rw e (elim (Bool-cases (f == i)) [
          | inl a ↦ rw a (ground arith)
          | inr a ↦ rw a (omega arith)
        ])
      ]) in
    let split : (if f == i then 1 else 0) + (if leb (i + 1) f then 1 else 0)
        ≡ (if leb i f then 1 else 0) =
      ground arith in
    omega (arith, here, later, split)

pub Linked-free :
    (g : Geometry) (s s' : Store) (l f x : ℕ)
    → Linked g s s' l f
    → 0 < f
    → x < 2 ^ 61
    → entry_of g s' x ≡ 0
    → entry_of g s x ≡ 0
Linked-free g s s' l f x linked pos lt free = ground (arith, linked x lt, pos, free)

pub AreFree-Linked :
    (g : Geometry) (s s' : Store) (l f : ℕ) (new : List ℕ)
    → Linked g s s' l f
    → 0 < f
    → g.blocks ≤ 2 ^ 61
    → AreFree g s' new
    → AreFree g s new
AreFree-Linked g s s' l f [] linked pos fits v = v
AreFree-Linked g s s' l f (x ∷ new) linked pos fits (lt, free, v) = (
  lt,
  Linked-free g s s' l f x linked pos (omega (arith, lt, fits)) free,
  AreFree-Linked g s s' l f new linked pos fits v,
)
