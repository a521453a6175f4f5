-- ===== src/Vmm/Leaves.antt =====
-- Writing an entry of a lowest table (src/mm/vmm.c), and walks that end at the same table.
use drip_os.Prelude.{
  ℕ, suc, ◌/◌, ◌%◌, ◌^◌, ◌<◌, ◌≡◌, refl, sym, ap, ◌∙◌, subst, false, ◌==◌, arith, Bool-cases, inl,
  inr, ==_iff,
}
use drip_os.Vmm.{Vmm, PtOff, higher_half, is_present, is_huge, frame_of, set_entry, virt_to_offs}
use drip_os.Vmm.Tree.{IsTree}
use drip_os.Vmm.Walk.{AreIndices, IsWalk, Leads-same, Leads-parent, IsWalk-levels}

pub virt_to_offs-frame : (virt : ℕ) → virt_to_offs (frame_of virt) ≡ virt_to_offs virt
unfolding virt_to_offs
virt_to_offs-frame virt =
    let e4 : frame_of virt / 2 ^ 39 % 512 ≡ virt / 2 ^ 39 % 512 = omega arith in
    let e3 : frame_of virt / 2 ^ 30 % 512 ≡ virt / 2 ^ 30 % 512 = omega arith in
    let e2 : frame_of virt / 2 ^ 21 % 512 ≡ virt / 2 ^ 21 % 512 = omega arith in
    let e1 : frame_of virt / 2 ^ 12 % 512 ≡ virt / 2 ^ 12 % 512 = omega arith in
    λ i. record { p4_off = e4 i; p3_off = e3 i; p2_off = e2 i; p1_off = e1 i }

-- Writing an entry of a table of the lowest level.
module _ (s : Vmm) (root : ℕ) (level : ℕ → ℕ) (parent : ℕ → ℕ × ℕ)
    (tree : IsTree s root level parent) (p1 o1 entry : ℕ) (lowest : level p1 ≡ 1) where
  upper_same : (t i : ℕ) → 1 < level t → (set_entry s p1 o1 entry).tables t i ≡ s.tables t i
  upper_same t i h =
      let apart : (t == p1) ≡ false = elim (Bool-cases (t == p1)) [
        | inl e ↦
            absurd (omega (arith, h, subst (λ x. level x ≡ 1) (sym ((==_iff t p1).0 e)) lowest))
        | inr e ↦ e
      ] in
      rw apart refl

  pub set_entry-IsTree : IsTree (set_entry s p1 o1 entry) root level parent
  set_entry-IsTree = record {
    valid = tree.valid;
    small = tree.small;
    root_level = tree.root_level;
    page = tree.page;
    child = λ t i h lt present.
        let same = upper_same t i h in
        subst
          (λ v.
            (is_huge v ≡ false)
            × (suc (level (higher_half (frame_of v))) ≡ level t)
            × (parent (higher_half (frame_of v)) ≡ (t, i)))
          (sym same) (tree.child t i h lt (sym (ap is_present same) ∙ present));
  }

  pub set_entry-IsWalk :
      (offs : PtOff) (q3 q2 q1 : ℕ)
      → AreIndices offs
      → IsWalk s root offs q3 q2 q1
      → IsWalk (set_entry s p1 o1 entry) root offs q3 q2 q1
  set_entry-IsWalk offs q3 q2 q1 v w =
      let (l3, l2, l1) = IsWalk-levels s root level parent tree offs q3 q2 q1 v w in
      let s' = set_entry s p1 o1 entry in
      (
        Leads-same s s' root offs.p4_off q3
            (upper_same root offs.p4_off (omega (arith, tree.root_level))) w.0,
        Leads-same s s' q3 offs.p3_off q2 (upper_same q3 offs.p3_off (omega (arith, l3))) w.1,
        Leads-same s s' q2 offs.p2_off q1 (upper_same q2 offs.p2_off (omega (arith, l2))) w.2,
      )

-- Two walks to the same table have the same upper indices.
pub same_walk :
    (s : Vmm) (root : ℕ) (level : ℕ → ℕ) (parent : ℕ → ℕ × ℕ) (offs offs' : PtOff)
    (p3 p2 p3' p2' p1 : ℕ)
    → IsTree s root level parent
    → AreIndices offs
    → AreIndices offs'
    → IsWalk s root offs p3 p2 p1
    → IsWalk s root offs' p3' p2' p1
    → (offs.p4_off ≡ offs'.p4_off) × (offs.p3_off ≡ offs'.p3_off) × (offs.p2_off ≡ offs'.p2_off)
same_walk s root level parent offs offs' p3 p2 p3' p2' p1 tree v v' w w' =
    let (l3, l2, l1) = IsWalk-levels s root level parent tree offs p3 p2 p1 v w in
    let (m3, m2, m1) = IsWalk-levels s root level parent tree offs' p3' p2' p1 v' w' in
    let last =
      sym (Leads-parent s root level parent tree p2 offs.p2_off p1 (omega (arith, l2)) v.2 w.2)
      ∙ Leads-parent s root level parent tree p2' offs'.p2_off p1 (omega (arith, m2)) v'.2 w'.2 in
    let middle =
      sym (Leads-parent s root level parent tree p3 offs.p3_off p2 (omega (arith, l3)) v.1 w.1)
      ∙ ap parent (ap (λ x. x.0) last)
      ∙ Leads-parent s root level parent tree p3' offs'.p3_off p2' (omega (arith, m3)) v'.1 w'.1 in
    let first =
      sym (
        Leads-parent s root level parent tree root offs.p4_off p3 (omega (arith, tree.root_level))
          v.0 w.0)
      ∙ ap parent (ap (λ x. x.0) middle)
      ∙ Leads-parent s root level parent tree root offs'.p4_off p3' (omega (arith, tree.root_level))
          v'.0 w'.0 in
    (ap (λ x. x.1) first, ap (λ x. x.1) middle, ap (λ x. x.1) last)

pub same_offs :
    (offs offs' : PtOff)
    → offs.p4_off ≡ offs'.p4_off
    → offs.p3_off ≡ offs'.p3_off
    → offs.p2_off ≡ offs'.p2_off
    → offs.p1_off ≡ offs'.p1_off
    → offs ≡ offs'
same_offs offs offs' e4 e3 e2 e1 =
    λ i. record { p4_off = e4 i; p3_off = e3 i; p2_off = e2 i; p1_off = e1 i }
