-- ===== src/HashMap/Set.antt =====
-- `hashmap_set_elem` (src/klibc/hashmap.c) changes the data of one key.
use drip_os.Prelude.{
  ℕ, ◌<◌, ◌≡◌, ◌≢◌, refl, sym, ap, ◌∙◌, false, if◌then◌else◌, none, some, subst, [], ◌∷◌, ◌==◌,
  arith, Bool-cases, Option-cases, inl, inr, ==_iff, false≢true,
}
use drip_os.HashMap.{Kind, HashMap, bucket_of, get_elem_dat, add_elem, set_elem}
use drip_os.HashMap.Chains.{
  Binding, Chain, All, All-map, put_elem_self, put_elem_other, find_entry, value, find_elem-none,
}
use drip_os.HashMap.Extend.{
  Chain-none, Chain-Cons, Extends, with_bucket, IsMap-Extends, insert, value-insert, absent-keys,
}
use drip_os.HashMap.Insert.{chain-Linked}
use drip_os.HashMap.Maps.{Distinct, Represents}
use drip_os.HashMap.Replace.{updated, set_elem-found}
use drip_os.HashMap.Fresh.{next_there, alone-Extends, linked-Extends, fresh, with_fresh, alone}

module _ {K : Type 0} (kind : Kind K) where
  -- The function of a map whose bucket has the new entry.
  inserted-agrees :
      (m : HashMap K) (f : K → ℕ) (key : K) (d : ℕ) (k : K)
      → (r : Represents kind m f) → find_entry kind (r.entries (bucket_of kind key)) key ≡ none
      → (let b = bucket_of kind key in
          let en : Binding K = record { address = m.next_elem; key = key; data_ptr = d } in
          value kind
            (with_bucket kind r.entries b (insert kind en (r.entries b)) (bucket_of kind k))
            k
          ≡ updated kind f key d k)
  inserted-agrees m f key d k r absent =
      let b = bucket_of kind key in
      let en : Binding K = record { address = m.next_elem; key = key; data_ptr = d } in
      elim (Bool-cases (bucket_of kind k == b)) [
        | inl y ↦
            let k_b = (==_iff (bucket_of kind k) b).0 y in
            let old : value kind (r.entries b) k ≡ f k =
              ap (λ c. value kind (r.entries c) k) (sym k_b) ∙ r.agrees k in
            rw y (
              value-insert kind en (r.entries b) k absent
              ∙ ap (λ z. if kind.same key k then d else z) old)
        | inr n ↦
            let other : kind.same key k ≡ false = elim (Bool-cases (kind.same key k)) [
              | inr o ↦ o
              | inl same ↦
                  let key_k = (kind.same_iff key k).0 same in
                  absurd (
                    false≢true
                      (sym n ∙ (==_iff (bucket_of kind k) b).1 (ap (bucket_of kind) (sym key_k))))
            ] in
            rw (n, other) (r.agrees k)
      ]

  set_elem-absent :
      (m : HashMap K) (f : K → ℕ) (key : K) (d : ℕ)
      → (r : Represents kind m f) → find_entry kind (r.entries (bucket_of kind key)) key ≡ none
      → (m' : HashMap K) × (set_elem kind key d m ≡ some m')
        × Represents kind m' (updated kind f key d)
  unfolding set_elem get_elem_dat add_elem
  set_elem-absent m f key d r absent =
      let b = bucket_of kind key in
      let w = r.well_formed in
      let es = r.entries in
      let en : Binding K = record { address = m.next_elem; key = key; data_ptr = d } in
      let lacks =
        find_elem-none kind key m m.next_elem none (m.buckets b) (es b) (w.chains b) (w.fits b)
          absent in
      elim (Option-cases (m.buckets b)) [
        | inl e ↦
            let none_there : es b ≡ [] =
              Chain-none m none (es b) (subst (λ h. Chain m none h (es b)) e (w.chains b)) in
            let added : add_elem kind key d m ≡ some (alone kind m key d) = rw (add_elem, e) refl in
            let own : insert kind en (es b) ≡ en ∷ [] = ap (insert kind en) none_there in
            (
              alone kind m key d,
              rw lacks added,
              record {
                entries = with_bucket kind es b (insert kind en (es b));
                well_formed =
                    IsMap-Extends kind m (alone kind m key d) es b (insert kind en (es b)) w (
                      subst (Extends kind m (alone kind m key d) es b) (sym own)
                        (alone-Extends kind m es key d w));
                agrees = λ k. inserted-agrees m f key d k r absent;
              },
            )
        | inr (first, e) ↦
            let cons =
              Chain-Cons m none first (es b) (subst (λ h. Chain m none h (es b)) e (w.chains b)) in
            let keys = absent-keys kind (es b) key absent in
            let (head_distinct, rest_distinct) = subst Distinct cons.whole (w.distinct b) in
            let (head_older, rest_older) =
              subst (All (λ x. x.address < m.next_elem)) cons.whole (w.older b) in
            let young : first ≢ m.next_elem =
              λ s. absurd (omega (arith, s, cons.address, head_older)) in
            let there =
              next_there m first cons.elem cons.elem.next cons.rest cons.at cons.behind
                (All-map cons.rest (λ x ne s. ne (s ∙ cons.key)) head_distinct) rest_older key d in
            let (m', eq, linked) =
              chain-Linked (with_fresh m key d) first m.next_elem cons.elem (fresh key d)
                (put_elem_other m m.next_elem first (some (fresh key d)) young ∙ cons.at)
                (put_elem_self m m.next_elem (some (fresh key d))) young there in
            let added : add_elem kind key d m ≡ some m' = rw (add_elem, e) eq in
            (
              m',
              rw lacks added,
              record {
                entries = with_bucket kind es b (insert kind en (es b));
                well_formed =
                    IsMap-Extends kind m m' es b (insert kind en (es b)) w
                      (linked-Extends kind m es key d first w cons e keys m' linked);
                agrees = λ k. inserted-agrees m f key d k r absent;
              },
            )
      ]

  -- On a map that stands for a function, `hashmap_set_elem` never fails, and the map it leaves
  -- stands for the function that gives the key the new data and every other key what it had.
  pub set_elem-Represents :
      (m : HashMap K) (f : K → ℕ) (key : K) (d : ℕ)
      → Represents kind m f
      → (m' : HashMap K) × (set_elem kind key d m ≡ some m')
        × Represents kind m' (λ k. if kind.same key k then d else f k)
  set_elem-Represents m f key d r =
      elim (Option-cases (find_entry kind (r.entries (bucket_of kind key)) key)) [
        | inl e ↦ set_elem-absent m f key d r e
        | inr (en, e) ↦ set_elem-found kind m f key d en r e
      ]
