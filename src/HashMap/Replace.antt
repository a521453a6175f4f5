-- ===== src/HashMap/Replace.antt =====
-- `hashmap_set_elem` (src/klibc/hashmap.c) of a key that the map has.
use drip_os.Prelude.{
  ℕ, suc, ◌+◌, ◌%◌, ◌^◌, ◌<◌, ◌≡◌, ◌≢◌, refl, sym, ap, ◌∙◌, true, if◌then◌else◌, Option, none, some,
  none≢some, some-injective, subst, List, [], ◌∷◌, ◌==◌, Bool-cases, inl, inr, length, ==_iff,
  false≢true, map,
}
use drip_os.HashMap.{
  Kind, Elem, HashMap, put_elem, inc_ref, bucket_of, get_elem_dat, unref_elem, set_elem,
}
use drip_os.HashMap.Chains.{
  Binding, Chain, nil, link, All, put_elem_self, put_elem_other, put_elem_twice, find_entry, value,
  find_elem-some,
}
use drip_os.HashMap.Maps.{Distinct, IsMap, Represents, unref-inc}

module _ {K : Type 0} where
  -- The entry of an address gets new data.
  abbrev pub renew : ℕ → ℕ → Binding K → Binding K
  renew a d en = if en.address == a then record en { data_ptr = d } else en

  renew-address : (a d : ℕ) (en : Binding K) → (renew a d en).address ≡ en.address
  renew-address a d en = elim (Bool-cases (en.address == a)) [
    | inl y ↦ rw y refl
    | inr n ↦ rw n refl
  ]

  renew-key : (a d : ℕ) (en : Binding K) → (renew a d en).key ≡ en.key
  renew-key a d en = elim (Bool-cases (en.address == a)) [ inl y ↦ rw y refl | inr n ↦ rw n refl ]

  -- What holds of addresses and keys holds after a renewal.
  All-renew :
      (P : ℕ → K → Type 0) (a d : ℕ) (es : List (Binding K))
      → All (λ en. P en.address en.key) es
      → All (λ en. P en.address en.key) (map (renew a d) es)
  All-renew P a d [] v = tt
  All-renew P a d (en ∷ es) (p, v) = (
    subst (λ x. P x (renew a d en).key) (sym (renew-address a d en))
        (subst (λ k. P en.address k) (sym (renew-key a d en)) p),
    All-renew P a d es v,
  )

  Distinct-renew : (a d : ℕ) (es : List (Binding K)) → Distinct es → Distinct (map (renew a d) es)
  Distinct-renew a d [] v = tt
  Distinct-renew a d (en ∷ es) (apart, v) =
      (rw (renew-key a d en) (All-renew (λ _ k. k ≢ en.key) a d es apart), Distinct-renew a d es v)

  length-renew : (a d : ℕ) (es : List (Binding K)) → length (map (renew a d) es) ≡ length es
  length-renew a d [] = refl
  length-renew a d (en ∷ es) = ap suc (length-renew a d es)

  Chain-renew :
      (m : HashMap K) (a d : ℕ) (x : Elem K) (prev cur : Option ℕ) (es : List (Binding K))
      → m.elems a ≡ some x
      → Chain m prev cur es
      → Chain (put_elem a (some (record x { data_ptr = d })) m) prev cur (map (renew a d) es)
  Chain-renew m a d x prev cur es at_a (nil _) = nil prev
  Chain-renew m a d x prev cur es at_a (link _ en e es' at key dat up ref rest) =
      let rest' = Chain-renew m a d x (some en.address) e.next es' at_a rest in
      elim (Bool-cases (en.address == a)) [
        | inl here ↦
            let same = (==_iff en.address a).0 here in
            let one : x ≡ e = some-injective (sym at_a ∙ ap m.elems (sym same) ∙ at) in
            rw here (
              link prev (record en { data_ptr = d }) (record e { data_ptr = d })
                (map (renew a d) es')
                (rw (same, one) (put_elem_self m a (some (record e { data_ptr = d })))) key refl up
                ref rest')
        | inr other ↦
            let ne : en.address ≢ a =
              λ same. false≢true (sym other ∙ (==_iff en.address a).1 same) in
            rw other (
              link prev en e (map (renew a d) es')
                (put_elem_other m a en.address (some (record x { data_ptr = d })) ne ∙ at) key dat
                up ref rest')
      ]

module _ {K : Type 0} (kind : Kind K) where
  pub value-cons :
      (en : Binding K) (es : List (Binding K)) (k : K)
      → value kind (en ∷ es) k ≡ (if kind.same en.key k then en.data_ptr else value kind es k)
  unfolding value find_entry
  value-cons en es k = elim (Bool-cases (kind.same en.key k)) [
    | inl y ↦ rw (value, y) refl
    | inr n ↦ rw (value, n) refl
  ]

  -- Other keys keep their data.
  value-renew_other :
      (m : HashMap K) (a d : ℕ) (x : Elem K) (k : K) (prev cur : Option ℕ) (es : List (Binding K))
      → m.elems a ≡ some x
      → x.key ≢ k
      → Chain m prev cur es
      → value kind (map (renew a d) es) k ≡ value kind es k
  value-renew_other m a d x k prev cur es at_a ne (nil _) = refl
  value-renew_other m a d x k prev cur es at_a ne (link _ en e es' at key dat up ref rest) =
      let rest' = value-renew_other m a d x k (some en.address) e.next es' at_a ne rest in
      rw
        (
          value-cons (renew a d en) (map (renew a d) es') k,
          value-cons en es' k,
          renew-key a d en,
          rest',
        )
        (elim (Bool-cases (kind.same en.key k)) [
          | inr n ↦ rw n refl
          | inl y ↦ rw y (elim (Bool-cases (en.address == a)) [
            | inr n ↦ rw n refl
            | inl here ↦
                let same = (==_iff en.address a).0 here in
                let one : x ≡ e = some-injective (sym at_a ∙ ap m.elems (sym same) ∙ at) in
                absurd (ne (ap (λ z. z.key) one ∙ key ∙ (kind.same_iff en.key k).0 y))
          ])
        ])

  -- The key has the new data.
  value-renew_key :
      (d : ℕ) (key : K) (es : List (Binding K)) (found : Binding K)
      → find_entry kind es key ≡ some found
      → value kind (map (renew found.address d) es) key ≡ d
  unfolding find_entry
  value-renew_key d key [] found e = absurd (none≢some e)
  value-renew_key d key (en ∷ es) found e =
      rw
        (
          value-cons (renew found.address d en) (map (renew found.address d) es) key,
          renew-key found.address d en,
        )
        (elim (Bool-cases (kind.same en.key key)) [
          | inl y ↦
              let one : en ≡ found = some-injective (rw y at e) in
              let here : (en.address == found.address) ≡ true =
                (==_iff _ _).1 (ap (λ z. z.address) one) in
              rw (y, here) refl
          | inr n ↦ rw n (value-renew_key d key es found (rw n at e))
        ])

  -- What the function becomes.
  abbrev pub updated : (K → ℕ) → K → ℕ → K → ℕ
  updated f key d k = if kind.same key k then d else f k

  same_refl : (k : K) → kind.same k k ≡ true
  same_refl k = (kind.same_iff k k).1 refl

  IsMap-renew :
      (m : HashMap K) (es : ℕ → List (Binding K)) (a d : ℕ) (x : Elem K)
      → IsMap kind m es
      → m.elems a ≡ some x
      → IsMap kind (put_elem a (some (record x { data_ptr = d })) m) (λ b. map (renew a d) (es b))
  unfolding put_elem
  IsMap-renew m es a d x w at = record {
    chains = λ b. Chain-renew m a d x none (m.buckets b) (es b) at (w.chains b);
    hashed = λ b. All-renew (λ _ k. bucket_of kind k ≡ b) a d (es b) (w.hashed b);
    distinct = λ b. Distinct-renew a d (es b) (w.distinct b);
    older = λ b. All-renew (λ y _. y < m.next_elem) a d (es b) (w.older b);
    fits = λ b. rw (length-renew a d (es b)) (w.fits b);
  }

  unref-renewed :
      (m : HashMap K) (a d : ℕ) (x : Elem K)
      → x.ref_count ≡ 1
      → unref_elem kind a (
          put_elem a (some (record (inc_ref x) { data_ptr = d })) (put_elem a (some (inc_ref x)) m))
        ≡ some (put_elem a (some (record x { data_ptr = d })) m)
  unref-renewed m a d x one =
      let two : (x.ref_count + 1) % 2 ^ 32 ≡ 2 = rw one refl in
      let new = record (inc_ref x) { data_ptr = d } in
      let same : record new { ref_count = 1 } ≡ record x { data_ptr = d } =
        ap (λ r. record x { data_ptr = d; ref_count = r }) (sym one) in
      rw (put_elem_twice m a (some (inc_ref x)) (some new)) (
        unref-inc kind (put_elem a (some new) m) a new (put_elem_self m a (some new)) two
        ∙ ap some (
            put_elem_twice m a (some new) (some (record new { ref_count = 1 }))
            ∙ ap (λ y. put_elem a (some y) m) same))

  pub set_elem-found :
      (m : HashMap K) (f : K → ℕ) (key : K) (d : ℕ) (en : Binding K)
      → (r : Represents kind m f) → find_entry kind (r.entries (bucket_of kind key)) key ≡ some en
      → (m' : HashMap K) × (set_elem kind key d m ≡ some m') × Represents kind m' (updated f key d)
  unfolding set_elem get_elem_dat
  set_elem-found m f key d en r e =
      let b = bucket_of kind key in
      let w = r.well_formed in
      let (x, found, eq) =
        find_elem-some kind key m m.next_elem none (m.buckets b) (r.entries b) en (w.chains b)
          (w.fits b) e in
      let a = en.address in
      let x_key : x.key ≡ key = found.key_same ∙ (kind.same_iff en.key key).0 found.same in
      (
        put_elem a (some (record x { data_ptr = d })) m,
        rw (eq, put_elem_self m a (some (inc_ref x))) (unref-renewed m a d x found.one_ref),
        record {
          entries = λ c. map (renew a d) (r.entries c);
          well_formed = IsMap-renew m r.entries a d x w found.at;
          agrees = λ k. elim (Bool-cases (kind.same key k)) [
            | inl y ↦
                let key_k = (kind.same_iff key k).0 y in
                rw y (
                  subst (λ z. value kind (map (renew a d) (r.entries (bucket_of kind z))) z ≡ d)
                    key_k (value-renew_key d key (r.entries b) en e))
            | inr n ↦
                let ne : x.key ≢ k =
                  λ same. false≢true (sym n ∙ (kind.same_iff key k).1 (sym x_key ∙ same)) in
                let c = bucket_of kind k in
                rw n (
                  value-renew_other m a d x k none (m.buckets c) (r.entries c) found.at ne
                    (w.chains c)
                  ∙ r.agrees k)
          ];
        },
      )
