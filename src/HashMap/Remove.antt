-- ===== src/HashMap/Remove.antt =====
-- `hashmap_remove_elem` and `strhashmap_remove_elem` (src/klibc/hashmap.c,
-- src/klibc/strhashmap.c) of the first element of a bucket.
use drip_os.Prelude.{
  Bool-cases, inl, inr, ◌⊎◌, ℕ, suc, ◌+◌, ◌-◌, ◌%◌, ◌^◌, ◌<◌, ◌≡◌, ◌≢◌, refl, sym, ap, ◌∙◌, true,
  false, if◌then◌else◌, Option, none, some, some-injective, subst, List, ◌∷◌, ◌==◌, arith,
}
use drip_os.HashMap.{
  Kind, Elem, HashMap, put_elem, inc_ref, set_next, set_prev, unchain, bucket_of, find_elem,
  get_elem_dat, free_elem, unref_elem, get_elem, remove_elem,
}
use drip_os.HashMap.Chains.{
  Binding, Chain, nil, link, All, All-map, put_elem_self, put_elem_other, value,
}
use drip_os.HashMap.Extend.{Cons, Chain-Cons}
use drip_os.HashMap.Maps.{Distinct, Represents, unref-found}
use drip_os.HashMap.Replace.{value-cons}

module _ {K : Type 0} (kind : Kind K) where
  -- Finding the first element of a bucket, whatever its references are short of the greatest.
  find_first :
      (m : HashMap K) (key : K) (a : ℕ) (e : Elem K)
      → m.buckets (bucket_of kind key) ≡ some a
      → m.elems a ≡ some e
      → e.key ≡ key
      → ((e.ref_count + 1) % 2 ^ 32 == 0) ≡ false
      → 0 < m.next_elem
      → get_elem_dat kind key m ≡ some (some a, put_elem a (some (inc_ref e)) m)
  unfolding get_elem_dat find_elem
  find_first m key a e head at same live some_elem =
      let fuel : m.next_elem ≡ suc (m.next_elem - 1) = omega (arith, some_elem) in
      let yes_k : kind.same e.key key ≡ true = (kind.same_iff e.key key).1 same in
      rw (head, fuel, at, yes_k, live) refl

  -- The element behind the first, if any, is there.
  abbrev pub BehindThere : HashMap K → ℕ → Option ℕ → Type 0
  BehindThere m a none = Unit {0}
  BehindThere m a (some x) = (x ≢ a) × ((y : Elem K) × (m.elems x ≡ some y))

  unchain-first :
      (m : HashMap K) (a : ℕ) (e : Elem K) (next : Option ℕ)
      → m.elems a ≡ some e
      → e.prev ≡ none
      → e.next ≡ next
      → BehindThere m a next
      → (m' : HashMap K) × (unchain a m ≡ some m')
        × (m'.buckets ≡ m.buckets)
        × (m'.next_elem ≡ m.next_elem)
        × (m'.elems a ≡ some e)
        × BehindThere m' a next
  unfolding unchain set_next set_prev put_elem
  unchain-first m a e none at first e_next there =
      (m, rw (at, first) (rw (at, e_next) refl), refl, refl, at, tt)
  unchain-first m a e (some x) at first e_next (ne, (y, at_x)) =
      let y' = record y { prev = e.prev } in
      (
        put_elem x (some y') m,
        rw (at, first) (rw (at, e_next, at_x, first) refl),
        refl,
        refl,
        put_elem_other m x a (some y') (λ s. ne (sym s)) ∙ at,
        (ne, (y', put_elem_self m x (some y'))),
      )

  BehindThere-put :
      (m : HashMap K) (a : ℕ) (o : Option (Elem K)) (next : Option ℕ)
      → BehindThere m a next
      → BehindThere (put_elem a o m) a next
  BehindThere-put m a o none there = tt
  BehindThere-put m a o (some x) (ne, (y, at)) = (ne, (y, put_elem_other m a x o ne ∙ at))

  put_elem-globals :
      (m : HashMap K) (a : ℕ) (o : Option (Elem K))
      → ((put_elem a o m).buckets ≡ m.buckets) × ((put_elem a o m).next_elem ≡ m.next_elem)
  unfolding put_elem
  put_elem-globals m a o = (refl, refl)

  -- Giving back the last reference to the first element of a bucket.
  unref-last :
      (m : HashMap K) (a : ℕ) (e : Elem K)
      → m.elems a ≡ some e
      → e.prev ≡ none
      → e.ref_count ≡ 1
      → BehindThere m a e.next
      → (m' : HashMap K) × (unref_elem kind a m ≡ some (free_elem kind a m'))
        × (m'.buckets ≡ m.buckets)
        × (m'.next_elem ≡ m.next_elem)
        × (m'.elems a ≡ some (record e { ref_count = 0 }))
        × BehindThere m' a e.next
  unfolding unref_elem
  unref-last m a e at first one there =
      let e0 = record e { ref_count = 0 } in
      let zero_ref : (e.ref_count + (2 ^ 32 - 1)) % 2 ^ 32 ≡ 0 = rw one refl in
      let m1 = put_elem a (some e0) m in
      let (buckets, next_elem) = put_elem-globals m a (some e0) in
      let (m', eq, head, next, at', there') =
        unchain-first m1 a e0 e.next (put_elem_self m a (some e0)) first refl
          (BehindThere-put m a (some e0) e.next there) in
      (m', rw (at, zero_ref, eq) refl, head ∙ buckets, next ∙ next_elem, at', there')

  BehindThere-rest :
      (m : HashMap K) (a : ℕ) (e : Elem K) (next : Option ℕ) (rest : List (Binding K))
      → m.elems a ≡ some e
      → Chain m (some a) next rest
      → All (λ x. x.key ≢ e.key) rest
      → BehindThere m a next
  BehindThere-rest m a e next rest at (nil _) others = tt
  BehindThere-rest m a e next rest at (link _ en y es at_y k d up ref behind) (ne, others) = (
    λ s.
        let one : y ≡ e = some-injective (sym at_y ∙ ap m.elems s ∙ at) in
        ne (sym k ∙ ap (λ z. z.key) one),
    (y, at_y),
  )

  -- The data of the first element of a bucket is that of its key.
  value-first :
      (m : HashMap K) (f : K → ℕ) (key : K) (a : ℕ)
      → (r : Represents kind m f) → (cons : Cons m none a (r.entries (bucket_of kind key)))
      → cons.elem.key ≡ key
      → cons.elem.data_ptr ≡ f key
  value-first m f key a r cons same =
      let yes_k : kind.same cons.entry.key key ≡ true =
        (kind.same_iff cons.entry.key key).1 (sym cons.key ∙ same) in
      let first : value kind (cons.entry ∷ cons.rest) key ≡ cons.entry.data_ptr =
        value-cons kind cons.entry cons.rest key ∙ rw yes_k refl in
      cons.data_ptr ∙ sym first ∙ ap (λ l. value kind l key) (sym cons.whole) ∙ r.agrees key

  -- A first element without references is found, and its data given.
  get_elem-stale :
      (m : HashMap K) (key : K) (a : ℕ) (e : Elem K)
      → m.buckets (bucket_of kind key) ≡ some a
      → m.elems a ≡ some e
      → e.key ≡ key
      → e.prev ≡ none
      → e.ref_count ≡ 0
      → BehindThere m a e.next
      → 0 < m.next_elem
      → (m' : HashMap K) × (get_elem kind key m ≡ some (e.data_ptr, m'))
  unfolding get_elem
  get_elem-stale m key a e head at same up none_left there some_elem =
      let live : ((e.ref_count + 1) % 2 ^ 32 == 0) ≡ false = rw none_left refl in
      let one : (e.ref_count + 1) % 2 ^ 32 ≡ 1 = rw none_left refl in
      let found = find_first m key a e head at same live some_elem in
      let (m', last, b, n, at', t) =
        unref-last (put_elem a (some (inc_ref e)) m) a (inc_ref e)
          (put_elem_self m a (some (inc_ref e))) up one
          (BehindThere-put m a (some (inc_ref e)) e.next there) in
      (free_elem kind a m', rw (found, put_elem_self m a (some (inc_ref e)), last) refl)

  -- A first element that has been freed ends the search.
  get_elem-freed :
      (m : HashMap K) (key : K) (a : ℕ)
      → m.buckets (bucket_of kind key) ≡ some a
      → 0 < m.next_elem
      → get_elem kind key (put_elem a none m) ≡ none
  unfolding get_elem get_elem_dat find_elem
  get_elem-freed m key a head some_elem =
      let (buckets, next_elem) = put_elem-globals m a none in
      let fuel : (put_elem a none m).next_elem ≡ suc (m.next_elem - 1) =
        next_elem ∙ omega (arith, some_elem) in
      let head' : (put_elem a none m).buckets (bucket_of kind key) ≡ some a =
        ap (λ g. g (bucket_of kind key)) buckets ∙ head in
      rw (head', fuel, put_elem_self m a none) refl

  free_elem-keeps : (m : HashMap K) (a : ℕ) → kind.frees ≡ false → free_elem kind a m ≡ m
  unfolding free_elem
  free_elem-keeps m a e = ap (λ b. if b then put_elem a none m else m) e

  free_elem-frees :
      (m : HashMap K) (a : ℕ) → kind.frees ≡ true → free_elem kind a m ≡ put_elem a none m
  unfolding free_elem
  free_elem-frees m a e = ap (λ b. if b then put_elem a none m else m) e

  -- Taking out a key whose element is the first of its bucket leaves the bucket's pointer at the
  -- element. In a map that does not free it the key is found as before, with its data; in one that
  -- frees it the next search for the key goes through freed memory.
  pub remove_elem-first :
      (m : HashMap K) (f : K → ℕ) (key : K) (a : ℕ) (e : Elem K)
      → Represents kind m f
      → m.buckets (bucket_of kind key) ≡ some a
      → m.elems a ≡ some e
      → e.key ≡ key
      → (m' : HashMap K) × (remove_elem kind key m ≡ some m')
        × (((kind.frees ≡ false) × (m'' : HashMap K) × (get_elem kind key m' ≡ some (f key, m'')))
            ⊎ ((kind.frees ≡ true) × (get_elem kind key m' ≡ none)))
  unfolding remove_elem
  remove_elem-first m f key a e r head at same =
      let b = bucket_of kind key in
      let w = r.well_formed in
      let cons =
        Chain-Cons m none a (r.entries b)
          (subst (λ h. Chain m none h (r.entries b)) head (w.chains b)) in
      let one : cons.elem ≡ e = some-injective (sym cons.at ∙ at) in
      let ref : e.ref_count ≡ 1 = ap (λ x. x.ref_count) (sym one) ∙ cons.ref in
      let up : e.prev ≡ none = ap (λ x. x.prev) (sym one) ∙ cons.up in
      let data_f : e.data_ptr ≡ f key =
        ap (λ x. x.data_ptr) (sym one)
        ∙ value-first m f key a r cons (ap (λ x. x.key) one ∙ same) in
      let (head_distinct, rest_distinct) = subst Distinct cons.whole (w.distinct b) in
      let (head_older, rest_older) =
        subst (All (λ x. x.address < m.next_elem)) cons.whole (w.older b) in
      let others : All (λ x. x.key ≢ cons.elem.key) cons.rest =
        All-map cons.rest (λ x ne s. ne (s ∙ cons.key)) head_distinct in
      let there : BehindThere m a e.next =
        subst (λ x. BehindThere m a x.next) one
          (BehindThere-rest m a cons.elem cons.elem.next cons.rest cons.at cons.behind others) in
      let live : ((e.ref_count + 1) % 2 ^ 32 == 0) ≡ false = rw ref refl in
      let some_elem : 0 < m.next_elem = omega (arith, head_older) in
      let found = find_first m key a e head at same live some_elem in
      let (m', last, buckets, next_elem, at', there') = unref-last m a e at up ref there in
      let head' : m'.buckets b ≡ some a = ap (λ g. g b) buckets ∙ head in
      let some_elem' : 0 < m'.next_elem = subst (λ n. 0 < n) (sym next_elem) some_elem in
      (
        free_elem kind a m',
        rw (found, unref-found kind m a e at ref) last,
        elim (Bool-cases kind.frees) [
          | inr keeps ↦
              let (m'', got) =
                get_elem-stale m' key a (record e { ref_count = 0 }) head' at' same up refl there'
                  some_elem' in
              inl (
                keeps,
                m'',
                ap (get_elem kind key) (free_elem-keeps m' a keeps)
                    ∙ got
                    ∙ ap (λ d. some (d, m'')) data_f,
              )
          | inl frees ↦ inr (
            frees,
            ap (get_elem kind key) (free_elem-frees m' a frees)
                ∙ get_elem-freed m' key a head' some_elem',
          )
        ],
      )
