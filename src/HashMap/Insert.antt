-- ===== src/HashMap/Insert.antt =====
-- `hashmap_set_elem` (src/klibc/hashmap.c) of a key that the map lacks.
use drip_os.Prelude.{ℕ, ◌≡◌, ◌≢◌, refl, sym, ap, ◌∙◌, Option, none, some, none≢some, some-injective}
use drip_os.HashMap.{Elem, HashMap, put_elem, set_next, set_prev, chain}
use drip_os.HashMap.Chains.{put_elem_self, put_elem_other}

module _ {K : Type 0} where
  -- The elements after an insertion behind `first`: the new one, the first, and the one behind it
  -- have changed.
  pub record Linked (m : HashMap K) (first new : ℕ) (e n : Elem K) (m' : HashMap K) : Type 0 where
    pub first_at : m'.elems first ≡ some (record e { next = some new })
    pub new_at : m'.elems new ≡ some (record n { next = e.next; prev = some first })
    pub next_at :
        (x : ℕ) (y : Elem K)
        → e.next ≡ some x
        → m.elems x ≡ some y
        → m'.elems x ≡ some (record y { prev = some new })
    pub others : (x : ℕ) → x ≢ first → x ≢ new → e.next ≢ some x → m'.elems x ≡ m.elems x
    pub buckets : m'.buckets ≡ m.buckets
    pub next_elem : m'.next_elem ≡ m.next_elem

  put_elem-buckets :
      (m : HashMap K) (a : ℕ) (o : Option (Elem K)) → (put_elem a o m).buckets ≡ m.buckets
  unfolding put_elem
  put_elem-buckets m a o = refl

  put_elem-next :
      (m : HashMap K) (a : ℕ) (o : Option (Elem K)) → (put_elem a o m).next_elem ≡ m.next_elem
  unfolding put_elem
  put_elem-next m a o = refl

  -- What is to know of the element behind the first.
  abbrev pub NextThere : HashMap K → Option ℕ → ℕ → ℕ → Type 0
  NextThere m none first new = Unit {0}
  NextThere m (some x) first new = (x ≢ first) × (x ≢ new) × ((y : Elem K) × (m.elems x ≡ some y))

  -- The last write of the insertion, after the others.
  link_first :
      (m m3 : HashMap K) (first new : ℕ) (e n : Elem K)
      → first ≢ new
      → m3.elems first ≡ some e
      → m3.elems new ≡ some (record n { next = e.next; prev = some first })
      → ((x : ℕ) (y : Elem K)
          → e.next ≡ some x
          → m.elems x ≡ some y
          → (x ≢ first) × (m3.elems x ≡ some (record y { prev = some new })))
      → ((x : ℕ) → x ≢ new → e.next ≢ some x → m3.elems x ≡ m.elems x)
      → m3.buckets ≡ m.buckets
      → m3.next_elem ≡ m.next_elem
      → (m' : HashMap K) × (set_next (some first) (some new) m3 ≡ some m')
        × Linked m first new e n m'
  unfolding set_next
  link_first m m3 first new e n ne at_first at_new at_next others buckets next_elem =
      let e' = record e { next = some new } in
      (
        put_elem first (some e') m3,
        rw at_first refl,
        record {
          first_at = put_elem_self m3 first (some e');
          new_at = put_elem_other m3 first new (some e') (λ s. ne (sym s)) ∙ at_new;
          next_at = λ x y next at.
              let (apart, at_x) = at_next x y next at in
              put_elem_other m3 first x (some e') apart ∙ at_x;
          others =
              λ x ne_f ne_n ne_x. put_elem_other m3 first x (some e') ne_f ∙ others x ne_n ne_x;
          buckets = put_elem-buckets m3 first (some e') ∙ buckets;
          next_elem = put_elem-next m3 first (some e') ∙ next_elem;
        },
      )

  -- The write to the element behind the first, if there is one.
  link_next :
      (m : HashMap K) (first new : ℕ) (e n : Elem K) (behind : Option ℕ)
      → e.next ≡ behind
      → m.elems first ≡ some e
      → first ≢ new
      → NextThere m behind first new
      → (let m2 = put_elem new (some (record n { next = e.next; prev = some first })) m in
          (m3 m' : HashMap K) × (set_prev behind (some new) m2 ≡ some m3)
          × (set_next (some first) (some new) m3 ≡ some m')
          × Linked m first new e n m')
  unfolding set_prev
  link_next m first new e n none last at_first ne there =
      let n' = record n { next = e.next; prev = some first } in
      let m2 = put_elem new (some n') m in
      let (m', eq, linked) =
        link_first m m2 first new e n ne (put_elem_other m new first (some n') ne ∙ at_first)
          (put_elem_self m new (some n')) (λ x y next at. absurd (none≢some (sym last ∙ next)))
          (λ x ne_n ne_x. put_elem_other m new x (some n') ne_n) (put_elem-buckets m new (some n'))
          (put_elem-next m new (some n')) in
      (m2, m', refl, eq, linked)
  link_next m first new e n (some x) next at_first ne (x_first, x_new, (y, at_x)) =
      let n' = record n { next = e.next; prev = some first } in
      let m2 = put_elem new (some n') m in
      let y' = record y { prev = some new } in
      let m3 = put_elem x (some y') m2 in
      let (m', eq, linked) =
        link_first m m3 first new e n ne
          (put_elem_other m2 x first (some y') (λ s. x_first (sym s))
            ∙ put_elem_other m new first (some n') ne
            ∙ at_first)
          (put_elem_other m2 x new (some y') (λ s. x_new (sym s)) ∙ put_elem_self m new (some n'))
          (λ z w next' at_z.
            let z_x : z ≡ x = some-injective (sym next' ∙ next) in
            let y_w : y ≡ w = some-injective (sym at_x ∙ ap m.elems (sym z_x) ∙ at_z) in
            ((λ s. x_first (sym z_x ∙ s)), rw (z_x, sym y_w) (put_elem_self m2 x (some y'))))
          (λ z ne_n ne_z.
            put_elem_other m2 x z (some y') (λ s. ne_z (next ∙ ap some (sym s)))
            ∙ put_elem_other m new z (some n') ne_n)
          (put_elem-buckets m2 x (some y') ∙ put_elem-buckets m new (some n'))
          (put_elem-next m2 x (some y') ∙ put_elem-next m new (some n')) in
      (m3, m', rw (put_elem_other m new x (some n') x_new, at_x) refl, eq, linked)

  pub chain-Linked :
      (m : HashMap K) (first new : ℕ) (e n : Elem K)
      → m.elems first ≡ some e
      → m.elems new ≡ some n
      → first ≢ new
      → NextThere m e.next first new
      → (m' : HashMap K) × (chain first new m ≡ some m') × Linked m first new e n m'
  unfolding chain
  chain-Linked m first new e n at_first at_new ne there =
      let (m3, m', eq, eq', linked) = link_next m first new e n e.next refl at_first ne there in
      (m', rw (at_first, at_new, eq) eq', linked)
