-- ===== src/HashMap/Fresh.antt =====
-- A new element in a bucket of a map (src/klibc/hashmap.c).
use drip_os.Prelude.{
  ℕ, suc, ◌<◌, ◌≡◌, ◌≢◌, refl, sym, ap, ◌∙◌, true, false, if◌then◌else◌, Option, none, some,
  none≢some, some-injective, subst, List, [], ◌∷◌, ◌==◌, arith, length,
}
use drip_os.HashMap.{Kind, Elem, HashMap, put_elem, bucket_of}
use drip_os.HashMap.Chains.{
  Binding, Chain, nil, link, All, All-map, Chain-frame, put_elem_self, put_elem_other,
}
use drip_os.HashMap.Extend.{
  All-both, Cons, Away, Linked-frame, Chain-rehang, Extends, insert, other_bucket,
}
use drip_os.HashMap.Insert.{Linked, NextThere}
use drip_os.HashMap.Maps.{Distinct, Chain-apart, IsMap}

module _ {K : Type 0} where
  -- A new element.
  abbrev pub fresh : K → ℕ → Elem K
  fresh key d = record { key = key; data_ptr = d; next = none; prev = none; ref_count = 1 }

  abbrev pub with_fresh : HashMap K → K → ℕ → HashMap K
  with_fresh m key d = record (put_elem m.next_elem (some (fresh key d)) m) {
    next_elem = suc m.next_elem;
  }

  pub fresh-frame :
      (m : HashMap K) (key : K) (d : ℕ) (prev cur : Option ℕ) (es : List (Binding K))
      → Chain m prev cur es
      → All (λ en. en.address < m.next_elem) es
      → Chain (with_fresh m key d) prev cur es
  fresh-frame m key d prev cur es chained older =
      Chain-frame m (with_fresh m key d) prev cur es chained (
        All-map es
          (λ en lt.
            put_elem_other m m.next_elem en.address (some (fresh key d))
              (λ s. absurd (omega (arith, s, lt))))
          older)

  -- What is to know of the element behind the first, before the insertion.
  pub next_there :
      (m : HashMap K) (first : ℕ) (e : Elem K) (next : Option ℕ) (rest : List (Binding K))
      → m.elems first ≡ some e
      → Chain m (some first) next rest
      → All (λ en. en.key ≢ e.key) rest
      → All (λ en. en.address < m.next_elem) rest
      → (key : K) (d : ℕ) → NextThere (with_fresh m key d) next first m.next_elem
  next_there m first e next rest at_first (nil _) others older key d = tt
  next_there m first e next rest at_first (link _ en y es at k data_same up ref behind) (ne, others)
        (lt, older) key d =
      let young : en.address ≢ m.next_elem = λ s. absurd (omega (arith, s, lt)) in
      (
        λ s.
            let one : y ≡ e = some-injective (sym at ∙ ap m.elems s ∙ at_first) in
            ne (sym k ∙ ap (λ z. z.key) one),
        young,
        (y, put_elem_other m m.next_elem en.address (some (fresh key d)) young ∙ at),
      )

module _ {K : Type 0} (kind : Kind K) where
  -- The map with its new element in an empty bucket.
  abbrev pub alone : HashMap K → K → ℕ → HashMap K
  alone m key d = record (with_fresh m key d) {
    buckets = λ c. if c == bucket_of kind key then some m.next_elem else m.buckets c;
  }

  pub alone-Extends :
      (m : HashMap K) (es : ℕ → List (Binding K)) (key : K) (d : ℕ)
      → IsMap kind m es
      → Extends kind m
          (alone m key d)
          es
          (bucket_of kind key)
          (record { address = m.next_elem; key = key; data_ptr = d } ∷ [])
  alone-Extends m es key d w =
      let en : Binding K = record { address = m.next_elem; key = key; data_ptr = d } in
      let b = bucket_of kind key in
      let here : (b == b) ≡ true = ground arith in
      let at = put_elem_self m m.next_elem (some (fresh key d)) in
      record {
        next_elem = refl;
        own_chain =
            rw here (link none en (fresh key d) [] at refl refl refl refl (nil (some m.next_elem)));
        other_chain = λ c ne.
            let other : (c == b) ≡ false = ground (arith, ne) in
            rw other (
              Chain-frame m (alone m key d) none (m.buckets c) (es c) (w.chains c) (
                All-map (es c)
                  (λ x lt.
                    put_elem_other m m.next_elem x.address (some (fresh key d))
                      (λ s. absurd (omega (arith, s, lt))))
                  (w.older c)));
        own_hashed = (refl, tt);
        own_distinct = (tt, tt);
        own_older = (omega arith, tt);
        own_fits = omega arith;
      }

  pub link_at :
      (m : HashMap K) (prev : Option ℕ) (en : Binding K) (e : Elem K) (es : List (Binding K))
      (a : ℕ)
      → en.address ≡ a
      → m.elems a ≡ some e
      → e.key ≡ en.key
      → e.data_ptr ≡ en.data_ptr
      → e.prev ≡ prev
      → e.ref_count ≡ 1
      → Chain m (some a) e.next es
      → Chain m prev (some a) (en ∷ es)
  link_at m prev en e es a address at k d up ref rest =
      subst (λ x. Chain m prev (some x) (en ∷ es)) address
        (link prev en e es (ap m.elems address ∙ at) k d up ref
          (subst (λ x. Chain m (some x) e.next es) (sym address) rest))

  -- The element behind the first is in no other bucket.
  pub next-apart :
      (m : HashMap K) (b c : ℕ) (prev next cur : Option ℕ) (rest es : List (Binding K))
      → Chain m prev next rest
      → All (λ x. bucket_of kind x.key ≡ b) rest
      → Chain m none cur es
      → All (λ x. bucket_of kind x.key ≡ c) es
      → c ≢ b
      → All (λ x. next ≢ some x.address) es
  next-apart m b c prev next cur rest es (nil _) of_b chained of_c ne =
      All-map es (λ x p. none≢some) of_c
  next-apart m b c prev next cur rest es (link _ en y es' at k d up ref behind) (here, of_b) chained
        of_c ne =
      All-map es (λ x z s. z (sym (some-injective s)))
        (Chain-apart m en.address y none cur es at chained
          (other_bucket kind es b c y.key of_c (ap (bucket_of kind) k ∙ here) ne))

  -- The entry of the new element, behind the first entry of the bucket.
  pub linked-Extends :
      (m : HashMap K) (es : ℕ → List (Binding K)) (key : K) (d first : ℕ)
      → IsMap kind m es
      → (cons : Cons m none first (es (bucket_of kind key)))
      → m.buckets (bucket_of kind key) ≡ some first
      → All (λ en. en.key ≢ key) (es (bucket_of kind key))
      → (m' : HashMap K) → Linked (with_fresh m key d) first m.next_elem cons.elem (fresh key d) m'
      → Extends kind m m' es (bucket_of kind key) (
          insert kind
            (record { address = m.next_elem; key = key; data_ptr = d })
            (es (bucket_of kind key)))
  unfolding put_elem
  linked-Extends m es key d first w cons head absent m' linked =
      let b = bucket_of kind key in
      let new = m.next_elem in
      let en : Binding K = record { address = new; key = key; data_ptr = d } in
      let e = cons.elem in
      let (head_hashed, rest_hashed) =
        subst (All (λ x. bucket_of kind x.key ≡ b)) cons.whole (w.hashed b) in
      let (head_distinct, rest_distinct) = subst Distinct cons.whole (w.distinct b) in
      let (head_older, rest_older) = subst (All (λ x. x.address < new)) cons.whole (w.older b) in
      let (head_absent, rest_absent) = subst (All (λ x. x.key ≢ key)) cons.whole absent in
      let e_bucket : bucket_of kind e.key ≡ b = ap (bucket_of kind) cons.key ∙ head_hashed in
      let not_new : (c : ℕ) → All (λ x. x.address ≢ new) (es c) =
        λ c. All-map (es c) (λ x lt s. absurd (omega (arith, s, lt))) (w.older c) in
      let rest_new : All (λ x. x.address ≢ new) cons.rest =
        All-map cons.rest (λ x lt s. absurd (omega (arith, s, lt))) rest_older in
      let rest_first =
        Chain-apart m first e (some first) e.next cons.rest cons.at cons.behind
          (All-map cons.rest (λ x ne s. ne (s ∙ cons.key)) head_distinct) in
      let behind = fresh-frame m key d (some first) e.next cons.rest cons.behind rest_older in
      let hung =
        Chain-rehang (with_fresh m key d) m' first new e (fresh key d) e.next cons.rest linked refl
          behind
          (All-both (λ x. x.address ≢ first) (λ x. x.address ≢ new) cons.rest rest_first rest_new)
          rest_distinct in
      let en_chain =
        link_at m' (some first) en (record (fresh key d) { next = e.next; prev = some first })
          cons.rest new refl linked.new_at refl refl refl refl hung in
      let whole =
        link_at m' none cons.entry (record e { next = some new }) (en ∷ cons.rest) first
          cons.address linked.first_at cons.key cons.data_ptr cons.up cons.ref en_chain in
      record {
        next_elem = linked.next_elem;
        own_chain =
            subst (λ l. Chain m' none (m'.buckets b) (insert kind en l)) (sym cons.whole)
              (subst (λ h. Chain m' none h (cons.entry ∷ en ∷ cons.rest))
                (sym (ap (λ f. f b) linked.buckets ∙ head)) whole);
        other_chain = λ c ne.
            let of_c = w.hashed c in
            let not_first =
              Chain-apart m first e none (m.buckets c) (es c) cons.at (w.chains c)
                (other_bucket kind (es c) b c e.key of_c e_bucket ne) in
            let not_next =
              next-apart m b c (some first) e.next (m.buckets c) cons.rest (es c) cons.behind
                rest_hashed (w.chains c) of_c ne in
            let away : All (Away first new e.next) (es c) =
              All-map (es c) (λ x ((f, n), z). (f, n, z))
                (All-both (λ x. (x.address ≢ first) × (x.address ≢ new))
                  (λ x. e.next ≢ some x.address) (es c)
                  (All-both (λ x. x.address ≢ first) (λ x. x.address ≢ new) (es c) not_first
                    (not_new c))
                  not_next) in
            subst (λ h. Chain m' none h (es c)) (sym (ap (λ f. f c) linked.buckets))
              (Linked-frame (with_fresh m key d) m' first new e (fresh key d) none (m.buckets c)
                (es c) linked
                (fresh-frame m key d none (m.buckets c) (es c) (w.chains c) (w.older c)) away);
        own_hashed = rw cons.whole (head_hashed, (refl, rest_hashed));
        own_distinct =
            rw cons.whole
              (((λ s. head_absent (sym s)), head_distinct), (rest_absent, rest_distinct));
        own_older = rw cons.whole (
          omega (arith, head_older),
          (omega arith, All-map cons.rest (λ x lt. omega (arith, lt)) rest_older),
        );
        own_fits = rw cons.whole (omega (arith, ap length cons.whole, w.fits b));
      }
