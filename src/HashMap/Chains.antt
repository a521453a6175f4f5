-- ===== src/HashMap/Chains.antt =====
-- The lists of the buckets (src/klibc/hashmap.c) as entries in order, and the search in them.
use drip_os.Prelude.{
  ℕ, zero, suc, ◌≤◌, ◌≡◌, ◌≢◌, refl, sym, ap, ◌∙◌, true, false, if◌then◌else◌, Option, none, some,
  none≢some, some-injective, subst, List, [], ◌∷◌, ◌==◌, arith, Bool-cases, inl, inr, length,
  ==_iff,
}
use drip_os.HashMap.{Kind, Elem, HashMap, put_elem, inc_ref, find_elem}

-- What is to know of an element.
pub record Binding (K : Type 0) : Type 0 where
  pub address : ℕ
  pub key : K
  pub data_ptr : ℕ

module _ {K : Type 0} where
  -- From `cur` on, behind `prev`, the elements are the entries, each with one reference.
  pub data Chain (m : HashMap K) : Option ℕ → Option ℕ → List (Binding K) → Type 0 where
    nil : (prev : Option ℕ) → Chain m prev none []
    link :
        (prev : Option ℕ) (en : Binding K) (e : Elem K) (es : List (Binding K))
        → m.elems en.address ≡ some e
        → e.key ≡ en.key
        → e.data_ptr ≡ en.data_ptr
        → e.prev ≡ prev
        → e.ref_count ≡ 1
        → Chain m (some en.address) e.next es
        → Chain m prev (some en.address) (en ∷ es)

  -- Each entry satisfies the predicate.
  abbrev pub All : (Binding K → Type 0) → List (Binding K) → Type 0
  All P [] = Unit {0}
  All P (en ∷ es) = P en × All P es

  pub All-map :
      {P Q : Binding K → Type 0} (es : List (Binding K))
      → ((en : Binding K) → P en → Q en)
      → All P es
      → All Q es
  All-map [] f v = tt
  All-map (en ∷ es) f (p, v) = (f en p, All-map es f v)

  -- A chain whose elements are where they were.
  pub Chain-frame :
      (m m' : HashMap K) (prev cur : Option ℕ) (es : List (Binding K))
      → Chain m prev cur es
      → All (λ en. m'.elems en.address ≡ m.elems en.address) es
      → Chain m' prev cur es
  Chain-frame m m' prev cur es (nil _) v = nil prev
  Chain-frame m m' prev cur es (link _ en e es' at key data_ptr up ref rest) (same, v) =
      link prev en e es' (same ∙ at) key data_ptr up ref
        (Chain-frame m m' (some en.address) e.next es' rest v)

  -- Writing an element and reading.
  pub put_elem_self : (m : HashMap K) (a : ℕ) (o : Option (Elem K)) → (put_elem a o m).elems a ≡ o
  unfolding put_elem
  put_elem_self m a o = let same : (a == a) ≡ true = ground arith in rw same refl

  pub put_elem_other :
      (m : HashMap K) (a b : ℕ) (o : Option (Elem K)) → b ≢ a → (put_elem a o m).elems b ≡ m.elems b
  unfolding put_elem
  put_elem_other m a b o ne = let other : (b == a) ≡ false = ground (arith, ne) in rw other refl

  put_elem_at :
      (m : HashMap K) (a b : ℕ) (o : Option (Elem K))
      → m.elems a ≡ o
      → (if b == a then o else m.elems b) ≡ m.elems b
  put_elem_at m a b o e = elim (Bool-cases (b == a)) [
    | inl same ↦ rw same (sym (ap m.elems ((==_iff b a).0 same) ∙ e))
    | inr other ↦ rw other refl
  ]

  -- Writing what is there.
  pub put_elem_same :
      (m : HashMap K) (a : ℕ) (o : Option (Elem K)) → m.elems a ≡ o → put_elem a o m ≡ m
  unfolding put_elem
  put_elem_same m a o e = λ i. record m { elems = λ b. put_elem_at m a b o e i }

  put_elem-twice_at :
      (m : HashMap K) (a b : ℕ) (o o' : Option (Elem K))
      → (if b == a then o' else (if b == a then o else m.elems b))
        ≡ (if b == a then o' else m.elems b)
  put_elem-twice_at m a b o o' = elim (Bool-cases (b == a)) [
    | inl same ↦ rw same refl
    | inr other ↦ rw other refl
  ]

  -- The second of two writes is the one that counts.
  pub put_elem_twice :
      (m : HashMap K) (a : ℕ) (o o' : Option (Elem K))
      → put_elem a o' (put_elem a o m) ≡ put_elem a o' m
  unfolding put_elem
  put_elem_twice m a o o' = λ i. record m { elems = λ b. put_elem-twice_at m a b o o' i }

module _ {K : Type 0} (kind : Kind K) where
  -- The first entry with the key.
  unfoldable pub find_entry : List (Binding K) → K → Option (Binding K)
  find_entry [] key = none
  find_entry (en ∷ es) key =
      let rest = find_entry es key in if kind.same en.key key then some en else rest

  -- The data of the key, or null.
  unfoldable pub value : List (Binding K) → K → ℕ
  value es key = elim (find_entry es key) [ none ↦ 0 | some en ↦ en.data_ptr ]

  pub find_elem-none :
      (key : K) (m : HashMap K) (fuel : ℕ) (prev cur : Option ℕ) (es : List (Binding K))
      → Chain m prev cur es
      → length es ≤ fuel
      → find_entry es key ≡ none
      → find_elem kind fuel key cur m ≡ some (none, m)
  unfolding find_elem find_entry
  find_elem-none key m fuel prev cur es (nil _) enough absent = refl
  find_elem-none key m zero prev cur es (link _ en e es' at k d up ref rest) enough absent =
      absurd (omega (arith, enough))
  find_elem-none key m (suc fuel) prev cur es (link _ en e es' at k d up ref rest) enough absent =
      elim (Bool-cases (kind.same en.key key)) [
        | inl yes_k ↦
            let there : some en ≡ none = rw yes_k at absent in absurd (none≢some (sym there))
        | inr no_k ↦
            rw (at, ap (λ x. kind.same x key) k ∙ no_k)
              (find_elem-none key m fuel (some en.address) e.next es' rest (omega (arith, enough))
                (rw no_k at absent))
      ]

  -- Where an entry has the key, the search ends at its element.
  pub record Found (key : K) (m : HashMap K) (en : Binding K) (e : Elem K) : Type 0 where
    pub at : m.elems en.address ≡ some e
    pub key_same : e.key ≡ en.key
    pub data_same : e.data_ptr ≡ en.data_ptr
    pub one_ref : e.ref_count ≡ 1
    pub same : kind.same en.key key ≡ true

  pub find_elem-some :
      (key : K) (m : HashMap K) (fuel : ℕ) (prev cur : Option ℕ) (es : List (Binding K))
      (en : Binding K)
      → Chain m prev cur es
      → length es ≤ fuel
      → find_entry es key ≡ some en
      → (e : Elem K) × Found key m en e
        × (find_elem kind fuel key cur m
            ≡ some (some en.address, put_elem en.address (some (inc_ref e)) m))
  unfolding find_elem find_entry
  find_elem-some key m fuel prev cur es x (nil _) enough there = absurd (none≢some there)
  find_elem-some key m zero prev cur es x (link _ en e es' at k d up ref rest) enough there =
      absurd (omega (arith, enough))
  find_elem-some key m (suc fuel) prev cur es x (link _ en e es' at k d up ref rest) enough there =
      elim (Bool-cases (kind.same en.key key)) [
        | inl yes_k ↦
            let one : en ≡ x = some-injective (rw yes_k at there) in
            let two : ((inc_ref e).ref_count == 0) ≡ false = rw ref refl in
            (
              e,
              subst (λ y. Found key m y e) one
                  (record { at = at; key_same = k; data_same = d; one_ref = ref; same = yes_k }),
              rw (at, ap (λ x. kind.same x key) k ∙ yes_k, two)
                  (ap (λ y. some (some y.address, put_elem y.address (some (inc_ref e)) m)) one),
            )
        | inr no_k ↦
            let (e', found, eq) =
              find_elem-some key m fuel (some en.address) e.next es' x rest (omega (arith, enough))
                (rw no_k at there) in
            (e', found, rw (at, ap (λ x. kind.same x key) k ∙ no_k) eq)
      ]
