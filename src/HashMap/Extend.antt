-- ===== src/HashMap/Extend.antt =====
-- What the insertion of an element (src/klibc/hashmap.c) keeps of the lists of the buckets.
use drip_os.Prelude.{
  ℕ, suc, ◌≤◌, ◌<◌, ◌≡◌, ◌≢◌, refl, sym, ap, ◌∙◌, false, if◌then◌else◌, Option, none, some,
  none≢some, some-injective, subst, List, [], ◌∷◌, ◌==◌, arith, Bool-cases, inl, inr, length,
  ==_iff, false≢true,
}
use drip_os.HashMap.{Kind, Elem, HashMap, bucket_of}
use drip_os.HashMap.Chains.{Binding, Chain, nil, link, All, All-map, Chain-frame, find_entry, value}
use drip_os.HashMap.Insert.{Linked}
use drip_os.HashMap.Maps.{Distinct, Chain-apart, IsMap}
use drip_os.HashMap.Replace.{value-cons}

module _ {K : Type 0} where
  pub All-both :
      (P Q : Binding K → Type 0) (es : List (Binding K))
      → All P es
      → All Q es
      → All (λ en. P en × Q en) es
  All-both P Q [] v w = tt
  All-both P Q (en ∷ es) (p, v) (q, w) = ((p, q), All-both P Q es v w)

  -- A chain from null has no entries; one from an element begins with its entry.
  pub Chain-none :
      (m : HashMap K) (prev : Option ℕ) (es : List (Binding K)) → Chain m prev none es → es ≡ []
  Chain-none m prev es (nil _) = refl

  pub record Cons (m : HashMap K) (prev : Option ℕ) (first : ℕ) (es : List (Binding K))
      : Type 0 where
    pub entry : Binding K
    pub elem : Elem K
    pub rest : List (Binding K)
    pub whole : es ≡ entry ∷ rest
    pub address : entry.address ≡ first
    pub at : m.elems first ≡ some elem
    pub key : elem.key ≡ entry.key
    pub data_ptr : elem.data_ptr ≡ entry.data_ptr
    pub up : elem.prev ≡ prev
    pub ref : elem.ref_count ≡ 1
    pub behind : Chain m (some first) elem.next rest

  pub Chain-Cons :
      (m : HashMap K) (prev : Option ℕ) (first : ℕ) (es : List (Binding K))
      → Chain m prev (some first) es
      → Cons m prev first es
  Chain-Cons m prev first es (link _ en e es' at k d up ref rest) = record {
    entry = en;
    elem = e;
    rest = es';
    whole = refl;
    address = refl;
    at = at;
    key = k;
    data_ptr = d;
    up = up;
    ref = ref;
    behind = rest;
  }

  -- The places that an insertion leaves alone.
  abbrev pub Away : ℕ → ℕ → Option ℕ → Binding K → Type 0
  Away first new behind en = (en.address ≢ first) × (en.address ≢ new) × (behind ≢ some en.address)

  pub Linked-frame :
      (m m' : HashMap K) (first new : ℕ) (e n : Elem K) (prev cur : Option ℕ)
      (es : List (Binding K))
      → Linked m first new e n m'
      → Chain m prev cur es
      → All (Away first new e.next) es
      → Chain m' prev cur es
  Linked-frame m m' first new e n prev cur es linked chained away =
      Chain-frame m m' prev cur es chained
        (All-map es (λ en (f, w, b). linked.others en.address f w b) away)

  -- The entries behind the first hang on the new element.
  pub Chain-rehang :
      (m m' : HashMap K) (first new : ℕ) (e n : Elem K) (next : Option ℕ) (rest : List (Binding K))
      → Linked m first new e n m'
      → e.next ≡ next
      → Chain m (some first) next rest
      → All (λ en. (en.address ≢ first) × (en.address ≢ new)) rest
      → Distinct rest
      → Chain m' (some new) next rest
  Chain-rehang m m' first new e n next rest linked e_next (nil _) apart distinct = nil (some new)
  Chain-rehang m m' first new e n next rest linked e_next (link _ en y es at k d up ref behind)
        (here, apart) (others, distinct) =
      let other_keys : All (λ x. x.key ≢ y.key) es =
        All-map es (λ x ne same. ne (same ∙ k)) others in
      let elsewhere = Chain-apart m en.address y (some en.address) y.next es at behind other_keys in
      let away : All (Away first new e.next) es =
        All-map es (λ x ((f, w), z). (f, w, λ same. z (sym (some-injective (sym e_next ∙ same)))))
          (All-both (λ x. (x.address ≢ first) × (x.address ≢ new)) (λ x. x.address ≢ en.address) es
            apart elsewhere) in
      link (some new) en (record y { prev = some new }) es (linked.next_at en.address y e_next at) k
        d refl ref (Linked-frame m m' first new e n (some en.address) y.next es linked behind away)

module _ {K : Type 0} (kind : Kind K) where
  -- A map whose bucket `b` has got the entries `own`.
  pub record Extends (m m' : HashMap K) (es : ℕ → List (Binding K)) (b : ℕ) (own : List (Binding K))
      : Type 0 where
    pub next_elem : m'.next_elem ≡ suc m.next_elem
    pub own_chain : Chain m' none (m'.buckets b) own
    pub other_chain : (c : ℕ) → c ≢ b → Chain m' none (m'.buckets c) (es c)
    pub own_hashed : All (λ en. bucket_of kind en.key ≡ b) own
    pub own_distinct : Distinct own
    pub own_older : All (λ en. en.address < suc m.next_elem) own
    pub own_fits : length own ≤ suc m.next_elem

  abbrev pub with_bucket : (ℕ → List (Binding K)) → ℕ → List (Binding K) → ℕ → List (Binding K)
  with_bucket es b own c = if c == b then own else es c

  pub IsMap-Extends :
      (m m' : HashMap K) (es : ℕ → List (Binding K)) (b : ℕ) (own : List (Binding K))
      → IsMap kind m es
      → Extends m m' es b own
      → IsMap kind m' (with_bucket es b own)
  IsMap-Extends m m' es b own w x = record {
    chains = λ c. elim (Bool-cases (c == b)) [
      | inl y ↦
          let c_b = (==_iff c b).0 y in
          rw y (subst (λ z. Chain m' none (m'.buckets z) own) (sym c_b) x.own_chain)
      | inr n ↦ rw n (x.other_chain c (λ s. false≢true (sym n ∙ (==_iff c b).1 s)))
    ];
    hashed = λ c. elim (Bool-cases (c == b)) [
      | inl y ↦
          let c_b = (==_iff c b).0 y in
          rw y (subst (λ z. All (λ en. bucket_of kind en.key ≡ z) own) (sym c_b) x.own_hashed)
      | inr n ↦ rw n (w.hashed c)
    ];
    distinct = λ c. elim (Bool-cases (c == b)) [
      | inl y ↦ rw y x.own_distinct
      | inr n ↦ rw n (w.distinct c)
    ];
    older = λ c. rw x.next_elem (elim (Bool-cases (c == b)) [
      | inl y ↦ rw y x.own_older
      | inr n ↦ rw n (All-map (es c) (λ en lt. omega (arith, lt)) (w.older c))
    ]);
    fits = λ c. rw x.next_elem (elim (Bool-cases (c == b)) [
      | inl y ↦ rw y x.own_fits
      | inr n ↦ rw n (omega (arith, w.fits c))
    ]);
  }

  -- An entry with the key, behind the first of its bucket or alone in it.
  abbrev pub insert : Binding K → List (Binding K) → List (Binding K)
  insert new [] = new ∷ []
  insert new (en ∷ es) = en ∷ new ∷ es

  absent-head :
      (en : Binding K) (es : List (Binding K)) (key : K)
      → find_entry kind (en ∷ es) key ≡ none
      → (kind.same en.key key ≡ false) × (find_entry kind es key ≡ none)
  unfolding find_entry
  absent-head en es key e = elim (Bool-cases (kind.same en.key key)) [
    | inl y ↦ let there : some en ≡ none = rw y at e in absurd (none≢some (sym there))
    | inr n ↦ (n, rw n at e)
  ]

  pub value-insert :
      (new : Binding K) (es : List (Binding K)) (k : K)
      → find_entry kind es new.key ≡ none
      → value kind (insert new es) k
        ≡ (if kind.same new.key k then new.data_ptr else value kind es k)
  value-insert new [] k absent = value-cons kind new [] k
  value-insert new (en ∷ es) k absent =
      let (n, absent') = absent-head en es new.key absent in
      rw (value-cons kind en (new ∷ es) k, value-cons kind new es k, value-cons kind en es k)
        (elim (Bool-cases (kind.same new.key k)) [
          | inr other ↦ rw other refl
          | inl same ↦
              let key_k = (kind.same_iff new.key k).0 same in
              rw (same, subst (λ z. kind.same en.key z ≡ false) key_k n) refl
        ])

  pub absent-keys :
      (es : List (Binding K)) (key : K)
      → find_entry kind es key ≡ none
      → All (λ en. en.key ≢ key) es
  absent-keys [] key absent = tt
  absent-keys (en ∷ es) key absent =
      let (n, absent') = absent-head en es key absent in
      (λ same. false≢true (sym n ∙ (kind.same_iff en.key key).1 same), absent-keys es key absent')

  -- The keys of another bucket are other keys.
  pub other_bucket :
      (es : List (Binding K)) (b c : ℕ) (key : K)
      → All (λ en. bucket_of kind en.key ≡ c) es
      → bucket_of kind key ≡ b
      → c ≢ b
      → All (λ en. en.key ≢ key) es
  other_bucket es b c key hashed of_b ne =
      All-map es (λ en of_c same. ne (sym of_c ∙ ap (bucket_of kind) same ∙ of_b)) hashed
