-- ===== src/HashMap/Maps.antt =====
-- The well-formed maps of src/klibc/hashmap.c, and the function from keys to data that such a map
-- stands for.
use drip_os.Prelude.{
  ℕ, ◌+◌, ◌-◌, ◌%◌, ◌^◌, ◌≤◌, ◌<◌, ◌≡◌, ◌≢◌, refl, sym, ap, ◌∙◌, Option, none, some, some-injective,
  List, [], ◌∷◌, arith, Option-cases, inl, inr, length,
}
use drip_os.HashMap.{
  Kind, Elem, HashMap, init_hashmap, put_elem, inc_ref, bucket_of, get_elem_dat, unref_elem,
  get_elem,
}
use drip_os.HashMap.Chains.{
  Binding, Chain, nil, link, All, put_elem_self, put_elem_same, put_elem_twice, find_entry, value,
  find_elem-none, find_elem-some,
}

module _ {K : Type 0} where
  -- No two entries have one key.
  abbrev pub Distinct : List (Binding K) → Type 0
  Distinct [] = Unit {0}
  Distinct (en ∷ es) = All (λ x. x.key ≢ en.key) es × Distinct es

  -- An element whose key no entry has is in none of their places.
  pub Chain-apart :
      (m : HashMap K) (a : ℕ) (e : Elem K) (prev cur : Option ℕ) (es : List (Binding K))
      → m.elems a ≡ some e
      → Chain m prev cur es
      → All (λ en. en.key ≢ e.key) es
      → All (λ en. en.address ≢ a) es
  Chain-apart m a e prev cur es at_a (nil _) v = tt
  Chain-apart m a e prev cur es at_a (link _ en x es' at key d up ref rest) (ne, v) = (
    λ same.
        let one : x ≡ e = some-injective (sym at ∙ ap m.elems same ∙ at_a) in
        ne (sym key ∙ ap (λ y. y.key) one),
    Chain-apart m a e (some en.address) x.next es' at_a rest v,
  )

-- The map with these entries in its buckets.
pub record IsMap {K : Type 0} (kind : Kind K) (m : HashMap K) (es : ℕ → List (Binding K))
    : Type 0 where
  pub chains : (b : ℕ) → Chain m none (m.buckets b) (es b)
  pub hashed : (b : ℕ) → All (λ en. bucket_of kind en.key ≡ b) (es b)
  pub distinct : (b : ℕ) → Distinct (es b)
  pub older : (b : ℕ) → All (λ en. en.address < m.next_elem) (es b)
  pub fits : (b : ℕ) → length (es b) ≤ m.next_elem

-- A well-formed map that gives every key the data that the function gives it.
pub record Represents {K : Type 0} (kind : Kind K) (m : HashMap K) (f : K → ℕ) : Type 0 where
  pub entries : ℕ → List (Binding K)
  pub well_formed : IsMap kind m entries
  pub agrees : (key : K) → value kind (entries (bucket_of kind key)) key ≡ f key

module _ {K : Type 0} (kind : Kind K) where
  -- A new map gives every key null.
  pub init_hashmap-Represents : Represents kind init_hashmap (λ key. 0)
  unfolding init_hashmap value find_entry
  init_hashmap-Represents = record {
    entries = λ b. [];
    well_formed = record {
      chains = λ b. nil none;
      hashed = λ b. tt;
      distinct = λ b. tt;
      older = λ b. tt;
      fits = λ b. omega arith;
    };
    agrees = λ key. refl;
  }

  -- The reference that the search took is given back.
  pub unref-inc :
      (m : HashMap K) (a : ℕ) (e' : Elem K)
      → m.elems a ≡ some e'
      → e'.ref_count ≡ 2
      → unref_elem kind a m ≡ some (put_elem a (some (record e' { ref_count = 1 })) m)
  unfolding unref_elem
  unref-inc m a e' at two =
      let one : (e'.ref_count + (2 ^ 32 - 1)) % 2 ^ 32 ≡ 1 = rw two refl in rw (at, one) refl

  pub unref-found :
      (m : HashMap K) (a : ℕ) (x : Elem K)
      → m.elems a ≡ some x
      → x.ref_count ≡ 1
      → unref_elem kind a (put_elem a (some (inc_ref x)) m) ≡ some m
  unref-found m a x at one =
      let two : (x.ref_count + 1) % 2 ^ 32 ≡ 2 = rw one refl in
      let same : record x { ref_count = 1 } ≡ x = ap (λ r. record x { ref_count = r }) (sym one) in
      unref-inc (put_elem a (some (inc_ref x)) m) a (inc_ref x)
        (put_elem_self m a (some (inc_ref x))) two
      ∙ ap some (
          put_elem_twice m a (some (inc_ref x)) (some (record x { ref_count = 1 }))
          ∙ put_elem_same m a (some (record x { ref_count = 1 })) (at ∙ ap some (sym same)))

  -- On a map that stands for a function, `hashmap_get_elem` gives the data of the key, or null for
  -- a key it has no data for, and leaves the map as it was.
  pub get_elem-Represents :
      (m : HashMap K) (f : K → ℕ) (key : K)
      → Represents kind m f
      → get_elem kind key m ≡ some (f key, m)
  unfolding get_elem get_elem_dat value
  get_elem-Represents m f key r =
      let b = bucket_of kind key in
      let es = r.entries b in
      let w = r.well_formed in
      rw (sym (r.agrees key)) (elim (Option-cases (find_entry kind es key)) [
        | inl e ↦
            rw
              (
                find_elem-none kind key m m.next_elem none (m.buckets b) es (w.chains b) (w.fits b)
                    e,
                value,
                e,
              )
              refl
        | inr (en, e) ↦
            let (x, found, eq) =
              find_elem-some kind key m m.next_elem none (m.buckets b) es en (w.chains b) (w.fits b)
                e in
            rw
              (
                eq,
                put_elem_self m en.address (some (inc_ref x)),
                unref-found m en.address x found.at found.one_ref,
                value,
                e,
              )
              (ap (λ d. some (d, m)) found.data_same)
      ])
