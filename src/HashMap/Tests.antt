-- ===== src/HashMap/Tests.antt =====
-- A map with the keys 1 and 201, which share a bucket (src/klibc/hashmap.c).
use drip_os.Prelude.{
  ◌⊎◌, ℕ, ◌≡◌, refl, sym, ap, subst, true, false, if◌then◌else◌, Option, none, some,
}
use drip_os.HashMap.{
  Elem, HashMap, init_hashmap, get_elem, set_elem, remove_elem, bucket_of, get_elem_dat, find_elem,
  add_elem, chain, set_next, set_prev, put_elem,
}
use drip_os.HashMap.Kinds.{hashmap_kind}
use drip_os.HashMap.Maps.{Represents, init_hashmap-Represents, get_elem-Represents}
use drip_os.HashMap.Remove.{remove_elem-first}
use drip_os.HashMap.Set.{set_elem-Represents}

abbrev map_of : Option (HashMap ℕ) → HashMap ℕ
map_of none = init_hashmap
map_of (some m) = m

abbrev one : HashMap ℕ
one = map_of (set_elem hashmap_kind 1 7 init_hashmap)

abbrev two : HashMap ℕ
two = map_of (set_elem hashmap_kind 201 9 one)

abbrev one_data : ℕ → ℕ
one_data k = if hashmap_kind.same 1 k then 7 else 0

abbrev two_data : ℕ → ℕ
two_data k = if hashmap_kind.same 201 k then 9 else one_data k

one-Represents : Represents hashmap_kind one one_data
one-Represents =
    let (m, e, r) =
      set_elem-Represents hashmap_kind init_hashmap (λ k. 0) 1 7
        (init_hashmap-Represents hashmap_kind) in
    subst (λ x. Represents hashmap_kind x one_data) (sym (ap map_of e)) r

two-Represents : Represents hashmap_kind two two_data
two-Represents =
    let (m, e, r) = set_elem-Represents hashmap_kind one one_data 201 9 one-Represents in
    subst (λ x. Represents hashmap_kind x two_data) (sym (ap map_of e)) r

set_elem-Represents_example :
    (m : HashMap ℕ) × (set_elem hashmap_kind 201 9 one ≡ some m)
    × Represents hashmap_kind m (λ k. if hashmap_kind.same 201 k then 9 else one_data k)
set_elem-Represents_example = set_elem-Represents hashmap_kind one one_data 201 9 one-Represents

get_elem-Represents_example : get_elem hashmap_kind 201 two ≡ some (two_data 201, two)
get_elem-Represents_example = get_elem-Represents hashmap_kind two two_data 201 two-Represents

two_head : two.buckets (bucket_of hashmap_kind 1) ≡ some 0
unfolding set_elem get_elem_dat find_elem add_elem chain set_next set_prev put_elem init_hashmap
    hashmap_kind
two_head = refl

-- Key 1 is the first of its bucket.
abbrev first_elem : Elem ℕ
first_elem = record { key = 1; data_ptr = 7; next = some 1; prev = none; ref_count = 1 }

two_first : two.elems 0 ≡ some first_elem
unfolding set_elem get_elem_dat find_elem add_elem chain set_next set_prev put_elem init_hashmap
    hashmap_kind
two_first = refl

remove_elem-first_example :
    (m' : HashMap ℕ) × (remove_elem hashmap_kind 1 two ≡ some m')
    × (((hashmap_kind.frees ≡ false)
          × (m'' : HashMap ℕ) × (get_elem hashmap_kind 1 m' ≡ some (two_data 1, m'')))
        ⊎ ((hashmap_kind.frees ≡ true) × (get_elem hashmap_kind 1 m' ≡ none)))
remove_elem-first_example =
    remove_elem-first hashmap_kind two two_data 1 0 first_elem two-Represents two_head two_first
      refl
