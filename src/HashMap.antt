-- ===== src/HashMap.antt =====
-- src/klibc/hashmap.c and src/klibc/strhashmap.c, with the lists of src/klibc/linked_list.h: maps
-- with 200 buckets. The elements of a map are numbered in the order they are allocated, and a
-- pointer is such a number; a freed or null pointer that is used is `none`. Both maps are one here,
-- with what differs in a `Kind`. The lock of a map is free between its operations.
pub mod Chains
pub mod Maps
pub mod Replace
pub mod Insert
pub mod Extend
pub mod Fresh
pub mod Set
pub mod Remove
pub mod Kinds
mod Tests
use drip_os.Prelude.{
  ℕ, zero, suc, ◌+◌, ◌-◌, ◌*◌, ◌%◌, ◌^◌, Bool, true, false, ◌&&◌, not, Option, none, some, List, [],
  ◌∷◌, if◌then◌else◌, ◌==◌, ltb, ◌>>=◌, ◌≡◌, ◌↔◌,
}

-- How a map compares its keys and finds their hash, and whether it frees what it takes out.
pub record Kind (K : Type 0) : Type 0 where
  pub same : K → K → Bool
  pub hash : K → ℕ
  pub frees : Bool
  pub same_iff : (a b : K) → (same a b ≡ true) ↔ (a ≡ b)

pub record Elem (K : Type 0) : Type 0 where
  pub key : K
  pub data_ptr : ℕ
  pub next : Option ℕ
  pub prev : Option ℕ
  pub ref_count : ℕ

-- The elements, the number the next one gets, and the first element of each bucket.
pub record HashMap (K : Type 0) : Type 0 where
  pub elems : ℕ → Option (Elem K)
  pub next_elem : ℕ
  pub buckets : ℕ → Option ℕ

-- `get_hash_from_str`: a `char` of 128 or more is negative.
pub str_hash_from : ℕ → List ℕ → ℕ
str_hash_from hash [] = hash
str_hash_from hash (c ∷ str) =
    let signed = if ltb c 128 then c else c + 2 ^ 64 - 256 in
    str_hash_from ((hash * 33 + signed) % 2 ^ 64) str

abbrev pub get_hash_from_str : List ℕ → ℕ
get_hash_from_str str = str_hash_from 5381 str

abbrev pub hashmap_bucket_size : ℕ
hashmap_bucket_size = 200

module _ {K : Type 0} where
  pub init_hashmap : HashMap K
  init_hashmap = record { elems = λ a. none; next_elem = 0; buckets = λ b. none }

  pub put_elem : ℕ → Option (Elem K) → HashMap K → HashMap K
  put_elem a elem m = record m { elems = λ b. if b == a then elem else m.elems b }

  -- `atomic_inc` and `atomic_dec` of the count of references, of 32 bits.
  abbrev pub inc_ref : Elem K → Elem K
  inc_ref e = record e { ref_count = (e.ref_count + 1) % 2 ^ 32 }

  abbrev pub dec_ref : Elem K → Elem K
  dec_ref e = record e { ref_count = (e.ref_count + (2 ^ 32 - 1)) % 2 ^ 32 }

  -- `if (elem->prev) elem->prev->next = elem->next;`
  pub set_next : Option ℕ → Option ℕ → HashMap K → Option (HashMap K)
  set_next none next m = some m
  set_next (some a) next m = do e ← m.elems a; some (put_elem a (some (record e { next = next })) m)

  -- `if (elem->next) elem->next->prev = elem->prev;`
  pub set_prev : Option ℕ → Option ℕ → HashMap K → Option (HashMap K)
  set_prev none prev m = some m
  set_prev (some a) prev m = do e ← m.elems a; some (put_elem a (some (record e { prev = prev })) m)

  -- `UNCHAIN_LINKED_LIST`
  pub unchain : ℕ → HashMap K → Option (HashMap K)
  unchain a m = do
    e ← m.elems a
    m' ← set_next e.prev e.next m
    e' ← m'.elems a
    set_prev e'.next e'.prev m'

  -- `CHAIN_LINKED_LIST`
  pub chain : ℕ → ℕ → HashMap K → Option (HashMap K)
  chain after new m = do
    e ← m.elems after
    n ← m.elems new
    m' ←
        set_prev e.next (some new)
          (put_elem new (some (record n { next = e.next; prev = some after })) m)
    set_next (some after) (some new) m'

module _ {K : Type 0} (kind : Kind K) where
  abbrev pub bucket_of : K → ℕ
  bucket_of key = kind.hash key % hashmap_bucket_size

  -- The loop of `hashmap_get_elem_dat`: the element, with a reference more.
  pub find_elem : ℕ → K → Option ℕ → HashMap K → Option (Option ℕ × HashMap K)
  find_elem fuel key none m = some (none, m)
  find_elem zero key (some a) m = none
  find_elem (suc fuel) key (some a) m = do
    e ← m.elems a
    let m' = if kind.same e.key key then put_elem a (some (inc_ref e)) m else m
    let rest = find_elem fuel key e.next m'
    if kind.same e.key key && not ((inc_ref e).ref_count == 0) then some (some a, m') else rest

  -- A round for every element there is.
  pub get_elem_dat : K → HashMap K → Option (Option ℕ × HashMap K)
  get_elem_dat key m = find_elem m.next_elem key (m.buckets (bucket_of key)) m

  pub free_elem : ℕ → HashMap K → HashMap K
  free_elem a m = if kind.frees then put_elem a none m else m

  pub unref_elem : ℕ → HashMap K → Option (HashMap K)
  unref_elem a m = do
    e ← m.elems a
    let m' = put_elem a (some (dec_ref e)) m
    let gone = (do m'' ← unchain a m'; some (free_elem a m''))
    if (dec_ref e).ref_count == 0 then gone else some m'

  pub remove_elem : K → HashMap K → Option (HashMap K)
  remove_elem key m = do
    (found, m') ← get_elem_dat key m
    elim found [ none ↦ some m' | some a ↦ do m'' ← unref_elem a m'; unref_elem a m'' ]

  -- The data, or null.
  pub get_elem : K → HashMap K → Option (ℕ × HashMap K)
  get_elem key m = do
    (found, m') ← get_elem_dat key m
    elim found [
      | none ↦ some (0, m')
      | some a ↦ do e ← m'.elems a; m'' ← unref_elem a m'; some (e.data_ptr, m'')
    ]

  -- A new element, behind the first of its bucket.
  pub add_elem : K → ℕ → HashMap K → Option (HashMap K)
  add_elem key data_ptr m =
      let new = m.next_elem in
      let elem : Elem K = record {
        key = key;
        data_ptr = data_ptr;
        next = none;
        prev = none;
        ref_count = 1;
      } in
      let m' = record (put_elem new (some elem) m) { next_elem = suc new } in
      elim (m.buckets (bucket_of key)) [
        | none ↦
            some (record m' { buckets = λ b. if b == bucket_of key then some new else m.buckets b })
        | some first ↦ chain first new m'
      ]

  pub set_elem : K → ℕ → HashMap K → Option (HashMap K)
  set_elem key data_ptr m = do
    (found, m') ← get_elem_dat key m
    elim found [
      | none ↦ add_elem key data_ptr m'
      | some a ↦ do
        e ← m'.elems a
        unref_elem a (put_elem a (some (record e { data_ptr = data_ptr })) m')
    ]
