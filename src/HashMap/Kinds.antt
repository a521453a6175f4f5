-- ===== src/HashMap/Kinds.antt =====
-- The two kinds of maps: with numbers (src/klibc/hashmap.c) and with texts
-- (src/klibc/strhashmap.c) as keys.
use drip_os.Prelude.{ℕ, true, false, Option, List, ◌==◌, ==_iff}
use drip_os.HashMap.{
  Kind, HashMap, get_hash_from_str, init_hashmap, get_elem_dat, unref_elem, remove_elem, get_elem,
  set_elem,
}
use drip_os.Vfs.{same_name}
use drip_os.Vfs.Search.{same_name_iff}

unfoldable pub hashmap_kind : Kind ℕ
hashmap_kind = record { same = λ a b. a == b; hash = λ a. a; frees = false; same_iff = ==_iff }

unfoldable pub strhashmap_kind : Kind (List ℕ)
strhashmap_kind = record {
  same = same_name;
  hash = get_hash_from_str;
  frees = true;
  same_iff = same_name_iff;
}

-- The operations of the maps with texts as keys.
pub init_strhashmap : HashMap (List ℕ)
init_strhashmap = init_hashmap

pub strhashmap_get_elem_dat : List ℕ → HashMap (List ℕ) → Option (Option ℕ × HashMap (List ℕ))
strhashmap_get_elem_dat key m = get_elem_dat strhashmap_kind key m

pub strhashmap_unref_elem : ℕ → HashMap (List ℕ) → Option (HashMap (List ℕ))
strhashmap_unref_elem a m = unref_elem strhashmap_kind a m

pub strhashmap_remove_elem : List ℕ → HashMap (List ℕ) → Option (HashMap (List ℕ))
strhashmap_remove_elem key m = remove_elem strhashmap_kind key m

pub strhashmap_get_elem : List ℕ → HashMap (List ℕ) → Option (ℕ × HashMap (List ℕ))
strhashmap_get_elem key m = get_elem strhashmap_kind key m

pub strhashmap_set_elem : List ℕ → ℕ → HashMap (List ℕ) → Option (HashMap (List ℕ))
strhashmap_set_elem key data_ptr m = set_elem strhashmap_kind key data_ptr m
