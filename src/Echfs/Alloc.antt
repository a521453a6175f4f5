-- ===== src/Echfs/Alloc.antt =====
-- `allocate_blocks_for_file` (src/fs/filesystems/echfs.c): the blocks that a chain gets were free,
-- and a device with enough of them gives as many as asked.
use drip_os.Prelude.{
  ℕ, zero, suc, ◌+◌, ◌-◌, ◌^◌, ◌≤◌, ◌<◌, ◌≡◌, ◌≢◌, refl, sym, ap, ◌∙◌, some, List, [], ◌∷◌, ◌++◌,
  ◌==◌, arith, Bool-cases, inl, inr, ==_iff, length, subst, sub64, sub64-le,
}
use drip_os.Echfs.{
  Geometry, Store, end_of_chain, set_entry_for_block, find_free_block, extend_chain,
  allocate_blocks_for_file,
}
use drip_os.Echfs.Cache.{SameView, entry_of, entry_of-SameView, IsSized}
use drip_os.Echfs.Chains.{
  IsChain, last, IsChain-SameView, count_blocks-IsChain, find_free_from-first,
}
use drip_os.Echfs.Extend.{
  Linked, ArePlaced, ArePlaced-last, ArePlaced-append, set_entry-Linked, last-end, joined-IsChain,
  other-IsChain, free_count, AreFree,
}
use drip_os.Echfs.FreeBlocks.{free_count-block, free_count-Linked, Linked-free, AreFree-Linked}

-- What `n` rounds of the loop give: `new` has `n` blocks, free until now, that follow the chain;
-- a chain with another end, of blocks that have a place in the table, is as it was.
pub record Extended (g : Geometry) (s s' : Store) (n b : ℕ) (rest : List ℕ) : Type 0 where
  pub new : List ℕ
  pub as_many : length new ≡ n
  pub were_free : AreFree g s new
  pub chain : IsChain g s' b (rest ++ new)
  pub others :
      (b' : ℕ) (rest' : List ℕ)
      → last b' rest' ≢ last b rest
      → ArePlaced b' rest'
      → IsChain g s b' rest'
      → IsChain g s' b' rest'

last-append : (b : ℕ) (rest : List ℕ) (f : ℕ) → last b (rest ++ f ∷ []) ≡ f
last-append b [] f = refl
last-append b (c ∷ rest) f = last-append c rest f

++-∷ : {A : Type 0} (xs : List A) (x : A) (ys : List A) → (xs ++ x ∷ []) ++ ys ≡ xs ++ x ∷ ys
++-∷ [] x ys = refl
++-∷ (z ∷ xs) x ys = ap (λ t. z ∷ t) (++-∷ xs x ys)

++-[] : {A : Type 0} (xs : List A) → xs ++ [] ≡ xs
++-[] [] = refl
++-[] (x ∷ xs) = ap (λ t. x ∷ t) (++-[] xs)

-- One round: the block found, and the tables before and after.
record Round (g : Geometry) (s : Store) (l n : ℕ) : Type 0 where
  pub block : ℕ
  pub after : Store
  pub runs : extend_chain g (suc n) l s ≡ extend_chain g n block after
  pub linked : Linked g s after l block
  pub free : entry_of g s block ≡ 0
  pub positive : 0 < block
  pub below : block < g.blocks

round :
    (g : Geometry) (s : Store) (l n : ℕ)
    → IsSized g
    → g.blocks ≤ 2 ^ 61
    → l < 2 ^ 61
    → entry_of g s 0 ≢ 0
    → 0 < free_count g s g.blocks 0
    → Round g s l n
unfolding extend_chain find_free_block
round g s l n sized small lt reserved some_free =
    let (k, free, lo, hi) = free_count-block g s g.blocks 0 some_free in
    let (f, s1, found, same, at, low, high) = find_free_from-first g g.blocks 0 k s lo hi free in
    let s2 = set_entry_for_block g (set_entry_for_block g s1 l f) f end_of_chain in
    let table = set_entry-Linked g s1 l f sized lt (omega (arith, high, hi, small)) in
    record {
      block = f;
      after = s2;
      runs = rw found refl;
      linked = λ x small_x. table x small_x ∙ rw (entry_of-SameView g s s1 x same) refl;
      free = at;
      positive = elim (Bool-cases (f == 0)) [
        | inl z ↦ absurd (reserved (subst (λ j. entry_of g s j ≡ 0) ((==_iff f 0).0 z) at))
        | inr z ↦ ground arith
      ];
      below = omega (arith, high, hi);
    }

apart_of :
    (g : Geometry) (s : Store) (f x : ℕ)
    → entry_of g s f ≡ 0
    → entry_of g s x ≡ end_of_chain
    → f ≢ x
apart_of g s f x free ended e = ground (arith, subst (λ j. entry_of g s j ≡ 0) e free, ended)

free_count-SameView :
    (g : Geometry) (s s' : Store) (n i : ℕ)
    → SameView s s'
    → free_count g s' n i ≡ free_count g s n i
free_count-SameView g s s' zero i same = refl
free_count-SameView g s s' (suc n) i same =
    rw (entry_of-SameView g s s' i same, free_count-SameView g s s' n (i + 1) same) refl

AreFree-SameView :
    (g : Geometry) (s s' : Store) (new : List ℕ)
    → SameView s s'
    → AreFree g s' new
    → AreFree g s new
AreFree-SameView g s s' [] same v = v
AreFree-SameView g s s' (b ∷ new) same (lt, free, v) =
    (lt, sym (entry_of-SameView g s s' b same) ∙ free, AreFree-SameView g s s' new same v)

extend_chain-Extended :
    (g : Geometry) (n b : ℕ) (rest : List ℕ) (s : Store)
    → IsSized g
    → g.blocks ≤ 2 ^ 61
    → entry_of g s 0 ≢ 0
    → ArePlaced b rest
    → IsChain g s b rest
    → n ≤ free_count g s g.blocks 0
    → Extended g s (extend_chain g n (last b rest) s) n b rest
unfolding extend_chain
extend_chain-Extended g zero b rest s sized small reserved placed v room = record {
  new = [];
  as_many = refl;
  were_free = tt;
  chain = subst (λ r. IsChain g s b r) (sym (++-[] rest)) v;
  others = λ b' rest' apart placed' v'. v';
}
extend_chain-Extended g (suc n) b rest s sized small reserved placed v room =
    let l = last b rest in
    let ended = last-end g s b rest v in
    let r =
      round g s l n sized small (ArePlaced-last b rest placed) reserved (omega (arith, room)) in
    let f = r.block in
    let s' = r.after in
    let lt_f : f < 2 ^ 61 = omega (arith, r.below, small) in
    let ne : f ≢ end_of_chain = λ e. omega (arith, e, r.below, small) in
    let v' =
      joined-IsChain g s s' l f r.linked ended r.free b rest refl r.positive ne lt_f placed v in
    let reserved' : entry_of g s' 0 ≢ 0 =
      λ e. reserved (Linked-free g s s' l f 0 r.linked r.positive (omega arith) e) in
    let counts = free_count-Linked g s s' l f g.blocks 0 r.linked (omega (arith, small)) ended in
    let room' : n ≤ free_count g s' g.blocks 0 = ground (arith, counts, room) in
    let more =
      extend_chain-Extended g n b (rest ++ f ∷ []) s' sized small reserved'
        (ArePlaced-append b rest f placed lt_f) v' room' in
    let end = last-append b rest f in
    let final = extend_chain g n f s' in
    let same : extend_chain g n (last b (rest ++ f ∷ [])) s' ≡ extend_chain g (suc n) l s =
      ap (λ x. extend_chain g n x s') end ∙ sym r.runs in
    record {
      new = f ∷ more.new;
      as_many = ap suc more.as_many;
      were_free = (
        r.below,
        r.free,
        AreFree-Linked g s s' l f more.new r.linked r.positive small more.were_free,
      );
      chain =
          subst (λ t. IsChain g t b (rest ++ f ∷ more.new)) same
            (subst (λ t. IsChain g (extend_chain g n (last b (rest ++ f ∷ [])) s') b t)
              (++-∷ rest f more.new) more.chain);
      others = λ b' rest' apart placed' w.
          subst (λ t. IsChain g t b' rest') same
            (more.others b' rest'
              (λ e. apart_of g s f (last b' rest') r.free (last-end g s b' rest' w) (sym (e ∙ end)))
              placed' (other-IsChain g s s' l f r.linked ended r.free b' rest' apart placed' w));
    }

-- On a device of at most 2^61 blocks, whose block 0 is in use and whose block size is a positive
-- multiple of eight, `allocate_blocks_for_file` on a file whose chain, of blocks below 2^61, is
-- shorter than `total_blocks`, with enough free blocks on the device: it returns, the chain has
-- `total_blocks` blocks, its old ones first, the blocks it got are of the device and were free, and
-- the chains of other files, of blocks below 2^61, are as they were. Fuel for the length of the chain
-- is enough. (From block 2^61 on, eight times the number of a block, its place in the table, wraps.)
pub allocate_blocks-Extended :
    (g : Geometry) (s : Store) (fuel b total_blocks : ℕ) (rest : List ℕ)
    → IsSized g
    → g.blocks ≤ 2 ^ 61
    → entry_of g s 0 ≢ 0
    → ArePlaced b rest
    → IsChain g s b rest
    → length rest < fuel
    → length rest + 1 ≤ total_blocks
    → total_blocks < 2 ^ 64
    → total_blocks ≤ length rest + 1 + free_count g s g.blocks 0
    → (s' : Store) × (allocate_blocks_for_file g fuel b total_blocks s ≡ some s')
      × Extended g s s' (total_blocks - (length rest + 1)) b rest
unfolding allocate_blocks_for_file
allocate_blocks-Extended g s fuel b total rest sized small reserved placed v fueled longer fits
      room =
    let (s1, runs, same) = count_blocks-IsChain g fuel 0 b rest s v fueled in
    let n = total - (length rest + 1) in
    let rounds : sub64 total (0 + length rest + 1) ≡ n =
      sub64-le total (0 + length rest + 1) (omega (arith, longer)) fits ∙ omega arith in
    let extended =
      extend_chain-Extended g n b rest s1 sized small
        (λ e. reserved (sym (entry_of-SameView g s s1 0 same) ∙ e)) placed
        (IsChain-SameView g s s1 b rest same v)
        (omega (arith, room, free_count-SameView g s s1 g.blocks 0 same)) in
    (
      extend_chain g n (last b rest) s1,
      rw (runs, rounds) refl,
      record {
        new = extended.new;
        as_many = extended.as_many;
        were_free = AreFree-SameView g s s1 extended.new same extended.were_free;
        chain = extended.chain;
        others = λ b' rest' apart placed' w.
            extended.others b' rest' apart placed' (IsChain-SameView g s s1 b' rest' same w);
      },
    )
