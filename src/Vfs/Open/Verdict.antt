-- ===== src/Vfs/Open/Verdict.antt =====
-- `vfs_open` (src/fs/vfs/vfs.c) on a path without a node: what the mount point's file system decides.
use drip_os.Prelude.{
  ℕ, ◌≡◌, ◌≢◌, ◌⊎◌, refl, sym, ap, ◌∙◌, true, false, Option, none, some, [], ◌∷◌, ◌++◌,
  if◌then◌else◌, subst, ◌==◌, ==_iff, arith, inl, inr, Bool-cases, Option-cases, false≢true,
}
use drip_os.Vfs.{Text, Descriptor, Node, Vfs}
use drip_os.Vfs.Open.{
  Handlers, Opened, opened, refused, asks_create, eperm, enoent, first_byte, last_byte,
  without_last, normalize_path, get_mountpoint_of_path, get_mountpoint_relative_path, may_open,
}

last_byte-snoc : (text : Text) (c : ℕ) → last_byte (text ++ c ∷ []) ≡ some c
unfolding last_byte
last_byte-snoc [] c = refl
last_byte-snoc (a ∷ []) c = refl
last_byte-snoc (a ∷ b ∷ text) c = last_byte-snoc (b ∷ text) c

pub without_last-snoc : (text : Text) (c : ℕ) → without_last (text ++ c ∷ []) ≡ text
unfolding without_last
without_last-snoc [] c = refl
without_last-snoc (a ∷ []) c = refl
without_last-snoc (a ∷ b ∷ text) c = ap (λ t. a ∷ t) (without_last-snoc (b ∷ text) c)

-- A text that is not empty is what stands before its last byte, and that.
last_byte-cut : (a : ℕ) (text : Text) → (c : ℕ) × (front : Text) × (a ∷ text ≡ front ++ c ∷ [])
last_byte-cut a [] = (a, [], refl)
last_byte-cut a (b ∷ text) =
    let (c, front, e) = last_byte-cut b text in (c, a ∷ front, ap (λ t. a ∷ t) e)

-- `normalize_path` after the slash in front, for a text with this last byte.
abbrev with_slash : Text → Option ℕ → Text
with_slash text last = elim last [
  | none ↦ text
  | some c ↦ if c == b'/' then text else text ++ b'/' ∷ []
]

slash_end :
    (text front : Text) (c : ℕ)
    → text ≡ front ++ c ∷ []
    → (before : Text) × (with_slash text (last_byte text) ≡ before ++ b'/' ∷ [])
slash_end text front c e =
    let last : last_byte text ≡ some c = ap last_byte e ∙ last_byte-snoc front c in
    elim (Bool-cases (c == b'/')) [
      | inl same ↦ (
        front,
        subst (λ o. with_slash text o ≡ front ++ b'/' ∷ []) (sym last)
            (rw same (e ∙ ap (λ d. front ++ d ∷ []) ((==_iff c b'/').0 same))),
      )
      | inr other ↦
          (text, subst (λ o. with_slash text o ≡ text ++ b'/' ∷ []) (sym last) (rw other refl))
    ]

slash_front :
    (path : Text)
    → (c : ℕ) × (front : Text) × ((if first_byte path == b'/' then [] else b'/' ∷ []) ++ path
        ≡ front ++ c ∷ [])
slash_front [] = last_byte-cut b'/' []
slash_front (a ∷ path) = elim (Bool-cases (a == b'/')) [
  | inl same ↦ let (c, front, e) = last_byte-cut a path in (c, front, rw same e)
  | inr other ↦ let (c, front, e) = last_byte-cut b'/' (a ∷ path) in (c, front, rw other e)
]

-- `normalize_path` leaves a slash at the end.
pub normalize_path-slashed :
    (path : Text) → (front : Text) × (normalize_path path ≡ front ++ b'/' ∷ [])
unfolding normalize_path
normalize_path-slashed path =
    let (c, front, e) = slash_front path in
    slash_end ((if first_byte path == b'/' then [] else b'/' ∷ []) ++ path) front c e

-- The file may be opened: it exists, or the file system has created it.
abbrev pub MayOpen : Handlers → ℕ → Node → Descriptor → Text → ℕ → Type 0
MayOpen h m n d relative mode =
    ((asks_create mode ≡ false) × (h.file_exists d.file_exists m relative ≡ true))
    ⊎ ((asks_create mode ≡ true)
        × ((create : ℕ) × (n.create_handle ≡ some create)
            × (h.create_handle create m relative mode ≡ 0)))

-- The error that a file is refused with: it does not exist and is not to be created, or the mount
-- point cannot create files, or the file system's own error.
abbrev pub MayNotOpen : Handlers → ℕ → Node → Descriptor → Text → ℕ → ℕ → Type 0
MayNotOpen h m n d relative mode err =
    ((asks_create mode ≡ false) × (h.file_exists d.file_exists m relative ≡ false) × (err ≡ enoent))
    ⊎ (((asks_create mode ≡ true) × (n.create_handle ≡ none) × (err ≡ eperm))
        ⊎ ((asks_create mode ≡ true)
            × ((create : ℕ) × (n.create_handle ≡ some create)
                × (h.create_handle create m relative mode ≡ err)
                × (err ≢ 0))))

abbrev pub Verdict : Handlers → ℕ → Node → Descriptor → Text → ℕ → Opened → Type 0
Verdict h m n d relative mode (opened b v') = MayOpen h m n d relative mode
Verdict h m n d relative mode (refused err v') = MayNotOpen h m n d relative mode err

-- The error of `may_open` is the one that the file system's answers call for, 0 if it may be opened.
pub may_open-Verdict :
    (h : Handlers) (m : ℕ) (n : Node) (d : Descriptor) (relative : Text) (mode : ℕ)
    → (err : ℕ) × (may_open h n d m relative mode ≡ err)
      × (((err ≡ 0) × MayOpen h m n d relative mode)
          ⊎ ((err ≢ 0) × MayNotOpen h m n d relative mode err))
unfolding may_open
may_open-Verdict h m n d relative mode = elim (Bool-cases (asks_create mode)) [
  | inr plain ↦ elim (Bool-cases (h.file_exists d.file_exists m relative)) [
    | inl there ↦ (0, ground (arith, plain, there), inl (refl, inl (plain, there)))
    | inr absent ↦ (
      enoent,
      ground (arith, plain, absent),
      inr ((λ e. omega (arith, e)), inl (plain, absent, refl)),
    )
  ]
  | inl creates ↦ elim (Option-cases n.create_handle) [
    | inl cannot ↦ (
      eperm,
      ground (arith, creates, cannot),
      inr ((λ e. omega (arith, e)), inr (inl (creates, cannot, refl))),
    )
    | inr (create, can) ↦
        let err = h.create_handle create m relative mode in
        let runs : may_open h n d m relative mode ≡ err = ground (arith, creates, can) in
        elim (Bool-cases (err == 0)) [
          | inl done ↦
              let zero_err = (==_iff err 0).0 done in
              (err, runs, inl (zero_err, inr (creates, (create, can, zero_err))))
          | inr failed ↦
              let err_ne : err ≢ 0 = λ e. false≢true (sym failed ∙ (==_iff err 0).1 e) in
              (err, runs, inr (err_ne, inr (inr (creates, (create, can, refl, err_ne)))))
        ]
  ]
]

-- How a path without a node was judged: by the mount point of the path, its file system, and the
-- path in it.
pub record Judged (h : Handlers) (v : Vfs) (path : Text) (mode : ℕ) (o : Opened) : Type 0 where
  pub mountpoint : ℕ
  pub node : Node
  pub descriptor : Descriptor
  pub relative : Text
  pub found : get_mountpoint_of_path v path ≡ some mountpoint
  pub node_at : v.nodes mountpoint ≡ some node
  pub descriptor_at : node.filesystem_descriptor ≡ some descriptor
  pub relative_at : get_mountpoint_relative_path v mountpoint path ≡ some (relative ++ b'/' ∷ [])
  pub verdict : Verdict h mountpoint node descriptor relative mode o
