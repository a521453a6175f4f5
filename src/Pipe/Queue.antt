-- ===== src/Pipe/Queue.antt =====
-- src/fs/pipe.c: a pipe as a queue of bytes.
use drip_os.Prelude.{
  ℕ, zero, suc, ◌+◌, ◌-◌, ◌≤◌, ◌<◌, ◌≡◌, refl, sym, ap, ◌∙◌, true, false, none, some, List, [], ◌∷◌,
  ◌++◌, if◌then◌else◌, ◌==◌, arith, ltb, Bool-cases, inl, inr, length, length-append, take, drop,
  replicate, ◌%◌, ◌^◌,
}
use drip_os.Text.{Buffer, get, put}
use drip_os.Text.Buffers.{put_lem, append_assoc, drop-append, take-append}
use drip_os.Pipe.{Pipe, read_pipe, write_pipe, grow_pipe, new_bytes}

-- The bytes of `unread` stand between the two pointers, in front of them `old` and behind them
-- `room`.
pub record Holds (pipe : Pipe) (unread : List ℕ) : Type 0 where
  pub old : List ℕ
  pub room : List ℕ
  pub bytes : pipe.buffer ≡ old ++ (unread ++ room)
  pub read_at : pipe.read_pointer ≡ length old
  pub write_at : pipe.write_pointer ≡ length old + length unread
  pub size : pipe.buffer_size ≡ length old + (length unread + length room)

get-take : (n : ℕ) (xs ys : List ℕ) → n ≤ length xs → get n (xs ++ ys) ≡ some (take n xs)
unfolding get
get-take zero xs ys le = refl
get-take (suc n) [] ys le = absurd (omega (arith, le))
get-take (suc n) (x ∷ xs) ys le = rw (get-take n xs ys (omega (arith, le))) refl

length-drop : (n : ℕ) (xs : List ℕ) → length (drop n xs) ≡ length xs - n
length-drop zero xs = omega arith
length-drop (suc n) [] = omega arith
length-drop (suc n) (x ∷ xs) = length-drop n xs ∙ omega arith

put-short : (src : List ℕ) (dst : Buffer) → length dst < length src → put src dst ≡ none
unfolding put
put-short [] dst lt = absurd (omega (arith, lt))
put-short (c ∷ src) [] lt = refl
put-short (c ∷ src) (d ∷ dst) lt = rw (put-short src dst (omega (arith, lt))) refl

take-all : (n : ℕ) (xs : List ℕ) → length xs ≤ n → take n xs ≡ xs
take-all zero [] le = refl
take-all zero (x ∷ xs) le = absurd (omega (arith, le))
take-all (suc n) [] le = refl
take-all (suc n) (x ∷ xs) le = ap (λ l. x ∷ l) (take-all n xs (omega (arith, le)))

-- The bytes from the read pointer on, and the length of the buffer.
behind :
    (pipe : Pipe) (unread : List ℕ) (h : Holds pipe unread)
    → drop pipe.read_pointer pipe.buffer ≡ unread ++ h.room
behind pipe unread h = rw (h.read_at, h.bytes) (drop-append h.old (unread ++ h.room))

buffer-length :
    (pipe : Pipe) (unread : List ℕ) (h : Holds pipe unread)
    → length h.old + (length unread + length h.room) ≡ 0 + (0 + length pipe.buffer)
buffer-length pipe unread h =
    let whole = ap length h.bytes ∙ length-append h.old (unread ++ h.room) in
    omega (arith, whole, length-append unread h.room)

-- Reading `count` bytes gives the first `count` unread bytes, or all if there are fewer. When it
-- gives all, the pipe is empty afterwards; otherwise it has the same unread bytes as before.
pub read_pipe-Holds :
    (pipe : Pipe) (unread : List ℕ) (count : ℕ)
    → Holds pipe unread
    → (pipe' : Pipe) × (read_pipe pipe count ≡ some (take count unread, pipe'))
      × Holds pipe' (if ltb count (length unread) then unread else [])
unfolding read_pipe
read_pipe-Holds pipe unread count h =
    let distance : pipe.write_pointer - pipe.read_pointer ≡ length unread =
      omega (arith, h.read_at, h.write_at) in
    let front : drop pipe.read_pointer pipe.buffer ≡ unread ++ h.room = behind pipe unread h in
    elim (Bool-cases (ltb count (length unread))) [
      | inl e ↦
          let left : (pipe.read_pointer + count == pipe.write_pointer) ≡ false =
            ground (arith, h.read_at, h.write_at, e) in
          let fewer : count ≤ length unread = ground (arith, e) in
          (
            record pipe { write_event = 0 },
            rw (distance, e, left, front, get-take count unread h.room fewer) refl,
            rw e (record {
              old = h.old;
              room = h.room;
              bytes = h.bytes;
              read_at = h.read_at;
              write_at = h.write_at;
              size = h.size;
            }),
          )
      | inr e ↦
          let all : (pipe.read_pointer + length unread == pipe.write_pointer) ≡ true =
            ground (arith, h.read_at, h.write_at) in
          let enough : length unread ≤ count = ground (arith, e) in
          let whole =
            take-all (length unread) unread (omega arith) ∙ sym (take-all count unread enough) in
          (
            record pipe { read_pointer = 0; write_pointer = 0; write_event = 0 },
            rw
                (
                  distance,
                  e,
                  all,
                  front,
                  get-take (length unread) unread h.room (omega arith),
                  whole,
                )
                refl,
            rw e (record {
              old = [];
              room = pipe.buffer;
              bytes = refl;
              read_at = refl;
              write_at = omega arith;
              size = h.size ∙ buffer-length pipe unread h;
            }),
          )
    ]

-- Writing bytes for which the buffer has room puts them behind the unread bytes.
pub write_pipe-Holds :
    (pipe : Pipe) (unread buf : List ℕ)
    → Holds pipe unread
    → pipe.write_pointer + length buf ≤ pipe.buffer_size
    → (pipe' : Pipe) × (write_pipe pipe buf ≡ some pipe') × Holds pipe' (unread ++ buf)
unfolding write_pipe
write_pipe-Holds pipe unread buf h fits =
    let front = h.old ++ unread in
    let joined : pipe.buffer ≡ front ++ h.room = h.bytes ∙ sym (append_assoc h.old unread h.room) in
    let at : pipe.write_pointer ≡ length front = h.write_at ∙ sym (length-append h.old unread) in
    let room_left : length buf ≤ length h.room = omega (arith, fits, h.size, h.write_at) in
    let fitting : ltb (pipe.buffer_size - pipe.write_pointer) (length buf) ≡ false =
      ground (arith, fits) in
    let dropped : drop pipe.write_pointer pipe.buffer ≡ h.room =
      rw (at, joined) (drop-append front h.room) in
    let taken : take pipe.write_pointer pipe.buffer ≡ front =
      rw (at, joined) (take-append front h.room) in
    let rest = drop (length buf) h.room in
    (
      record pipe {
        buffer = front ++ (buf ++ rest);
        write_pointer = pipe.write_pointer + length buf;
        write_event = (pipe.write_event + 1) % 2 ^ 32;
      },
      rw (fitting, dropped, put_lem buf h.room room_left, taken) refl,
      record {
        old = h.old;
        room = rest;
        bytes =
            append_assoc h.old unread (buf ++ rest)
            ∙ ap (λ l. h.old ++ l) (sym (append_assoc unread buf rest));
        read_at = h.read_at;
        write_at = omega (arith, h.write_at, length-append unread buf);
        size =
            omega
              (arith, h.size, length-append unread buf, length-drop (length buf) h.room, room_left);
      },
    )

-- Writing at least two bytes, and less than a page, more than the buffer has room for: the buffer
-- grows by one byte only, and the copy goes behind its end.
pub write_pipe-overrun :
    (pipe : Pipe) (unread buf : List ℕ)
    → Holds pipe unread
    → pipe.buffer_size + 2 ≤ pipe.write_pointer + length buf
    → pipe.write_pointer + length buf < pipe.buffer_size + 0x1000
    → write_pipe pipe buf ≡ none
unfolding write_pipe grow_pipe
write_pipe-overrun pipe unread buf h low high =
    let missing = length buf - (pipe.buffer_size - pipe.write_pointer) in
    let one : new_bytes missing ≡ 1 = omega (arith, low, high, h.size, h.write_at) in
    let lacking : ltb (pipe.buffer_size - pipe.write_pointer) (length buf) ≡ true =
      ground (arith, low, h.size, h.write_at) in
    let short : length (drop pipe.write_pointer (pipe.buffer ++ replicate 1 0)) < length buf =
      omega (
        arith,
        low,
        h.size,
        h.write_at,
        buffer-length pipe unread h,
        length-drop pipe.write_pointer (pipe.buffer ++ replicate 1 0),
        length-append pipe.buffer (replicate 1 0),
      ) in
    rw (lacking, one, put-short buf (drop pipe.write_pointer (pipe.buffer ++ replicate 1 0)) short)
      refl
