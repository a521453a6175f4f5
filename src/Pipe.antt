-- ===== src/Pipe.antt =====
-- src/fs/pipe.c: pipes. A pipe's buffer is the list of its bytes, and its two pointers are
-- distances from the start of the buffer. A copy behind the end of a buffer is `none`, as is the
-- use of an empty place of the table of pipes. Memory is always found.
pub mod Queue
mod Tests
use drip_os.Prelude.{
  ℕ, zero, suc, ◌+◌, ◌-◌, ◌*◌, ◌/◌, ◌%◌, ◌^◌, Bool, true, false, ◌&&◌, ◌||◌, not, Option, none,
  some, List, [], ◌∷◌, ◌++◌, if◌then◌else◌, ◌==◌, ltb, add64, sub64, ◌>>=◌, length, take, drop,
  replicate, set, get_elem?,
}
use drip_os.Text.{Buffer, get, put}

pub record Pipe : Type 0 where
  pub creator_pid : ℕ
  pub target_pid : ℕ
  pub creator_fd : ℕ
  pub target_fd : ℕ
  pub buffer_size : ℕ
  pub read_pointer : ℕ
  pub write_pointer : ℕ
  pub buffer : Buffer
  -- The bits of an `int`.
  pub write_event : ℕ
  pub direction : ℕ

abbrev pub direction_to_target : ℕ
direction_to_target = 1

abbrev pub direction_from_target : ℕ
direction_from_target = 2

abbrev pub default_buffer_size : ℕ
default_buffer_size = 4096

-- The table, with `none` for a null pointer.
abbrev pub Pipes : Type 0
Pipes = List (Option Pipe)

-- The first empty place of the table from index `i` on, or its end.
pub free_place : Pipes → ℕ → ℕ
free_place [] i = i
free_place (none ∷ pipes) i = i
free_place (some pipe ∷ pipes) i = free_place pipes (i + 1)

-- For the process `cur_pid`.
pub create_pipe : ℕ → ℕ → ℕ → ℕ → ℕ → Pipes → Pipes
create_pipe cur_pid cur_fd remote_fd other_pid direction pipes =
    let index = free_place pipes 0 in
    let grown = if index == length pipes then pipes ++ none ∷ [] else pipes in
    set grown index (
      some (record {
        creator_pid = cur_pid;
        target_pid = other_pid;
        creator_fd = cur_fd;
        target_fd = remote_fd;
        buffer_size = default_buffer_size;
        read_pointer = 0;
        write_pointer = 0;
        buffer = replicate default_buffer_size 0;
        write_event = 0;
        direction = direction;
      }))

abbrev pub is_creator : ℕ → ℕ → Pipe → Bool
is_creator cur_pid fd pipe = (fd == pipe.creator_fd) && (cur_pid == pipe.creator_pid)

abbrev pub is_target : ℕ → ℕ → Pipe → Bool
is_target cur_pid fd pipe = (fd == pipe.target_fd) && (cur_pid == pipe.target_pid)

-- The index of the pipe from `i` on.
pub lookup_pipe : ℕ → ℕ → Pipes → ℕ → Option (Option ℕ)
lookup_pipe cur_pid fd [] i = some none
lookup_pipe cur_pid fd (none ∷ pipes) i = none
lookup_pipe cur_pid fd (some pipe ∷ pipes) i =
    let rest = lookup_pipe cur_pid fd pipes (i + 1) in
    if is_creator cur_pid fd pipe || is_target cur_pid fd pipe then some (some i) else rest

-- `pipe_read` behind the wait: the bytes that are copied out, and the pipe.
pub read_pipe : Pipe → ℕ → Option (List ℕ × Pipe)
read_pipe pipe count =
    let unread = pipe.write_pointer - pipe.read_pointer in
    let pointer_difference = if ltb count unread then count else unread in
    let reset = pipe.read_pointer + pointer_difference == pipe.write_pointer in
    do
      bytes ← get pointer_difference (drop pipe.read_pointer pipe.buffer)
      some (
        bytes,
        record pipe {
          read_pointer = if reset then 0 else pipe.read_pointer;
          write_pointer = if reset then 0 else pipe.write_pointer;
          write_event = 0;
        },
      )

-- The number of bytes by which `pipe_write` makes a buffer larger that lacks `missing` of them.
abbrev pub new_bytes : ℕ → ℕ
new_bytes missing = (missing + 1 + 0x1000 - 1) / 0x1000

pub grow_pipe : Pipe → ℕ → Pipe
grow_pipe pipe missing = record pipe {
  buffer = pipe.buffer ++ replicate (new_bytes missing) 0;
  buffer_size = add64 pipe.buffer_size (new_bytes missing);
}

-- `pipe_write` behind its checks. The write pointer stays inside the buffer.
pub write_pipe : Pipe → List ℕ → Option Pipe
write_pipe pipe buf =
    let free = pipe.buffer_size - pipe.write_pointer in
    let count = length buf in
    let roomy = if ltb free count then grow_pipe pipe (count - free) else pipe in
    do
      written ← put buf (drop roomy.write_pointer roomy.buffer)
      some (record roomy {
        buffer = take roomy.write_pointer roomy.buffer ++ written;
        write_pointer = roomy.write_pointer + count;
        write_event = (roomy.write_event + 1) % 2 ^ 32;
      })

-- The result of an operation on a descriptor; `blocks` is a wait for the writer.
pub data Result : Type 0 where
  transferred : List ℕ → Result
  ebadf : Result
  eperm : Result
  blocks : Result

-- May this end not read, or not write?
pub refuses : ℕ → ℕ → ℕ → ℕ → Pipe → Bool
refuses cur_pid fd from_creator from_target pipe =
    (is_creator cur_pid fd pipe && not (pipe.direction == from_creator))
    || (is_target cur_pid fd pipe && not (pipe.direction == from_target))

abbrev pub replace : Pipes → ℕ → Pipe → Pipes
replace pipes i pipe = set pipes i (some pipe)

pub pipe_read : ℕ → ℕ → ℕ → Pipes → Option (Result × Pipes)
pipe_read cur_pid fd count pipes = do
  index ← lookup_pipe cur_pid fd pipes 0
  elim index [
    | none ↦ some (ebadf, pipes)
    | some i ↦ do
      entry ← get_elem? pipes i
      pipe ← entry
      if refuses cur_pid fd direction_from_target direction_to_target pipe
          then some (eperm, pipes)
          else if (pipe.read_pointer == pipe.write_pointer) && (pipe.write_event == 0)
          then some (blocks, pipes)
          else do
            (bytes, pipe') ← read_pipe pipe count
            some (transferred bytes, replace pipes i pipe')
  ]

pub pipe_write : ℕ → ℕ → List ℕ → Pipes → Option (Result × Pipes)
pipe_write cur_pid fd buf pipes = do
  index ← lookup_pipe cur_pid fd pipes 0
  elim index [
    | none ↦ some (ebadf, pipes)
    | some i ↦ do
      entry ← get_elem? pipes i
      pipe ← entry
      if refuses cur_pid fd direction_to_target direction_from_target pipe
          then some (eperm, pipes)
          else do pipe' ← write_pipe pipe buf; some (transferred buf, replace pipes i pipe')
  ]
