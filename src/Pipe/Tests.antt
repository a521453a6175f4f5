-- ===== src/Pipe/Tests.antt =====
-- Runs of src/fs/pipe.c, and the theorems at concrete pipes with a small buffer.
use drip_os.Prelude.{◌≡◌, refl, some, [], ◌∷◌, arith, ◌>>=◌}
use drip_os.Text.{get}
use drip_os.Pipe.{
  Pipe, transferred, eperm, ebadf, read_pipe, write_pipe, pipe_read, pipe_write, lookup_pipe,
  refuses, create_pipe, free_place,
}
use drip_os.Pipe.Queue.{Holds, read_pipe-Holds, write_pipe-Holds}

-- From process 1 to process 2; the bytes 7 and 8 are unread.
abbrev pipe : Pipe
pipe = record {
  creator_pid = 1;
  target_pid = 2;
  creator_fd = 3;
  target_fd = 4;
  buffer_size = 5;
  read_pointer = 1;
  write_pointer = 3;
  buffer = 6 ∷ 7 ∷ 8 ∷ 0 ∷ 0 ∷ [];
  write_event = 1;
  direction = 1;
}

pipe-Holds : Holds pipe (7 ∷ 8 ∷ [])
pipe-Holds = record {
  old = 6 ∷ [];
  room = 0 ∷ 0 ∷ [];
  bytes = refl;
  read_at = refl;
  write_at = refl;
  size = refl;
}

-- A read of one byte leaves it in the pipe, so it is read again.
reads_twice :
    (do
      (r, pipes) ← pipe_read 2 4 1 (some pipe ∷ [])
      (r', pipes') ← pipe_read 2 4 1 pipes
      some r')
    ≡ some (transferred (7 ∷ []))
unfolding pipe_read lookup_pipe refuses read_pipe get
reads_twice = refl

-- The creator of this pipe writes, and does not read.
not_allowed : pipe_read 1 3 1 (some pipe ∷ []) ≡ some (eperm, some pipe ∷ [])
unfolding pipe_read lookup_pipe refuses read_pipe get
not_allowed = refl

not_open : pipe_write 1 9 (5 ∷ []) (some pipe ∷ []) ≡ some (ebadf, some pipe ∷ [])
unfolding pipe_write lookup_pipe
not_open = refl

creates : free_place (create_pipe 1 3 4 2 1 []) 0 ≡ 1
unfolding create_pipe free_place
creates = refl

read_pipe-Holds_example :
    (pipe' : Pipe) × (read_pipe pipe 1 ≡ some (7 ∷ [], pipe')) × Holds pipe' (7 ∷ 8 ∷ [])
read_pipe-Holds_example = read_pipe-Holds pipe (7 ∷ 8 ∷ []) 1 pipe-Holds

write_pipe-Holds_example :
    (pipe' : Pipe) × (write_pipe pipe (9 ∷ []) ≡ some pipe') × Holds pipe' (7 ∷ 8 ∷ 9 ∷ [])
write_pipe-Holds_example = write_pipe-Holds pipe (7 ∷ 8 ∷ []) (9 ∷ []) pipe-Holds (omega arith)
