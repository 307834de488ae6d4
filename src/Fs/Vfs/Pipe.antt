-- ===== src/Fs/Vfs/Pipe.antt =====
-- The pipes of kernel/src/fs/vfs.rs: a table of 16 rings of 4096 bytes. A byte written at one end is
-- read at the other. In a call that waits `others` is what the other tasks do to the table
-- while this one yields for the k-th time.
pub mod Ring
pub mod Read
pub mod Write
use elitra_os.Base.{
  ℕ, zero, suc, ◌+◌, ◌-◌, ◌*◌, ◌%◌, ◌^◌, Bool, true, false, not, ◌&&◌, ◌||◌, Option, none, some,
  List, [], ◌∷◌, ◌++◌, length, replicate, get_or, set, ltb, ◌==◌, if◌then◌else◌,
}

pub record PipeBuffer : Type 0 where
  pub buf : List ℕ
  pub head : ℕ
  pub tail : ℕ
  pub read_open : Bool
  pub write_open : Bool
  pub used : Bool
  pub readers : ℕ
  pub writers : ℕ
  pub read_fd : ℕ
  pub write_fd : ℕ

abbrev pub pipe_buf_size : ℕ
pipe_buf_size = 4096

abbrev pub max_pipes : ℕ
max_pipes = 16

abbrev pub pipe_fd_start : ℕ
pipe_fd_start = 32

-- PIPES and NEXT_PIPE_FD
pub record Pipes : Type 0 where
  pub pipes : List PipeBuffer
  pub next_pipe_fd : ℕ

abbrev pub empty_pipe : PipeBuffer
empty_pipe = record {
  buf = replicate pipe_buf_size 0;
  head = 0;
  tail = 0;
  read_open = false;
  write_open = false;
  used = false;
  readers = 0;
  writers = 0;
  read_fd = 0;
  write_fd = 0;
}

unfoldable pub pipes_init : Pipes
pipes_init = record { pipes = replicate max_pipes empty_pipe; next_pipe_fd = pipe_fd_start }

unfoldable pub is_end : ℕ → Bool → PipeBuffer → Bool
is_end fd is_read p = p.used && (if is_read then p.read_fd == fd else p.write_fd == fd)

-- the index of the pipe
unfoldable pub pipe_from_fd : List PipeBuffer → ℕ → Bool → Option ℕ
pipe_from_fd [] fd is_read = none
pipe_from_fd (p ∷ ps) fd is_read =
    let rest : Option ℕ = elim (pipe_from_fd ps fd is_read) [
      | none ↦ none
      | some i ↦ some (suc i)
    ] in
    if is_end fd is_read p then some 0 else rest

abbrev pub pipe_at : List PipeBuffer → ℕ → PipeBuffer
pipe_at ps i = get_or ps i empty_pipe

abbrev pub next_index : ℕ → ℕ
next_index i = (i + 1) % pipe_buf_size

unfoldable pub has_bytes : PipeBuffer → Bool
has_bytes p = not (p.head == p.tail)

unfoldable pub has_room : PipeBuffer → Bool
has_room p = not (next_index p.head == p.tail)

unfoldable pub pipe_has_data : List PipeBuffer → ℕ → Bool
pipe_has_data ps fd = elim (pipe_from_fd ps fd true) [
  | none ↦ false
  | some i ↦ has_bytes (pipe_at ps i)
]

unfoldable pub pipe_can_write : List PipeBuffer → ℕ → Bool
pipe_can_write ps fd = elim (pipe_from_fd ps fd false) [
  | none ↦ false
  | some i ↦ has_room (pipe_at ps i)
]

abbrev is_some : Option ℕ → Bool
is_some none = false
is_some (some i) = true

unfoldable pub is_pipe_fd : List PipeBuffer → ℕ → Bool
is_pipe_fd ps fd = is_some (pipe_from_fd ps fd true) || is_some (pipe_from_fd ps fd false)

unfoldable pub free_pipe : List PipeBuffer → Option ℕ
free_pipe [] = none
free_pipe (p ∷ ps) =
    let rest : Option ℕ = elim (free_pipe ps) [ none ↦ none | some i ↦ some (suc i) ] in
    if p.used then rest else some 0

-- The two descriptors; NEXT_PIPE_FD is an i32 that is not supposed to overflow.
unfoldable pub pipe_create : Pipes → Pipes × Option (ℕ × ℕ)
pipe_create s = elim (free_pipe s.pipes) [
  | none ↦ (s, none)
  | some i ↦
      let p : PipeBuffer = record empty_pipe {
        used = true;
        read_open = true;
        write_open = true;
        read_fd = s.next_pipe_fd;
        write_fd = s.next_pipe_fd + 1;
        readers = 1;
        writers = 1;
      } in
      (
        record { pipes = set s.pipes i p; next_pipe_fd = s.next_pipe_fd + 2 },
        some (s.next_pipe_fd, s.next_pipe_fd + 1),
      )
]

unfoldable pub take_byte : PipeBuffer → ℕ × PipeBuffer
take_byte p = (get_or p.buf p.tail 0, record p { tail = next_index p.tail })

unfoldable pub put_byte : ℕ → PipeBuffer → PipeBuffer
put_byte b p = record p { buf = set p.buf p.head b; head = next_index p.head }

-- What a turn of a loop does: a byte goes over, the loop ends, or the task yields.
pub data Step : Type 0 where
  transfer stop wait : Step

unfoldable pub step : Bool → Bool → ℕ → Step
step ready open_ retries =
    if ready then transfer else if not open_ then stop else if ltb 200 retries then stop else wait

-- A turn of the reader at pipe `i`, where `more` and `later` are what follows on a byte and on a
-- wait.
abbrev pub first_byte : ℕ → Option (List PipeBuffer × List ℕ) → Option (List PipeBuffer × List ℕ)
first_byte b none = none
first_byte b (some r) = some (r.0, b ∷ r.1)

abbrev pub read_turn :
    List PipeBuffer
    → ℕ
    → Option (List PipeBuffer × List ℕ)
    → Option (List PipeBuffer × List ℕ)
    → Step
    → Option (List PipeBuffer × List ℕ)
read_turn ps i more later transfer = first_byte (take_byte (pipe_at ps i)).0 more
read_turn ps i more later stop = some (ps, [])
read_turn ps i more later wait = later

-- The loop of a reader that still takes `left` bytes, `k` the yields so far; `none` without fuel.
unfoldable pub read_loop :
    ℕ
    → (ℕ → List PipeBuffer → List PipeBuffer)
    → ℕ
    → ℕ
    → ℕ
    → ℕ
    → List PipeBuffer
    → Option (List PipeBuffer × List ℕ)
read_loop zero others i k left retries ps = none
read_loop (suc fuel) others i k zero retries ps = some (ps, [])
read_loop (suc fuel) others i k (suc left) retries ps =
    let p = pipe_at ps i in
    let more = read_loop fuel others i k left 0 (set ps i (take_byte p).1) in
    let later = read_loop fuel others i (suc k) (suc left) (suc retries) (others k ps) in
    read_turn ps i more later (step (has_bytes p) p.write_open retries)

-- A turn of the writer.
abbrev pub one_more : Option (List PipeBuffer × ℕ) → Option (List PipeBuffer × ℕ)
one_more none = none
one_more (some r) = some (r.0, suc r.1)

abbrev pub write_turn :
    List PipeBuffer
    → Option (List PipeBuffer × ℕ)
    → Option (List PipeBuffer × ℕ)
    → Step
    → Option (List PipeBuffer × ℕ)
write_turn ps more later transfer = one_more more
write_turn ps more later stop = some (ps, 0)
write_turn ps more later wait = later

-- The loop of a writer, with the bytes that are not written yet and the count of those that are.
unfoldable pub write_loop :
    ℕ
    → (ℕ → List PipeBuffer → List PipeBuffer)
    → ℕ
    → ℕ
    → List ℕ
    → ℕ
    → List PipeBuffer
    → Option (List PipeBuffer × ℕ)
write_loop zero others i k bytes retries ps = none
write_loop (suc fuel) others i k [] retries ps = some (ps, 0)
write_loop (suc fuel) others i k (b ∷ bytes) retries ps =
    let p = pipe_at ps i in
    let more = write_loop fuel others i k bytes 0 (set ps i (put_byte b p)) in
    let later = write_loop fuel others i (suc k) (b ∷ bytes) (suc retries) (others k ps) in
    write_turn ps more later (step (has_room p) p.read_open retries)

-- 201 waits before each byte and before the end
abbrev pub pipe_fuel : ℕ → ℕ
pipe_fuel size = (size + 1) * 203

unfoldable pub pipe_read :
    (ℕ → List PipeBuffer → List PipeBuffer)
    → ℕ
    → ℕ
    → List PipeBuffer
    → Option (List PipeBuffer × Option (List ℕ))
pipe_read others fd size ps = elim (pipe_from_fd ps fd true) [
  | none ↦ some (ps, none)
  | some i ↦ elim (read_loop (pipe_fuel size) others i 0 size 0 ps) [
    | none ↦ none
    | some r ↦ some (r.0, some r.1)
  ]
]

unfoldable pub pipe_write :
    (ℕ → List PipeBuffer → List PipeBuffer)
    → ℕ
    → List ℕ
    → List PipeBuffer
    → Option (List PipeBuffer × Option ℕ)
pipe_write others fd bytes ps = elim (pipe_from_fd ps fd false) [
  | none ↦ some (ps, none)
  | some i ↦ elim (write_loop (pipe_fuel (length bytes)) others i 0 bytes 0 ps) [
    | none ↦ none
    | some r ↦ some (r.0, some r.1)
  ]
]

unfoldable pub close_read : ℕ → PipeBuffer → PipeBuffer
close_read fd p =
    if p.read_fd == fd then record p { read_open = false; readers = p.readers - 1 } else p

unfoldable pub close_write : ℕ → PipeBuffer → PipeBuffer
close_write fd p =
    if p.write_fd == fd then record p { write_open = false; writers = p.writers - 1 } else p

unfoldable pub release : PipeBuffer → PipeBuffer
release p = if p.readers == 0 && p.writers == 0 then record p { used = false } else p

unfoldable pub pipe_close : ℕ → List PipeBuffer → List PipeBuffer
pipe_close fd [] = []
pipe_close fd (p ∷ ps) =
    let rest = pipe_close fd ps in
    if p.used && (p.read_fd == fd || p.write_fd == fd)
    then release (close_write fd (close_read fd p)) ∷ ps
    else p ∷ rest
