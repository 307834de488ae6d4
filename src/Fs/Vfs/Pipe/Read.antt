-- ===== src/Fs/Vfs/Pipe/Read.antt =====
-- Reading from a pipe (kernel/src/fs/vfs.rs) while other tasks run.
use mathlib.Core.List.{append-nil}
use elitra_os.Base.{
  ℕ, zero, suc, ◌+◌, ◌-◌, ◌*◌, ◌≤◌, ◌<◌, ◌≡◌, ◌∙◌, refl, sym, ap, subst, Bool, true, false, Option,
  some, List, [], ◌∷◌, ◌++◌, length, set, ltb, arith, ◌⊎◌, inl, inr, Bool-cases, length-set,
  get_or-set_self,
}
use elitra_os.Fs.Vfs.Pipe.{
  PipeBuffer, has_bytes, take_byte, Step, transfer, stop, wait, step, empty_pipe, first_byte,
  read_turn, read_loop, pipe_fuel, pipe_at, pipe_from_fd, pipe_read,
}
use elitra_os.Fs.Vfs.Pipe.Ring.{
  IsPipe, contents, take_byte-IsPipe, contents-take_byte, contents_empty,
}

-- What a step says of the pipe.
abbrev pub IsStep : Bool → Bool → ℕ → Step → Type 0
IsStep ready open_ retries transfer = ready ≡ true
IsStep ready open_ retries stop = (ready ≡ false) × (open_ ≡ false ⊎ 200 < retries)
IsStep ready open_ retries wait = (ready ≡ false) × retries < 201

pub step-IsStep :
    (ready open_ : Bool) (retries : ℕ) → IsStep ready open_ retries (step ready open_ retries)
unfolding step
step-IsStep true open_ retries = refl
step-IsStep false false retries = (refl, inl refl)
step-IsStep false true retries = elim (Bool-cases (ltb 200 retries)) [
  | inl t ↦ rw t (refl, inr (ground (arith, t)))
  | inr f ↦ rw f (refl, ground (arith, f))
]

-- The turns of a loop that are left at most.
unfoldable pub turns : ℕ → ℕ → ℕ
turns left retries = left * 202 + (201 - retries)

-- Pipe `i` is in the table and sound.
abbrev pub IsSound : ℕ → List PipeBuffer → Type 0
IsSound i ps = (i < length ps) × IsPipe (pipe_at ps i)

-- The other tasks leave it so.
abbrev pub AreSound : ℕ → (ℕ → List PipeBuffer → List PipeBuffer) → Type 0
AreSound i others = (k : ℕ) (ps : List PipeBuffer) → IsSound i ps → IsSound i (others k ps)

pub pipe_at-set :
    (ps : List PipeBuffer) (i : ℕ) (p : PipeBuffer) → i < length ps → pipe_at (set ps i p) i ≡ p
pipe_at-set ps i p h = get_or-set_self ps i p empty_pipe h

pub set-IsSound :
    (ps : List PipeBuffer) (i : ℕ) (p : PipeBuffer)
    → i < length ps
    → IsPipe p
    → IsSound i (set ps i p)
set-IsSound ps i p h g =
    (omega (arith, h, length-set ps i p), subst IsPipe (sym (pipe_at-set ps i p h)) g)

-- A read from a queue of bytes, as it should go: from the table `ps`, with `left` bytes to take, `k`
-- yields and `retries` waits in a row so far, to the table in the end, with the bytes that were
-- taken and those that were found after the waits. A byte is taken where one waits, it is the
-- first, and only the tail moves; only an empty pipe is waited for; and the read ends when it has its bytes, or on an empty
-- pipe whose other end is closed or that stayed empty 201 times in a row.
pub data ReadRun (others : ℕ → List PipeBuffer → List PipeBuffer) (i : ℕ)
    : ℕ → ℕ → ℕ → List PipeBuffer → List ℕ → List ℕ → List PipeBuffer → Type 0 where
  full : {k retries : ℕ} {ps : List PipeBuffer} → ReadRun others i k 0 retries ps [] [] ps
  ended :
      {k left retries : ℕ} {ps : List PipeBuffer}
      → contents (pipe_at ps i) ≡ []
      → (pipe_at ps i).write_open ≡ false ⊎ 200 < retries
      → ReadRun others i k (suc left) retries ps [] [] ps
  taken :
      {k left retries b : ℕ} {out found : List ℕ} {ps last : List PipeBuffer} (tail : ℕ)
      → contents (pipe_at ps i) ≡ b ∷ contents (record (pipe_at ps i) { tail = tail })
      → ReadRun others i k left 0 (set ps i (record (pipe_at ps i) { tail = tail })) out found last
      → ReadRun others i k (suc left) retries ps (b ∷ out) found last
  waited :
      {k left retries : ℕ} {out found : List ℕ} {ps last : List PipeBuffer}
      → contents (pipe_at ps i) ≡ []
      → ReadRun others i (suc k) (suc left) (suc retries) (others k ps) out found last
      → ReadRun others i k
          (suc left)
          retries
          ps
          out
          (contents (pipe_at (others k ps) i) ++ found)
          last

-- What a read has to be: a run of the queue, at the end of which the pipe is sound, and what was
-- taken and what waits then are what waited at first and what was found.
abbrev pub Reads :
    (ℕ → List PipeBuffer → List PipeBuffer)
    → ℕ
    → ℕ
    → ℕ
    → ℕ
    → List PipeBuffer
    → Option (List PipeBuffer × List ℕ)
    → Type 0
Reads others i k left retries ps o =
    (last : List PipeBuffer) × (out found : List ℕ) × (o ≡ some (last, out))
    × ReadRun others i k left retries ps out found last
    × IsSound i last
    × (length out ≤ left)
    × (out ++ contents (pipe_at last i) ≡ contents (pipe_at ps i) ++ found)

module _ (others : ℕ → List PipeBuffer → List PipeBuffer) (i : ℕ) (sound : AreSound i others) where
  Reads-taken :
      (k left retries : ℕ) (ps : List PipeBuffer) (o : Option (List PipeBuffer × List ℕ))
      → IsSound i ps
      → has_bytes (pipe_at ps i) ≡ true
      → Reads others i k left 0 (set ps i (take_byte (pipe_at ps i)).1) o
      → Reads others i k (suc left) retries ps (first_byte (take_byte (pipe_at ps i)).0 o)
  unfolding take_byte
  Reads-taken k left retries ps o (inside, h) some_byte (last, out, found, g, run, s, l, f) =
      let p : PipeBuffer = pipe_at ps i in
      let q : PipeBuffer = (take_byte p).1 in
      let e : contents p ≡ (take_byte p).0 ∷ contents q = contents-take_byte p h some_byte in
      let back : contents (pipe_at (set ps i q) i) ≡ contents q =
        ap contents (pipe_at-set ps i q inside) in
      (
        last,
        (take_byte p).0 ∷ out,
        found,
        ap (first_byte (take_byte p).0) g,
        taken q.tail e run,
        s,
        omega (arith, l),
        ap (λ c. (take_byte p).0 ∷ c) (f ∙ ap (λ c. c ++ found) back)
            ∙ ap (λ c. c ++ found) (sym e),
      )

  read_loop-Reads :
      (fuel k left retries : ℕ) (ps : List PipeBuffer)
      → turns left retries < fuel
      → IsSound i ps
      → Reads others i k left retries ps (read_loop fuel others i k left retries ps)
  unfolding read_loop turns
  read_loop-Reads zero k left retries ps e h = absurd (omega (arith, e))
  read_loop-Reads (suc fuel) k zero retries ps e h =
      (ps, [], [], refl, full, h, omega arith, sym (append-nil (contents (pipe_at ps i))))
  read_loop-Reads (suc fuel) k (suc left) retries ps e h =
      let p : PipeBuffer = pipe_at ps i in
      let q : PipeBuffer = (take_byte p).1 in
      let inside : IsSound i (set ps i q) = set-IsSound ps i q h.0 (take_byte-IsPipe p h.1) in
      let more = read_loop-Reads fuel k left 0 (set ps i q) (omega (arith, e)) inside in
      (elim (step (has_bytes p) p.write_open retries)
          as (λ s.
            IsStep (has_bytes p) p.write_open retries s
            → Reads others i k (suc left) retries ps (
                read_turn ps i (read_loop fuel others i k left 0 (set ps i q))
                  (read_loop fuel others i (suc k) (suc left) (suc retries) (others k ps)) s)) [
                    | transfer ↦ λ t. Reads-taken k left retries ps _ h t more
                    | stop ↦ λ t.
                        let none_left = contents_empty p h.1 t.0 in
                        (
                          ps,
                          [],
                          [],
                          refl,
                          ended none_left t.1,
                          h,
                          omega arith,
                          sym (append-nil (contents p)),
                        )
                    | wait ↦ λ t.
                        let none_left = contents_empty p h.1 t.0 in
                        let (last, out, found, g, run, s, l, f) =
                          read_loop-Reads fuel (suc k) (suc left) (suc retries) (others k ps)
                            (omega (arith, e, t.1)) (sound k ps h) in
                        (
                          last,
                          out,
                          contents (pipe_at (others k ps) i) ++ found,
                          g,
                          waited none_left run,
                          s,
                          l,
                          f
                              ∙ ap (λ c. c ++ (contents (pipe_at (others k ps) i) ++ found))
                                  (sym none_left),
                        )
                  ])
        (step-IsStep (has_bytes p) p.write_open retries)

-- Where pipe `i` is in the table and sound, and the other tasks leave it so while a reader waits:
-- the read ends, and goes as a read from a queue does. Each byte that it returns, at most as many
-- as asked for, was the first that waited and is the only one taken off; it waits only while the
-- pipe is empty; and it returns less than asked for only from an empty pipe whose other end is
-- closed or that stayed empty 201 times in a row. What it returns and what waits then are what
-- waited at first and what was found after each wait; the pipe is sound again.
pub pipe_read_lem :
    (others : ℕ → List PipeBuffer → List PipeBuffer) (fd size i : ℕ) (ps : List PipeBuffer)
    → AreSound i others
    → pipe_from_fd ps fd true ≡ some i
    → IsSound i ps
    → (last : List PipeBuffer) × (out found : List ℕ) × (pipe_read others fd size ps
        ≡ some (last, some out))
      × ReadRun others i 0 size 0 ps out found last
      × IsSound i last
      × (length out ≤ size)
      × (out ++ contents (pipe_at last i) ≡ contents (pipe_at ps i) ++ found)
unfolding pipe_read turns
pipe_read_lem others fd size i ps a e h =
    let (last, out, found, g, run, s, l, f) =
      read_loop-Reads others i a (pipe_fuel size) 0 size 0 ps (omega arith) h in
    (last, out, found, rw (pipe_read, e, g) refl, run, s, l, f)
