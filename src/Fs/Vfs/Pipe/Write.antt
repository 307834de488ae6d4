-- ===== src/Fs/Vfs/Pipe/Write.antt =====
-- Writing to a pipe (kernel/src/fs/vfs.rs) while other tasks run.
use mathlib.Core.List.{append_assoc, append-nil}
use elitra_os.Base.{
  ℕ, zero, suc, ◌≤◌, ◌<◌, ◌≡◌, ◌∙◌, refl, sym, ap, true, false, Option, some, List, [], ◌∷◌, ◌++◌,
  length, take, set, arith, ◌⊎◌,
}
use elitra_os.Fs.Vfs.Pipe.{
  PipeBuffer, has_room, put_byte, transfer, stop, wait, step, one_more, write_turn, write_loop,
  pipe_fuel, pipe_at, pipe_from_fd, pipe_write,
}
use elitra_os.Fs.Vfs.Pipe.Ring.{
  contents, put_byte-IsPipe, contents-put_byte, contents_full, contents_roomy,
}
use elitra_os.Fs.Vfs.Pipe.Read.{IsStep, step-IsStep, turns, IsSound, pipe_at-set, set-IsSound}

-- The other tasks do nothing to the bytes in pipe `i` but take them from the front.
abbrev pub Takes : ℕ → (ℕ → List PipeBuffer → List PipeBuffer) → Type 0
Takes i others =
    (k : ℕ) (ps : List PipeBuffer)
    → IsSound i ps
    → IsSound i (others k ps)
      × ((w : List ℕ) × (contents (pipe_at ps i) ≡ w ++ contents (pipe_at (others k ps) i)))

-- A write to a queue of at most 4095 bytes, as it should go: from the table `ps`, with `bytes` to
-- put, `k` yields and `retries` waits in a row so far, to the table in the end, with the count of the
-- bytes that were put and the bytes that others took in the waits. A byte is put where there is
-- room, it comes last, and only the buffer and the head change; only a full pipe is waited for; and
-- the write ends when all its bytes are put, or at a full pipe whose other end is closed or that
-- stayed full 201 times in a row.
pub data WriteRun (others : ℕ → List PipeBuffer → List PipeBuffer) (i : ℕ)
    : ℕ → List ℕ → ℕ → List PipeBuffer → ℕ → List ℕ → List PipeBuffer → Type 0 where
  all_put : {k retries : ℕ} {ps : List PipeBuffer} → WriteRun others i k [] retries ps 0 [] ps
  given_up :
      {k retries b : ℕ} {bytes : List ℕ} {ps : List PipeBuffer}
      → length (contents (pipe_at ps i)) ≡ 4095
      → (pipe_at ps i).read_open ≡ false ⊎ 200 < retries
      → WriteRun others i k (b ∷ bytes) retries ps 0 [] ps
  put :
      {k retries b n : ℕ} {bytes away : List ℕ} {ps last : List PipeBuffer} (buf : List ℕ)
      (head : ℕ)
      → length (contents (pipe_at ps i)) < 4095
      → contents (record (pipe_at ps i) { buf = buf; head = head })
        ≡ contents (pipe_at ps i) ++ b ∷ []
      → WriteRun others i k bytes 0
          (set ps i (record (pipe_at ps i) { buf = buf; head = head }))
          n
          away
          last
      → WriteRun others i k (b ∷ bytes) retries ps (suc n) away last
  delayed :
      {k retries b n : ℕ} {bytes away : List ℕ} {ps last : List PipeBuffer} (w : List ℕ)
      → length (contents (pipe_at ps i)) ≡ 4095
      → contents (pipe_at ps i) ≡ w ++ contents (pipe_at (others k ps) i)
      → WriteRun others i (suc k) (b ∷ bytes) (suc retries) (others k ps) n away last
      → WriteRun others i k (b ∷ bytes) retries ps n (w ++ away) last

-- What a write has to be: a run of the queue, at the end of which the pipe is sound, and what waited
-- at first and what was put are what was taken and what waits then.
abbrev Writes :
    (ℕ → List PipeBuffer → List PipeBuffer)
    → ℕ
    → ℕ
    → List ℕ
    → ℕ
    → List PipeBuffer
    → Option (List PipeBuffer × ℕ)
    → Type 0
Writes others i k bytes retries ps o =
    (last : List PipeBuffer) × (n : ℕ) × (away : List ℕ) × (o ≡ some (last, n))
    × WriteRun others i k bytes retries ps n away last
    × IsSound i last
    × (n ≤ length bytes)
    × (contents (pipe_at ps i) ++ take n bytes ≡ away ++ contents (pipe_at last i))

module _ (others : ℕ → List PipeBuffer → List PipeBuffer) (i : ℕ) (takes : Takes i others) where
  Writes-put :
      (k retries b : ℕ) (bytes : List ℕ) (ps : List PipeBuffer) (o : Option (List PipeBuffer × ℕ))
      → IsSound i ps
      → has_room (pipe_at ps i) ≡ true
      → Writes others i k bytes 0 (set ps i (put_byte b (pipe_at ps i))) o
      → Writes others i k (b ∷ bytes) retries ps (one_more o)
  unfolding put_byte
  Writes-put k retries b bytes ps o (inside, h) room (last, n, away, g, run, s, l, f) =
      let p : PipeBuffer = pipe_at ps i in
      let q : PipeBuffer = put_byte b p in
      let e : contents q ≡ contents p ++ b ∷ [] = contents-put_byte p h b room in
      let back : contents (pipe_at (set ps i q) i) ≡ contents p ++ b ∷ [] =
        ap contents (pipe_at-set ps i q inside) ∙ e in
      (
        last,
        suc n,
        away,
        ap one_more g,
        put q.buf q.head (contents_roomy p h room) e run,
        s,
        omega (arith, l),
        sym (append_assoc (contents p) (b ∷ []) (take n bytes))
            ∙ (ap (λ c. c ++ take n bytes) (sym back) ∙ f),
      )

  write_loop-Writes :
      (fuel k : ℕ) (bytes : List ℕ) (retries : ℕ) (ps : List PipeBuffer)
      → turns (length bytes) retries < fuel
      → IsSound i ps
      → Writes others i k bytes retries ps (write_loop fuel others i k bytes retries ps)
  unfolding write_loop turns
  write_loop-Writes zero k bytes retries ps e h = absurd (omega (arith, e))
  write_loop-Writes (suc fuel) k [] retries ps e h =
      (ps, 0, [], refl, all_put, h, omega arith, append-nil (contents (pipe_at ps i)))
  write_loop-Writes (suc fuel) k (b ∷ bytes) retries ps e h =
      let p : PipeBuffer = pipe_at ps i in
      let q : PipeBuffer = put_byte b p in
      let inside : IsSound i (set ps i q) = set-IsSound ps i q h.0 (put_byte-IsPipe p h.1 b) in
      let more = write_loop-Writes fuel k bytes 0 (set ps i q) (omega (arith, e)) inside in
      (elim (step (has_room p) p.read_open retries)
          as (λ s.
            IsStep (has_room p) p.read_open retries s
            → Writes others i k (b ∷ bytes) retries ps (
                write_turn ps (write_loop fuel others i k bytes 0 (set ps i q))
                  (write_loop fuel others i (suc k) (b ∷ bytes) (suc retries) (others k ps)) s)) [
                    | transfer ↦ λ t. Writes-put k retries b bytes ps _ h t more
                    | stop ↦ λ t. (
                      ps,
                      0,
                      [],
                      refl,
                      given_up (contents_full p h.1 t.0) t.1,
                      h,
                      omega arith,
                      append-nil (contents p),
                    )
                    | wait ↦ λ t.
                        let (sound, came_off) = takes k ps h in
                        let (w, came) = came_off in
                        let (last, n, away, g, run, s, l, f) =
                          write_loop-Writes fuel (suc k) (b ∷ bytes) (suc retries) (others k ps)
                            (omega (arith, e, t.1)) sound in
                        (
                          last,
                          n,
                          w ++ away,
                          g,
                          delayed w (contents_full p h.1 t.0) came run,
                          s,
                          l,
                          ap (λ c. c ++ take n (b ∷ bytes)) came
                              ∙ (append_assoc w (contents (pipe_at (others k ps) i))
                                    (take n (b ∷ bytes))
                                  ∙ (ap (λ c. w ++ c) f
                                      ∙ sym (append_assoc w away (contents (pipe_at last i))))),
                        )
                  ])
        (step-IsStep (has_room p) p.read_open retries)

-- Where pipe `i` is in the table and sound, and the other tasks do nothing to it but take bytes
-- from its front while a writer waits: the write ends, and goes as a write to a queue of at most
-- 4095 bytes does. Each byte is put where there is room and behind those that wait; it waits only
-- while the pipe is full; and it writes less than asked for only to a full pipe whose other end is
-- closed or that stayed full 201 times in a row. What waited at first and what it says it wrote are
-- what the others took in the waits and what waits then; the pipe is sound again.
pub pipe_write_lem :
    (others : ℕ → List PipeBuffer → List PipeBuffer) (fd i : ℕ) (bytes : List ℕ)
    (ps : List PipeBuffer)
    → Takes i others
    → pipe_from_fd ps fd false ≡ some i
    → IsSound i ps
    → (last : List PipeBuffer) × (n : ℕ) × (away : List ℕ) × (pipe_write others fd bytes ps
        ≡ some (last, some n))
      × WriteRun others i 0 bytes 0 ps n away last
      × IsSound i last
      × (n ≤ length bytes)
      × (contents (pipe_at ps i) ++ take n bytes ≡ away ++ contents (pipe_at last i))
unfolding pipe_write turns
pipe_write_lem others fd i bytes ps a e h =
    let (last, n, away, g, run, s, l, f) =
      write_loop-Writes others i a (pipe_fuel (length bytes)) 0 bytes 0 ps (omega arith) h in
    (last, n, away, rw (pipe_write, e, g) refl, run, s, l, f)
