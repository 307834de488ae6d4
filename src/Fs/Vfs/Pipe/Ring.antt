-- ===== src/Fs/Vfs/Pipe/Ring.antt =====
-- The bytes that wait in the ring of a pipe (kernel/src/fs/vfs.rs), as a list.
use elitra_os.Base.{
  ℕ, zero, suc, ◌+◌, ◌-◌, ◌%◌, ◌≤◌, ◌<◌, ◌≡◌, ◌≢◌, ◌∙◌, refl, ap, true, false, List, [], ◌∷◌, ◌++◌,
  length, get_or, set, arith, length-set, get_or-set_self, get_or-set_ne,
}
use elitra_os.Fs.Vfs.Pipe.{PipeBuffer, next_index, has_bytes, has_room, take_byte, put_byte}

-- The ring is whole, and both indices are inside.
pub record IsPipe (p : PipeBuffer) : Type 0 where
  pub whole : length p.buf ≡ 4096
  pub head_in : p.head < 4096
  pub tail_in : p.tail < 4096

-- how far it is round the ring from `t` to `h`
abbrev pub distance : ℕ → ℕ → ℕ
distance h t = (h + 4096 - t) % 4096

unfoldable pub window : List ℕ → ℕ → ℕ → List ℕ
window buf t zero = []
window buf t (suc n) = get_or buf t 0 ∷ window buf (next_index t) n

unfoldable pub contents : PipeBuffer → List ℕ
contents p = window p.buf p.tail (distance p.head p.tail)

length-window : (buf : List ℕ) (t n : ℕ) → length (window buf t n) ≡ n
unfolding window
length-window buf t zero = refl
length-window buf t (suc n) = ap suc (length-window buf (next_index t) n)

-- A write outside the window is not seen in it.
window-set :
    (buf : List ℕ) (h v t n : ℕ)
    → h < 4096
    → t < 4096
    → n ≤ distance h t
    → window (set buf h v) t n ≡ window buf t n
unfolding window
window-set buf h v t zero hh ht hn = refl
window-set buf h v t (suc n) hh ht hn =
    let e : get_or (set buf h v) t 0 ≡ get_or buf t 0 =
      get_or-set_ne buf h t v 0 (λ g. omega (arith, g, hn)) in
    rw (e, window-set buf h v (next_index t) n hh (omega arith) (omega arith)) refl

window-snoc :
    (buf : List ℕ) (t n : ℕ)
    → t < 4096
    → window buf t (suc n) ≡ window buf t n ++ get_or buf ((t + n) % 4096) 0 ∷ []
unfolding window
window-snoc buf t zero h = let e : (t + 0) % 4096 ≡ t = omega arith in rw e refl
window-snoc buf t (suc n) h =
    let e : (next_index t + n) % 4096 ≡ (t + suc n) % 4096 = omega arith in
    ap (λ w. get_or buf t 0 ∷ w) (window-snoc buf (next_index t) n (omega arith) ∙ rw e refl)

module _ (p : PipeBuffer) (h : IsPipe p) where
  pub put_byte-IsPipe : (b : ℕ) → IsPipe (put_byte b p)
  unfolding put_byte
  put_byte-IsPipe b =
      let ht = h.tail_in in
      record { whole = length-set p.buf p.head b ∙ h.whole; head_in = omega arith; tail_in = ht }

  pub take_byte-IsPipe : IsPipe (take_byte p).1
  unfolding take_byte
  take_byte-IsPipe =
      let hh = h.head_in in record { whole = h.whole; head_in = hh; tail_in = omega arith }

  -- A byte that is put where there is room comes last.
  pub contents-put_byte :
      (b : ℕ) → has_room p ≡ true → contents (put_byte b p) ≡ contents p ++ b ∷ []
  unfolding contents put_byte has_room
  contents-put_byte b room =
      let hh : p.head < 4096 = h.head_in in
      let ht : p.tail < 4096 = h.tail_in in
      let n : ℕ = distance p.head p.tail in
      let ne : next_index p.head ≢ p.tail = λ g. ground (arith, room, g) in
      let e : distance (next_index p.head) p.tail ≡ suc n = omega (arith, ne) in
      let at : (p.tail + n) % 4096 ≡ p.head = omega arith in
      rw
        (
          e,
          window-snoc (set p.buf p.head b) p.tail n ht,
          at,
          get_or-set_self p.buf p.head b 0 (omega (arith, h.whole)),
          window-set p.buf p.head b p.tail n hh ht (omega arith),
        )
        refl

  -- Where a byte waits, the first one is taken.
  pub contents-take_byte :
      has_bytes p ≡ true → contents p ≡ (take_byte p).0 ∷ contents (take_byte p).1
  unfolding contents take_byte has_bytes window
  contents-take_byte some_byte =
      let hh : p.head < 4096 = h.head_in in
      let ht : p.tail < 4096 = h.tail_in in
      let ne : p.head ≢ p.tail = λ g. ground (arith, some_byte, g) in
      let e : distance p.head p.tail ≡ suc (distance p.head (next_index p.tail)) =
        omega (arith, ne) in
      rw e refl

  pub length-contents : length (contents p) ≡ distance p.head p.tail
  unfolding contents
  length-contents = length-window p.buf p.tail (distance p.head p.tail)

  -- A ring from which nothing can be taken is empty, and one with no room has 4095 bytes.
  pub contents_empty : has_bytes p ≡ false → contents p ≡ []
  unfolding contents has_bytes window
  contents_empty e =
      let hh : p.head < 4096 = h.head_in in
      let same : p.head ≡ p.tail = ground (arith, e) in
      let none_left : distance p.head p.tail ≡ 0 = omega (arith, same, hh) in rw none_left refl

  pub contents_full : has_room p ≡ false → length (contents p) ≡ 4095
  unfolding has_room
  contents_full e =
      let hh : p.head < 4096 = h.head_in in
      let ht : p.tail < 4096 = h.tail_in in
      let same : next_index p.head ≡ p.tail = ground (arith, e) in
      length-contents ∙ omega (arith, same)

  pub contents_roomy : has_room p ≡ true → length (contents p) < 4095
  unfolding has_room
  contents_roomy e =
      let hh : p.head < 4096 = h.head_in in
      let ht : p.tail < 4096 = h.tail_in in
      let ne : next_index p.head ≢ p.tail = λ g. ground (arith, e, g) in
      omega (arith, ne, length-contents)
