-- ===== src/Mm/Cow/Race.antt =====
-- `krust_cow_refdec` by its atomic accesses (kernel/src/mm/cow.rs): a load and, if the value was
-- not 0, a `fetch_sub`, between which another processor may run.
use elitra_os.Mm.Cow.{Cow, absent, cow_refdec}
use elitra_os.Base.{
  ℕ, not, sym, ◌∙◌, ◌+◌, ◌-◌, ◌%◌, ◌<◌, ◌≡◌, Bool, true, false, if◌then◌else◌, ltb, arith, List, [],
  ◌∷◌,
}

-- One processor inside the call: before the load, after it with the value read, or done.
pub data Phase : Type 0 where
  ready : Phase
  loaded : ℕ → Phase
  done : ℕ → Phase

-- One access, of the count and the phase: `fetch_sub` wraps at 16 bits.
unfoldable pub advance : ℕ → Phase → ℕ × Phase
advance count ready = (count, loaded count)
advance count (loaded prev) = ((if ltb 0 prev then (count + 65535) % 65536 else count), done prev)
advance count (done prev) = (count, done prev)

-- Two processors take turns: `true` is the first.
unfoldable pub interleave : List Bool → ℕ × Phase × Phase → ℕ × Phase × Phase
interleave [] s = s
interleave (turn ∷ turns) (count, p, q) =
    let (c, p') = advance count p in
    let (d, q') = advance count q in interleave turns (if turn then (c, p', q) else (d, p, q'))

-- both loads come first, and the first processor does the second load or not, or one processor comes
-- after the other
abbrev pub crossed : Bool → Bool → List Bool
crossed a b = a ∷ not a ∷ b ∷ not b ∷ []

abbrev pub in_turn : Bool → List Bool
in_turn a = a ∷ a ∷ not a ∷ not a ∷ []

-- the count that two processors leave which run in this order from the start
abbrev pub left_by : List Bool → ℕ → ℕ
left_by turns count = (interleave turns (count, ready, ready)).0

-- A count above 1 loses 2 whichever way they meet.
cow_refdec-twice :
    (c : Cow) (frame : ℕ)
    → absent c frame ≡ false
    → (cow_refdec (cow_refdec c frame).0 frame).0.counts frame ≡ c.counts frame - 2
unfolding cow_refdec
cow_refdec-twice c frame there = ground (arith, there)

crossed-count :
    (a b : Bool) (count : ℕ)
    → 0 < count
    → count < 65536
    → left_by (crossed a b) count ≡ (if ltb 1 count then count - 2 else 65535)
unfolding interleave advance
crossed-count true true count pos word = ground arith
crossed-count true false count pos word = ground arith
crossed-count false true count pos word = ground arith
crossed-count false false count pos word = ground arith

in_turn-count : (a : Bool) (count : ℕ) → count < 65536 → left_by (in_turn a) count ≡ count - 2
unfolding interleave advance
in_turn-count true count word = ground arith
in_turn-count false count word = ground arith

-- Two processors each give back a reference to a frame that has a count, which is above 0. One
-- after the other, in either order, they leave what two calls of `cow_refdec` leave. If both loads
-- come before both subtractions, in any order of the loads and of the subtractions, a count of 1
-- becomes 65535, and any higher count becomes what two calls leave.
pub crossed-in_turn :
    (c : Cow) (frame : ℕ)
    → absent c frame ≡ false
    → 0 < c.counts frame
    → c.counts frame < 65536
    → let twice = (cow_refdec (cow_refdec c frame).0 frame).0.counts frame in
      ((a : Bool) → left_by (in_turn a) (c.counts frame) ≡ twice)
      × ((a b : Bool)
          → left_by (crossed a b) (c.counts frame)
            ≡ (if ltb 1 (c.counts frame) then twice else 65535))
crossed-in_turn c frame there pos word =
    let e = cow_refdec-twice c frame there in
    (
      λ a. in_turn-count a (c.counts frame) word ∙ sym e,
      λ a b. rw e (crossed-count a b (c.counts frame) pos word),
    )
