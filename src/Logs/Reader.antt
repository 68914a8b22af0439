-- ===== src/Logs/Reader.antt =====
-- What a reader of a ring buffer sees.
use beam_init.Base.{
  ℕ, zero, suc, subst, ◌+◌, ◌-◌, ◌≤◌, ◌<◌, ◌≡◌, ap, ◌∙◌, inl, inr, List, [], ◌∷◌, arith, some,
  length, length-drop, drop, drop-cons, drop_all, get_elem?, get_elem?-drop, get_elem?-lt, ltb,
  Bool-cases, if◌then◌else◌, ltb→lt,
}
use beam_init.Base.Text.{Text}
use beam_init.Logs.{RingBuffer, new, get, first_idx, line, lost, empty, drain, lost_text}
use beam_init.Logs.Retention.{
  Keeps, push_all, push_all-Keeps, new-Keeps, capacity-push_all, capacity-new,
}

pub first_idx-eq :
    (history : List Text) (b : RingBuffer)
    → Keeps history b
    → first_idx b ≡ length history - b.capacity
unfolding first_idx
first_idx-eq history b k =
    omega (arith, k.counted, ap length k.suffix, length-drop (length history - b.capacity) history)

-- At a line that the buffer still has, `get` gives that line and moves the reader by one.
pub get-line :
    (history : List Text) (b : RingBuffer) (reader : ℕ) (text : Text)
    → Keeps history b
    → first_idx b ≤ reader
    → reader < length history
    → get_elem? history reader ≡ some text
    → get b reader ≡ some (line text, reader + 1)
unfolding get
get-line history b reader text k h l e = ground (arith, k.counted, at_line)
  where
    at_line : get_elem? b.entries (reader - first_idx b) ≡ some text
    at_line =
        ap (λ (xs : List Text). get_elem? xs (reader - first_idx b)) k.suffix
        ∙ get_elem?-drop (length history - b.capacity) (reader - first_idx b) history
        ∙ ap (get_elem? history) (omega (arith, first_idx-eq history b k))
        ∙ e

pub get-empty :
    (history : List Text) (b : RingBuffer)
    → Keeps history b
    → get b (length history) ≡ some (empty, length history)
unfolding get
get-empty history b k = ground (arith, k.counted)

pub get-lost :
    (history : List Text) (b : RingBuffer) (reader : ℕ)
    → Keeps history b
    → reader < first_idx b
    → get b reader ≡ some (lost, first_idx b)
unfolding get
get-lost history b reader k h = ground (arith, k.counted)

-- `rest` lines are left for the reader.
drain-lines :
    (rest fuel : ℕ) (history : List Text) (b : RingBuffer) (reader : ℕ)
    → Keeps history b
    → first_idx b ≤ reader
    → rest + reader ≡ length history
    → rest < fuel
    → drain fuel b reader ≡ some (drop reader history, length history)
unfolding drain
drain-lines rest zero history b reader k h e f = absurd (omega arith)
drain-lines zero (suc fuel) history b reader k h e f =
    let at : reader ≡ length history = omega arith in
    rw at (ground (arith, get-empty history b k, drop_all (length history) history (omega arith)))
drain-lines (suc rest) (suc fuel) history b reader k h e f =
    let (text, found) = get_elem?-lt history reader (omega arith) in
    let step = get-line history b reader text k h (omega arith) found in
    let more =
      drain-lines rest fuel history b (reader + 1) k (omega arith) (omega arith) (omega arith) in
    let here : drop reader history ≡ text ∷ drop (reader + 1) history =
      drop-cons reader history found
      ∙ ap (λ (i : ℕ). text ∷ drop i history) {x = suc reader} (omega arith) in
    ground (arith, step, more, here)

-- The reader's position and what it is shown there: everything after it that the buffer has kept,
-- behind the mark for lost lines if some were evicted.
abbrev pub shown : (capacity : ℕ) (history : List Text) (reader : ℕ) → List Text
shown capacity history reader =
    if ltb reader (length history - capacity)
    then lost_text ∷ drop (length history - capacity) history
    else drop reader history

drain-Keeps :
    (history : List Text) (b : RingBuffer) (reader fuel : ℕ)
    → Keeps history b
    → reader ≤ length history
    → length history + 2 ≤ fuel
    → drain fuel b reader ≡ some (shown b.capacity history reader, length history)
unfolding drain
drain-Keeps history b reader zero k r f = absurd (omega arith)
drain-Keeps history b reader (suc fuel) k r f =
    elim (Bool-cases (ltb reader (length history - b.capacity))) [
      | inl e ↦
          let first = first_idx-eq history b k in
          let behind = ltb→lt _ _ e in
          let rest =
            drain-lines (length history - first_idx b) fuel history b (first_idx b) k (omega arith)
              (omega arith) (omega arith) in
          rw e (ground (arith, get-lost history b reader k (omega arith), rest, first))
      | inr e ↦
          let first = first_idx-eq history b k in
          rw e (
            drain-lines (length history - reader) (suc fuel) history b reader k (ground arith)
              (omega arith) (omega arith))
    ]

-- After any lines pushed into a new buffer, a reader that stands at or before the end is given, in
-- order and once each, the lines from its position on that are among the last `capacity` lines,
-- behind one mark for lost lines exactly if some line at or after its position was evicted; it
-- ends up behind the last line. It needs at most two calls of `get` more than there are lines, and
-- no call panics.
pub drain-push_all :
    (capacity : ℕ) (history : List Text) (reader fuel : ℕ)
    → reader ≤ length history
    → length history + 2 ≤ fuel
    → drain fuel (push_all history (new capacity)) reader
      ≡ some (shown capacity history reader, length history)
drain-push_all capacity history reader fuel r f =
    subst
      (λ c.
        drain fuel (push_all history (new capacity)) reader
        ≡ some (shown c history reader, length history))
      (capacity-push_all history (new capacity) ∙ capacity-new capacity)
      (drain-Keeps history (push_all history (new capacity)) reader fuel
        (push_all-Keeps history [] (new capacity) (new-Keeps capacity)) r f)
