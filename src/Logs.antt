-- ===== src/Logs.antt =====
-- beam-init/src/logs.rs: the ring buffer of a service's log lines and its readers.
-- `RingBuffer` is the type of that name. A reader is the `RingBufferReader` position of one
-- follower. The lock, the wake-up of waiting readers and the pipe that the lines come from belong to
-- tokio; what they do to the buffer is a sequence of the calls below.
pub mod Sanitize
pub mod Retention
pub mod Reader
pub mod Writer
pub mod Examples
use beam_init.Base.{
  ℕ, zero, suc, ◌+◌, ◌-◌, Bool, true, false, Option, none, some, List, [], ◌∷◌, ◌++◌, length, ltb,
  leb, get_elem?, if◌then◌else◌,
}
use beam_init.Base.Text.{Text, codes}

-- `capacity` is a `NonZeroUsize`, `next_idx` a `u64`.
pub record RingBuffer : Type 0 where
  pub entries : List Text
  pub next_idx : ℕ
  pub capacity : ℕ

unfoldable pub new : ℕ → RingBuffer
new capacity = record { entries = []; next_idx = 0; capacity = capacity }

-- `while self.entries.len() > capacity { self.entries.pop_front(); }`, on fuel: each round
-- removes an entry, so as many rounds as there are entries are enough.
abbrev pop_front : List Text → List Text
pop_front [] = []
pop_front (x ∷ xs) = xs

evict : ℕ → ℕ → List Text → List Text
evict zero capacity entries = entries
evict (suc fuel) capacity entries =
    let rest = evict fuel capacity (pop_front entries) in
    if ltb capacity (length entries) then rest else entries

-- The sum is a `u64`.
unfoldable pub push : Text → RingBuffer → RingBuffer
unfolding evict
push line b =
    let entries = b.entries ++ line ∷ [] in
    record b { entries = evict (length entries) b.capacity entries; next_idx = b.next_idx + 1 }

pub data RingBufferEntry : Type 0 where
  line : Text → RingBufferEntry
  lost empty : RingBufferEntry

-- `self.next_idx - self.entries.len() as u64`.
unfoldable pub first_idx : RingBuffer → ℕ
first_idx b = b.next_idx - length b.entries

-- The indexing `self.entries[entry]` panics out of range, which is `none` here.
line_at : List Text → ℕ → ℕ → Option (RingBufferEntry × ℕ)
line_at entries entry reader = elim (get_elem? entries entry) [
  | none ↦ none
  | some text ↦ some (line text, reader + 1)
]

-- `RingBuffer::get`: the entry at the reader, and the reader's new position.
unfoldable pub get : RingBuffer → ℕ → Option (RingBufferEntry × ℕ)
unfolding first_idx line_at
get b reader =
    if leb b.next_idx reader
    then some (empty, reader)
    else if ltb reader (first_idx b)
    then some (lost, first_idx b)
    else line_at b.entries (reader - first_idx b) reader

-- What `Logs::new_reader` yields from one wake-up to the next: it calls `get` until that says
-- `empty`. With no fuel left the result is `none`, as for a panic.
abbrev lost_text : Text
lost_text = codes "[log entries lost]"

abbrev prepend : Text → Option (List Text × ℕ) → Option (List Text × ℕ)
prepend text none = none
prepend text (some (texts, reader)) = some (text ∷ texts, reader)

unfoldable pub drain : ℕ → RingBuffer → ℕ → Option (List Text × ℕ)
drain zero b reader = none
drain (suc fuel) b reader = elim (get b reader) [
  | none ↦ none
  | some (entry, reader') ↦ elim entry [
    | line text ↦ prepend text (drain fuel b reader')
    | lost ↦ prepend lost_text (drain fuel b reader')
    | empty ↦ some ([], reader')
  ]
]

-- `Logs::copy_logs`.
unfoldable pub copy_logs : RingBuffer → List Text
copy_logs b = b.entries
