-- ===== src/Logs/Writer.antt =====
-- The task of `Logs::new_writer` in beam-init/src/logs.rs: what it writes to the ring buffer. The
-- segments of the pipe between newlines come from tokio, and reading it succeeds; `encode` gives the
-- UTF-8 bytes of a text.
use beam_init.Base.{
  length-append, ℕ, suc, ◌+◌, ◌≤◌, ◌≡◌, refl, ap, ◌∙◌, Option, none, some, List, [], ◌∷◌, ◌++◌,
  length, arith,
}
use beam_init.Base.Text.{Text, codes}
use beam_init.Logs.{RingBuffer, push, new, drain}
use beam_init.Logs.Retention.{push_all}
use beam_init.Logs.Reader.{shown, drain-push_all}
use beam_init.Logs.Sanitize.{sanitize, IsSanitized, sanitize-IsSanitized}

abbrev pub closed_text : Text
closed_text = codes "[log stream closed]"

module _ (decode : List ℕ → List ℕ) (encode : List ℕ → Text) where
  push_line : Option (List ℕ) → RingBuffer → Option RingBuffer
  push_line none b = none
  push_line (some line) b = some (push (encode line) b)

  abbrev and_then : Option RingBuffer → (RingBuffer → Option RingBuffer) → Option RingBuffer
  and_then none f = none
  and_then (some b) f = f b

  -- The task once the pipe is closed after these segments; `none` is a panic of `sanitize`.
  unfoldable pub write_log : List (List ℕ) → RingBuffer → Option RingBuffer
  unfolding push_line
  write_log [] b = some (push closed_text b)
  write_log (segment ∷ segments) b =
      and_then (push_line (sanitize decode segment) b) (write_log segments)

  -- Lines that are the segments, sanitized.
  pub data AreSanitized : List (List ℕ) → List Text → Type 0 where
    nothing : AreSanitized [] []
    line :
        {segments : List (List ℕ)} {lines : List Text} (segment out : List ℕ)
        → sanitize decode segment ≡ some out
        → IsSanitized (decode segment) out
        → AreSanitized segments lines
        → AreSanitized (segment ∷ segments) (encode out ∷ lines)

  length-AreSanitized :
      (segments : List (List ℕ)) (lines : List Text)
      → AreSanitized segments lines
      → length lines ≡ length segments
  length-AreSanitized segments lines nothing = refl
  length-AreSanitized segments lines (line segment out e i a) = ap suc (length-AreSanitized _ _ a)

  sanitized_lines : (segments : List (List ℕ)) → (lines : List Text) × AreSanitized segments lines
  sanitized_lines [] = ([], nothing)
  sanitized_lines (segment ∷ segments) =
      let (out, e, i) = sanitize-IsSanitized decode segment in
      let (lines, a) = sanitized_lines segments in (encode out ∷ lines, line segment out e i a)

  write_log-push_all :
      (segments : List (List ℕ)) (lines : List Text) (b : RingBuffer)
      → AreSanitized segments lines
      → write_log segments b ≡ some (push_all (lines ++ closed_text ∷ []) b)
  unfolding write_log push_line push_all
  write_log-push_all segments lines b nothing = refl
  write_log-push_all segments lines b (line segment out e i a) =
      rw e (write_log-push_all _ _ (push (encode out) b) a)

  -- Once a service that wrote some segments between newlines has closed its output, its log is read
  -- back, from any position up to the end, as these segments, each sanitized and in order, and the
  -- mark that the stream is closed; lines that the buffer could not keep are replaced by one mark
  -- for lost lines.
  pub drain-write_log :
      (capacity : ℕ) (segments : List (List ℕ)) (reader fuel : ℕ)
      → reader ≤ length segments + 1
      → length segments + 3 ≤ fuel
      → (b : RingBuffer) × (lines : List Text) × AreSanitized segments lines
        × (write_log segments (new capacity) ≡ some b)
        × (drain fuel b reader
            ≡ some (shown capacity (lines ++ closed_text ∷ []) reader, length segments + 1))
  drain-write_log capacity segments reader fuel r f =
      let (lines, a) = sanitized_lines segments in
      let history : List Text = lines ++ closed_text ∷ [] in
      let n : length history ≡ length segments + 1 =
        length-append lines (closed_text ∷ [])
        ∙ ap (λ (k : ℕ). k + 1) (length-AreSanitized segments lines a) in
      (
        push_all history (new capacity),
        lines,
        a,
        write_log-push_all segments lines (new capacity) a,
        drain-push_all capacity history reader fuel (omega (arith, n)) (omega (arith, n))
            ∙ ap (λ (k : ℕ). some (shown capacity history reader, k)) n,
      )
