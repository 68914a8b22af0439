-- ===== src/Logs/Retention.antt =====
-- What a ring buffer keeps of the lines pushed to it.
use beam_init.Base.{
  ℕ, zero, suc, subst, drop-nil, false, ltb→lt, ◌+◌, ◌-◌, ◌≤◌, ◌<◌, ◌≡◌, refl, sym, ap, ◌∙◌, inl,
  inr, List, [], ◌∷◌, ◌++◌, arith, length, length-append, length-drop, drop, drop-append, drop-drop,
  ltb, Bool-cases,
}
use mathlib.Core.List.{append_assoc, append-nil}
use beam_init.Base.Text.{Text}
use beam_init.Logs.{RingBuffer, new, push, evict}

-- Lines pushed one after another, the oldest first.
unfoldable pub push_all : List Text → RingBuffer → RingBuffer
push_all [] b = b
push_all (x ∷ xs) b = push_all xs (push x b)

-- `b` keeps the last lines of `history`, as many as its capacity allows, and counts them all.
pub record Keeps (history : List Text) (b : RingBuffer) : Type 0 where
  pub suffix : b.entries ≡ drop (length history - b.capacity) history
  pub counted : b.next_idx ≡ length history

evict-eq-drop :
    (fuel capacity : ℕ) (xs : List Text)
    → length xs ≤ fuel
    → evict fuel capacity xs ≡ drop (length xs - capacity) xs
unfolding evict
evict-eq-drop zero capacity [] h = sym (drop-nil _)
evict-eq-drop zero capacity (x ∷ xs) h = absurd (omega arith)
evict-eq-drop (suc fuel) capacity [] h = ground (arith, drop-nil {A = Text} (0 - capacity))
evict-eq-drop (suc fuel) capacity (x ∷ xs) h = elim (Bool-cases (ltb capacity (suc (length xs)))) [
  | inl e ↦ rw e (
      evict-eq-drop fuel capacity xs (omega arith)
      ∙ ap (λ (i : ℕ). drop i (x ∷ xs)) (one_more (length xs) capacity (ltb→lt _ _ e)))
  | inr e ↦ rw e (ap (λ (i : ℕ). drop i (x ∷ xs)) (none_over (suc (length xs)) capacity e))
]
  where
    one_more : (n c : ℕ) → c < suc n → suc (n - c) ≡ suc n - c
    one_more n c h = omega arith

    none_over : (n c : ℕ) → ltb c n ≡ false → 0 ≡ n - c
    none_over n c h = ground arith

pub push-Keeps :
    (x : Text) (history : List Text) (b : RingBuffer)
    → Keeps history b
    → Keeps (history ++ x ∷ []) (push x b)
unfolding push
push-Keeps x history b k = record {
  suffix =
      evict-eq-drop _ b.capacity (b.entries ++ x ∷ []) (omega arith)
      ∙ rw (k.suffix, ← drop-append over history (x ∷ []) (omega arith))
          (drop-drop (length (drop over grown) - b.capacity) over grown
            ∙ ap (λ (i : ℕ). drop i grown) count);
  counted = omega (arith, k.counted, length-append history (x ∷ []));
}
  where
    over : ℕ
    over = length history - b.capacity

    grown : List Text
    grown = history ++ x ∷ []

    count : length (drop over grown) - b.capacity + over ≡ length grown - b.capacity
    count = omega (arith, length-drop over grown, length-append history (x ∷ []))

pub push_all-Keeps :
    (xs history : List Text) (b : RingBuffer)
    → Keeps history b
    → Keeps (history ++ xs) (push_all xs b)
unfolding push_all
push_all-Keeps [] history b k = rw append-nil k
push_all-Keeps (x ∷ xs) history b k =
    subst (λ h. Keeps h (push_all xs (push x b))) (append_assoc history (x ∷ []) xs)
      (push_all-Keeps xs (history ++ x ∷ []) (push x b) (push-Keeps x history b k))

pub capacity-push_all : (xs : List Text) (b : RingBuffer) → (push_all xs b).capacity ≡ b.capacity
unfolding push_all push
capacity-push_all [] b = refl
capacity-push_all (x ∷ xs) b = capacity-push_all xs (push x b)

pub new-Keeps : (capacity : ℕ) → Keeps [] (new capacity)
unfolding new
new-Keeps capacity = record { suffix = sym (drop-nil _); counted = refl }

pub capacity-new : (capacity : ℕ) → (new capacity).capacity ≡ capacity
unfolding new
capacity-new capacity = refl
