-- ===== src/Broker/Window.antt =====
-- Runs of events given to a bounded buffer of chimera/core/broker.py.
use macbastion.Prelude.{
  ℕ, suc, ◌+◌, ◌-◌, ◌≤◌, ◌<◌, ◌≡◌, refl, sym, ap, ◌∙◌, true, false, inl, inr, List, [], ◌∷◌, ◌++◌,
  arith, length, drop, length-append, Bool-cases,
}
use mathlib.Core.List.{append_assoc, append-nil}
use macbastion.Broker.{Event, Subscription, drop_oldest, is_full, try_enqueue}
use macbastion.Broker.Queue.{IsBounded, try_enqueue-IsBounded, length-drop_oldest_full}

-- events given to `_try_enqueue` one after another
pub enqueue_all : Subscription → List Event → Subscription
enqueue_all s [] = s
enqueue_all s (e ∷ es) = enqueue_all (try_enqueue e s) es

-- how many of `n` new events do not fit with what is there
abbrev pub excess : Subscription → ℕ → ℕ
excess s n = length s.queue + n - s.max_size

drop-zero : {A : Type 0} (n : ℕ) (xs : List A) → n ≡ 0 → drop n xs ≡ xs
drop-zero n xs e = ap (λ k. drop k xs) e

drop-suc :
    (q rest : List Event) (e : Event) (k : ℕ)
    → 0 < length q
    → drop k ((drop_oldest q ++ e ∷ []) ++ rest) ≡ drop (suc k) (q ++ e ∷ rest)
drop-suc [] rest e k h = absurd (omega arith)
drop-suc (x ∷ q) rest e k h = ap (drop k) (append_assoc q (e ∷ []) rest)

module _ (s : Subscription) (e : Event) (opened : s.closed ≡ false) where
  try_enqueue_full :
      is_full s ≡ true
      → let t = try_enqueue e s in
        (t.queue ≡ drop_oldest s.queue ++ e ∷ [])
        × (t.max_size ≡ s.max_size)
        × (t.overflow_count ≡ s.overflow_count + 1)
        × (t.closed ≡ false)
  unfolding try_enqueue
  try_enqueue_full full = ground arith

  try_enqueue_room :
      is_full s ≡ false
      → let t = try_enqueue e s in
        (t.queue ≡ s.queue ++ e ∷ [])
        × (t.max_size ≡ s.max_size)
        × (t.overflow_count ≡ s.overflow_count)
        × (t.closed ≡ false)
  unfolding try_enqueue
  try_enqueue_room room = ground arith

drop-eq : (j k : ℕ) (xs ys : List Event) → j ≡ k → xs ≡ ys → drop j xs ≡ drop k ys
drop-eq j k xs ys p q = cc

-- What a run of events leaves in an open buffer of size above 0: the latest events that fit, in
-- order; and the overflow count has grown by the number of the others.
pub enqueue_all_window :
    (es : List Event) (s : Subscription)
    → s.closed ≡ false
    → 0 < s.max_size
    → IsBounded s
    → ((enqueue_all s es).queue ≡ drop (excess s (length es)) (s.queue ++ es))
      × ((enqueue_all s es).overflow_count ≡ s.overflow_count + excess s (length es))
unfolding enqueue_all
enqueue_all_window [] s opened pos_size h =
    let fits = h.fits pos_size in
    (sym (drop-zero (excess s 0) (s.queue ++ []) (omega arith) ∙ append-nil s.queue), omega arith)
enqueue_all_window (e ∷ es) s opened pos_size h = elim (Bool-cases (is_full s)) [
  | inl full ↦
      let at_cap : s.max_size ≡ length s.queue = ground (arith, h.fits pos_size) in
      let (q, m, c, o) = try_enqueue_full s e opened full in
      let kept = length-drop_oldest_full s.queue e (omega arith) in
      let len = ap length q ∙ kept in
      let (ih, counted) =
        enqueue_all_window es (try_enqueue e s) o (omega arith) (try_enqueue-IsBounded e s h) in
      (
        ih
            ∙ drop-eq _ (length es) _ _ (omega arith) (ap (λ l. l ++ es) q)
            ∙ drop-suc s.queue es e (length es) (omega arith)
            ∙ drop-eq (suc (length es)) (excess s (suc (length es))) _ _ (omega arith) refl,
        omega arith,
      )
  | inr room ↦
      let below : length s.queue + 1 ≤ s.max_size = ground arith in
      let (q, m, c, o) = try_enqueue_room s e opened room in
      let len = ap length q ∙ length-append s.queue (e ∷ []) in
      let (ih, counted) =
        enqueue_all_window es (try_enqueue e s) o (omega arith) (try_enqueue-IsBounded e s h) in
      (
        ih
            ∙ drop-eq _ (excess s (suc (length es))) _ _ (omega arith)
                (ap (λ l. l ++ es) q ∙ append_assoc s.queue (e ∷ []) es),
        omega arith,
      )
]
