-- ===== src/Broker/Queue.antt =====
-- The bounded buffer of a subscription: its invariant, what a run of events leaves in it, and what
-- the overflow notice says.
use macbastion.Prelude.{
  ℕ, String, ◌+◌, ◌≤◌, ◌<◌, ◌≡◌, Option, none, some, List, [], ◌∷◌, ◌++◌, arith, length,
  length-append,
}
use macbastion.Prelude.Int.{pos}
use macbastion.Prelude.Json.{int, get_field}
use macbastion.Broker.{
  Event, Subscription, new_subscription, close, drop_oldest, try_enqueue, get_nowait,
}

-- The notice of a pending overflow reports one lost event.
abbrev pub ReportsOne : Option Event → Type 0
ReportsOne none = Unit
ReportsOne (some e) = get_field e.payload "dropped_count" ≡ some (int (pos 1))

pub record IsBounded (s : Subscription) : Type 0 where
  pub fits : 0 < s.max_size → length s.queue ≤ s.max_size
  pub quiet : s.overflow_pending ≡ none → s.overflow_count ≡ 0
  pub reports_one : ReportsOne s.overflow_pending

pub new_subscription-IsBounded :
    (topics : List String) (n : ℕ) → IsBounded (new_subscription topics n)
unfolding new_subscription
new_subscription-IsBounded topics n = ground arith

pub close-IsBounded : (s : Subscription) → IsBounded s → IsBounded (close s)
unfolding close
close-IsBounded s h = ground arith

pub get_nowait-IsBounded : (s : Subscription) → IsBounded s → IsBounded (get_nowait s).1
unfolding get_nowait
get_nowait-IsBounded s h = ground arith

length-drop_oldest :
    (queue : List Event) (e : Event) → length (drop_oldest queue ++ e ∷ []) ≤ length queue + 1
length-drop_oldest [] e = omega arith
length-drop_oldest (x ∷ queue) e = omega (arith, length-append queue (e ∷ []))

-- dropping the oldest first keeps a buffer that is not empty at its length
pub length-drop_oldest_full :
    (queue : List Event) (e : Event)
    → 0 < length queue
    → length (drop_oldest queue ++ e ∷ []) ≡ length queue
length-drop_oldest_full [] e h = absurd (omega arith)
length-drop_oldest_full (x ∷ queue) e h = omega (arith, length-append queue (e ∷ []))

-- Whatever is enqueued, the buffer stays within its size; a notice is pending whenever events have
-- been dropped since the last notice was read; and a notice says that one event was dropped.
pub try_enqueue-IsBounded :
    (event : Event) (s : Subscription) → IsBounded s → IsBounded (try_enqueue event s)
unfolding try_enqueue get_field
try_enqueue-IsBounded event s h =
    ground (arith, length-append s.queue (event ∷ []), length-drop_oldest_full s.queue event)
