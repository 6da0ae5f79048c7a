-- ===== src/Broker.antt =====
-- chimera/core/broker.py: events, topic patterns, subscriptions with bounded buffers, fan-out.
-- A `Subscription` object is known by a number; a number that the broker no longer holds names an
-- object that `unsubscribe` has closed. A buffer of size 0 is unbounded, as in `asyncio.Queue`.
pub mod Queue
pub mod Window
pub mod Match
pub mod Fanout
use macbastion.Prelude.{
  ℕ, zero, suc, ◌+◌, String, Bool, true, false, not, ◌&&◌, Option, none, some, List, [], ◌∷◌, ◌++◌,
  map, ltb, leb, ◌==◌, str_eq, length, any, keep_if, if◌then◌else◌,
}
use macbastion.Prelude.Int.{pos}
use macbastion.Prelude.Text.{concat, has_char, starts_with, ends_with, strip_suffix?, strip_two?}
use macbastion.Prelude.Json.{int, arr, Fields, end, field, str_items}
use macbastion.Errors.{Exn, value_error, subscription_closed, queue_empty}
use macbastion.Exec.{Result, ok, err, Exec}

pub record Event : Type 0 where
  pub topic : String
  pub payload : Fields

-- `prefix.*`: `some true` or `some false` where this arm of `_matches` returns
abbrev pub prefix_arm : String → String → Option Bool
prefix_arm pattern topic = elim (strip_suffix? pattern ".*") [
  | none ↦ none
  | some p ↦ if has_char b'*' p then none else some (starts_with topic (concat p "."))
]

-- `*.suffix`
abbrev pub suffix_arm : String → String → Option Bool
suffix_arm pattern topic = elim (strip_two? b'*' b'.' pattern) [
  | none ↦ none
  | some s ↦ if has_char b'*' s then none else some (ends_with topic (concat "." s))
]

abbrev pub or_else : Option Bool → Bool → Bool
or_else none b = b
or_else (some a) b = a

-- `_matches`
unfoldable pub matches : String → String → Bool
matches pattern topic =
    if str_eq pattern "*"
    then true
    else if str_eq pattern topic
    then true
    else or_else (prefix_arm pattern topic) (or_else (suffix_arm pattern topic) false)

pub record Subscription : Type 0 where
  pub topics : List String
  pub max_size : ℕ
  pub queue : List Event
  pub overflow_pending : Option Event
  pub overflow_count : ℕ
  pub closed : Bool

unfoldable pub new_subscription : List String → ℕ → Subscription
new_subscription topics buffer_size = record {
  topics = topics;
  max_size = buffer_size;
  queue = [];
  overflow_pending = none;
  overflow_count = 0;
  closed = false;
}

-- `Subscription.close`
unfoldable pub close : Subscription → Subscription
close s = if s.closed then s else record s { closed = true }

-- `Queue.full`
abbrev pub is_full : Subscription → Bool
is_full s = ltb 0 s.max_size && leb s.max_size (length s.queue)

-- `Queue.get_nowait` for its effect alone, with `except QueueEmpty: pass`
abbrev pub drop_oldest : List Event → List Event
drop_oldest [] = []
drop_oldest (e ∷ queue) = queue

-- `_materialize_overflow_event`
unfoldable pub materialize_overflow_event : Subscription → Subscription
materialize_overflow_event s = elim s.overflow_pending [
  | some pending ↦ s
  | none ↦ record s {
    overflow_pending = some (record {
      topic = "core.overflow";
      payload =
          field "dropped_count" (int (pos s.overflow_count))
            (field "subscription_topics" (arr (str_items s.topics)) end);
    });
  }
]

-- `_try_enqueue`
unfoldable pub try_enqueue : Event → Subscription → Subscription
unfolding materialize_overflow_event
try_enqueue event s =
    if s.closed
    then s
    else if is_full s
    then materialize_overflow_event (record s {
      queue = drop_oldest s.queue ++ event ∷ [];
      overflow_count = s.overflow_count + 1;
    })
    else record s { queue = s.queue ++ event ∷ [] }

-- the head of the queue, or `queue_empty`
abbrev pub take_head : List Event → Subscription → Result Event × Subscription
take_head [] s = (err queue_empty, s)
take_head (e ∷ queue) s = (ok e, record s { queue = queue })

-- `_consume_overflow` where an event is pending, else what `otherwise` does
abbrev pub consume_overflow : Option Event → Exec Subscription Event → Exec Subscription Event
consume_overflow none otherwise s = otherwise s
consume_overflow (some e) otherwise s =
    (ok e, record s { overflow_pending = none; overflow_count = 0 })

-- `get_nowait`, and the awaiting `get` where there is something to hand out when it is called
unfoldable pub get_nowait : Exec Subscription Event
get_nowait s =
    if s.closed
    then (err subscription_closed, s)
    else consume_overflow s.overflow_pending (λ t. take_head t.queue t) s

-- the end of a `get` that had to wait on an empty queue: it hands out the head of the queue, even where
-- an overflow is pending by then
unfoldable pub get_waited : Exec Subscription Event
get_waited s = if s.closed then (err subscription_closed, s) else take_head s.queue s

pub record EventBroker : Type 0 where
  pub default_buffer_size : ℕ
  pub subscriptions : List (ℕ × Subscription)
  pub next_sub : ℕ

unfoldable pub new_broker : ℕ → EventBroker
new_broker size = record { default_buffer_size = size; subscriptions = []; next_sub = 0 }

-- `EventBroker.subscribe`: the number of the new subscription
unfoldable pub subscribe : List String → Option ℕ → Exec EventBroker ℕ
subscribe [] buffer_size b = (err (value_error "must subscribe to at least one topic"), b)
subscribe (t ∷ topics) buffer_size b =
    let size : ℕ = elim buffer_size [ none ↦ b.default_buffer_size | some n ↦ n ] in
    (
      ok b.next_sub,
      record b {
        subscriptions = (b.next_sub, new_subscription (t ∷ topics) size) ∷ b.subscriptions;
        next_sub = b.next_sub + 1;
      },
    )

-- one object of the set replaced by what a method made of it
abbrev pub at_sub : ℕ → (Subscription → Subscription) → ℕ × Subscription → ℕ × Subscription
at_sub i f (j, s) = if i == j then (j, f s) else (j, s)

-- `sub.close()`, by a holder of the object
unfoldable pub close_sub : ℕ → EventBroker → EventBroker
close_sub i b = record b { subscriptions = map (at_sub i close) b.subscriptions }

-- `EventBroker.unsubscribe`: the object is closed and leaves the set
unfoldable pub unsubscribe : ℕ → EventBroker → EventBroker
unsubscribe i b = record b {
  subscriptions = keep_if (λ (e : ℕ × Subscription). not (i == e.0)) b.subscriptions;
}

-- the body of the loop in `publish`
unfoldable pub deliver : Event → Subscription → Subscription
deliver event s =
    if s.closed
    then s
    else if any (λ p. matches p event.topic) s.topics
    then try_enqueue event s
    else s

-- `EventBroker.publish`
unfoldable pub publish : Event → EventBroker → EventBroker
publish event b = record b {
  subscriptions = map (λ (e : ℕ × Subscription). (e.0, deliver event e.1)) b.subscriptions;
}

abbrev pub find_sub : ℕ → List (ℕ × Subscription) → Option Subscription
find_sub i [] = none
find_sub i ((j, s) ∷ subs) = if i == j then some s else find_sub i subs

abbrev pub write_sub : ℕ → Subscription → List (ℕ × Subscription) → List (ℕ × Subscription)
write_sub i s [] = []
write_sub i s ((j, t) ∷ subs) = if i == j then (j, s) ∷ subs else (j, t) ∷ write_sub i s subs

-- `sub.get_nowait()` by a holder of subscription `i`
unfoldable pub get_from : ℕ → Exec EventBroker Event
get_from i b = elim (find_sub i b.subscriptions) [
  | none ↦ (err subscription_closed, b)
  | some s ↦
      let (r, s') = get_nowait s in (r, record b { subscriptions = write_sub i s' b.subscriptions })
]
