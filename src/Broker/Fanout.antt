-- ===== src/Broker/Fanout.antt =====
-- The broker as a whole: what holds of all its subscriptions under every operation.
use mathlib.Core.Option
use macbastion.Prelude.{
  ℕ, ◌≡◌, refl, String, Bool, not, Option, none, some, List, [], ◌∷◌, map, arith, inl, inr,
  Option-cases, ◌==◌, keep_if, if◌then◌else◌, All,
}
use macbastion.Broker.{
  Event, Subscription, close, EventBroker, new_broker, subscribe, at_sub, close_sub, unsubscribe,
  deliver, publish, find_sub, write_sub, get_nowait, get_from,
}
use macbastion.Broker.Queue.{
  IsBounded, new_subscription-IsBounded, close-IsBounded, get_nowait-IsBounded,
  try_enqueue-IsBounded,
}

-- The calls that the rest of core makes of a broker.
pub data BrokerCall : Type 0 where
  subscribe_call : List String → Option ℕ → BrokerCall
  publish_call : Event → BrokerCall
  close_call unsubscribe_call get_call : ℕ → BrokerCall

pub call : EventBroker → BrokerCall → EventBroker
call b (subscribe_call topics size) = (subscribe topics size b).1
call b (publish_call e) = publish e b
call b (close_call i) = close_sub i b
call b (unsubscribe_call i) = unsubscribe i b
call b (get_call i) = (get_from i b).1

pub call_all : EventBroker → List BrokerCall → EventBroker
call_all b [] = b
call_all b (c ∷ calls) = call_all (call b c) calls

abbrev pub AllBounded : List (ℕ × Subscription) → Type 0
AllBounded = All (λ (e : ℕ × Subscription). IsBounded e.1)

deliver-IsBounded : (e : Event) (s : Subscription) → IsBounded s → IsBounded (deliver e s)
unfolding deliver
deliver-IsBounded e s h = ground (arith, try_enqueue-IsBounded e s h)

publish-AllBounded :
    (e : Event) (subs : List (ℕ × Subscription))
    → AllBounded subs
    → AllBounded (map (λ (x : ℕ × Subscription). (x.0, deliver e x.1)) subs)
publish-AllBounded e [] h = tt
publish-AllBounded e (x ∷ subs) h = (deliver-IsBounded e x.1 h.0, publish-AllBounded e subs h.1)

close-AllBounded :
    (i : ℕ) (subs : List (ℕ × Subscription))
    → AllBounded subs
    → AllBounded (map (at_sub i close) subs)
close-AllBounded i [] h = tt
close-AllBounded i ((j, s) ∷ subs) h =
    ground (arith, close-IsBounded s h.0, close-AllBounded i subs h.1)

keep_if-AllBounded :
    (test : ℕ × Subscription → Bool) (subs : List (ℕ × Subscription))
    → AllBounded subs
    → AllBounded (keep_if test subs)
keep_if-AllBounded test [] h = tt
keep_if-AllBounded test (x ∷ subs) h = ground (arith, keep_if-AllBounded test subs h.1)

write_sub-AllBounded :
    (i : ℕ) (s : Subscription) (subs : List (ℕ × Subscription))
    → IsBounded s
    → AllBounded subs
    → AllBounded (write_sub i s subs)
write_sub-AllBounded i s [] b h = tt
write_sub-AllBounded i s ((j, t) ∷ subs) b h = ground (arith, write_sub-AllBounded i s subs b h.1)

find_sub-IsBounded :
    (i : ℕ) (s : Subscription) (subs : List (ℕ × Subscription))
    → AllBounded subs
    → find_sub i subs ≡ some s
    → IsBounded s
find_sub-IsBounded i s [] h e = ground arith
find_sub-IsBounded i s ((j, t) ∷ subs) h e = ground (arith, find_sub-IsBounded i s subs h.1)

get_from-AllBounded :
    (i : ℕ) (b : EventBroker)
    → AllBounded b.subscriptions
    → AllBounded (get_from i b).1.subscriptions
unfolding get_from
get_from-AllBounded i b h = elim (Option-cases (find_sub i b.subscriptions)) [
  | inl gone ↦ rw (gone, get_from) h
  | inr (s, found) ↦
      rw (found, get_from)
        (write_sub-AllBounded i (get_nowait s).1 b.subscriptions
          (get_nowait-IsBounded s (find_sub-IsBounded i s b.subscriptions h found)) h)
]

call-AllBounded :
    (b : EventBroker) (c : BrokerCall)
    → AllBounded b.subscriptions
    → AllBounded (call b c).subscriptions
unfolding call subscribe publish close_sub unsubscribe
call-AllBounded b (subscribe_call [] size) h = h
call-AllBounded b (subscribe_call (t ∷ topics) size) h =
    (new_subscription-IsBounded (t ∷ topics) _, h)
call-AllBounded b (publish_call e) h = publish-AllBounded e b.subscriptions h
call-AllBounded b (close_call i) h = close-AllBounded i b.subscriptions h
call-AllBounded b (unsubscribe_call i) h = keep_if-AllBounded _ b.subscriptions h
call-AllBounded b (get_call i) h = get_from-AllBounded i b h

call_all-AllBounded_from :
    (b : EventBroker) (calls : List BrokerCall)
    → AllBounded b.subscriptions
    → AllBounded (call_all b calls).subscriptions
unfolding call_all
call_all-AllBounded_from b [] h = h
call_all-AllBounded_from b (c ∷ calls) h =
    call_all-AllBounded_from (call b c) calls (call-AllBounded b c h)

-- Whatever calls are made of a new broker, in any order, every subscription that it holds keeps
-- within its buffer, has no drops counted unless a notice is pending, and a pending notice reports
-- one dropped event, however many were dropped.
pub call_all-AllBounded :
    (size : ℕ) (calls : List BrokerCall)
    → AllBounded (call_all (new_broker size) calls).subscriptions
unfolding new_broker
call_all-AllBounded size calls = call_all-AllBounded_from (new_broker size) calls tt

find_sub-publish :
    (e : Event) (i : ℕ) (subs : List (ℕ × Subscription))
    → find_sub i (map (λ (x : ℕ × Subscription). (x.0, deliver e x.1)) subs)
      ≡ Option.map (deliver e) (find_sub i subs)
find_sub-publish e i [] = refl
find_sub-publish e i ((j, s) ∷ subs) = ground (arith, find_sub-publish e i subs)

find_sub-keep_if :
    (i j : ℕ) (subs : List (ℕ × Subscription))
    → find_sub j (keep_if (λ (x : ℕ × Subscription). not (i == x.0)) subs)
      ≡ (if i == j then none else find_sub j subs)
find_sub-keep_if i j [] = ground arith
find_sub-keep_if i j ((k, s) ∷ subs) = ground (arith, find_sub-keep_if i j subs)

-- After `unsubscribe`, an event that is published does nothing to the holder's subscription, which
-- is gone, and reaches every other one as if the first had never been there.
pub publish-unsubscribe :
    (e : Event) (i j : ℕ) (b : EventBroker)
    → find_sub j (publish e (unsubscribe i b)).subscriptions
      ≡ (if i == j then none else find_sub j (publish e b).subscriptions)
unfolding publish unsubscribe
publish-unsubscribe e i j b = ground (
  arith,
  find_sub-publish e j (unsubscribe i b).subscriptions,
  find_sub-keep_if i j b.subscriptions,
  find_sub-publish e j b.subscriptions,
)
