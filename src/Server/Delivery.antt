-- ===== src/Server/Delivery.antt =====
-- From the publication of an event to the loop that waits for it.
use macbastion.Prelude.{ℕ, ◌<◌, String, true, ◌≡◌, ◌∙◌, none, some, List, [], ◌∷◌, map, arith, any}
use macbastion.Errors.{subscription_closed}
use macbastion.Exec.{Result, ok, err, continue}
use macbastion.Broker.{
  get_waited, Event, Subscription, EventBroker, new_subscription, deliver, publish, try_enqueue,
  get_nowait, find_sub, write_sub, get_from, matches,
}
use macbastion.Server.{Server, publish_event}
use macbastion.Server.Sockets.{broker_of, set_broker, turn}

find_sub-delivered :
    (e : Event) (i : ℕ) (subs : List (ℕ × Subscription)) (s : Subscription)
    → find_sub i subs ≡ some s
    → find_sub i (map (λ (x : ℕ × Subscription). (x.0, deliver e x.1)) subs) ≡ some (deliver e s)
find_sub-delivered e i [] s h = cc
find_sub-delivered e i ((j, t) ∷ subs) s h = ground (arith, find_sub-delivered e i subs s)

find_sub-write_sub :
    (i : ℕ) (s t : Subscription) (subs : List (ℕ × Subscription))
    → find_sub i subs ≡ some t
    → find_sub i (write_sub i s subs) ≡ some s
find_sub-write_sub i s t [] h = cc
find_sub-write_sub i s t ((j, r) ∷ subs) h = ground (arith, find_sub-write_sub i s t subs)

module _ (topics : List String) (size : ℕ) (room : 0 < size) where
  -- an event put into an empty buffer comes out of it, and leaves it empty
  get_nowait-deliver :
      (e : Event)
      → any (λ p. matches p e.topic) topics ≡ true
      → get_nowait (deliver e (new_subscription topics size)) ≡ (ok e, new_subscription topics size)
  unfolding get_nowait deliver new_subscription try_enqueue
  get_nowait-deliver e m = ground (arith, m, room)

-- a `get` that was waiting as the event came hands out the same
get_waited-deliver :
    (topics : List String) (size : ℕ) (e : Event)
    → 0 < size
    → any (λ p. matches p e.topic) topics ≡ true
    → get_waited (deliver e (new_subscription topics size)) ≡ (ok e, new_subscription topics size)
unfolding get_waited deliver new_subscription try_enqueue
get_waited-deliver topics size e room m = ground (arith, m, room)

get_from-eq :
    (i : ℕ) (b : EventBroker) (s s' : Subscription) (r : Result Event)
    → find_sub i b.subscriptions ≡ some s
    → get_nowait s ≡ (r, s')
    → get_from i b ≡ (r, record b { subscriptions = write_sub i s' b.subscriptions })
unfolding get_from
get_from-eq i b s s' r found taken =
    (λ j. elim (found j) [
      | none ↦ (err subscription_closed, b)
      | some t ↦
          let (r, t') = get_nowait t in
          (r, record b { subscriptions = write_sub i t' b.subscriptions })
    ])
    ∙ (λ j.
        let (r, t') = taken j in (r, record b { subscriptions = write_sub i t' b.subscriptions }))

module _ (topics : List String) (size : ℕ) (room : 0 < size) where
  -- the broker after the event was taken out again
  abbrev after : ℕ → Event → EventBroker → EventBroker
  after i e b = record b {
    subscriptions =
        write_sub i (new_subscription topics size)
          (map (λ (x : ℕ × Subscription). (x.0, deliver e x.1)) b.subscriptions);
  }

  get_from-publish :
      (i : ℕ) (e : Event) (b : EventBroker)
      → find_sub i b.subscriptions ≡ some (new_subscription topics size)
      → any (λ p. matches p e.topic) topics ≡ true
      → get_from i (publish e b) ≡ (ok e, after i e b)
  unfolding publish
  get_from-publish i e b h m =
      get_from-eq i (publish e b) _ _ _ (find_sub-delivered e i b.subscriptions _ h)
        (get_nowait-deliver topics size room e m)

  -- What a loop of core's own does with an event: when the loop is waiting on an empty subscription
  -- whose topics the event's topic matches, its next turn after the event is published handles just that
  -- event, in the server as it was but for the broker, and leaves the subscription empty again.
  pub turn-publish :
      (i : ℕ) (e : Event) (handle : Event → Server → Server) (s : Server)
      → find_sub i (broker_of s).subscriptions ≡ some (new_subscription topics size)
      → any (λ p. matches p e.topic) topics ≡ true
      → (b : EventBroker) × (turn i handle (publish_event e s) ≡ (ok tt, handle e (set_broker b s)))
        × (find_sub i b.subscriptions ≡ some (new_subscription topics size))
  unfolding turn
  turn-publish i e handle s h m = (
    after i e (broker_of s),
    λ j.
        let (r, b) = get_from-publish i e (broker_of s) h m j in
        continue r (set_broker b s) (λ event s. (ok tt, handle event s)),
    find_sub-write_sub i _ _ _ (find_sub-delivered e i (broker_of s).subscriptions _ h),
  )
