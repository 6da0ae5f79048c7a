-- ===== src/Oracle/Counts.antt =====
-- What the observer of ORACLE keeps of its store and of the frames it sends.
use macbastion.Prelude.{
  ℕ, ◌+◌, String, true, false, ◌≡◌, refl, sym, ap, ◌∙◌, none, some, List, [], ◌∷◌, ◌++◌, arith,
  length, length-append, append_nil, append_assoc, ◌==◌, if◌then◌else◌,
}
use mathlib.Core.Path.{subst⁻¹}
use Prim.Native.Nat.{◌%◌}
use macbastion.Prelude.Int.{pos}
use macbastion.Prelude.Text.{before_dot, starts_with}
use macbastion.Prelude.Dict
use macbastion.Prelude.Json.{Fields}
use macbastion.Errors.{show_ℤ}
use macbastion.Exec.{ok}
use macbastion.Envelope.{Message}
use macbastion.Oracle.Store.{
  EventRow, BaselineStore, record_event, event_count, counted_up, inserted, get_meta, set_meta,
}
use macbastion.Oracle.Detector.{OracleEnv}
use macbastion.Oracle.Client.{
  Client, send_cmd, updated, announce_count, with_others, record_sync, observe, after_dot,
}

-- the count in the metadata is the count of the rows
abbrev pub IsCounted : BaselineStore → Type 0
IsCounted store =
    Dict.get store.baseline_meta "event_count" ≡ some (show_ℤ (pos (length store.events)))

-- `int(str(n))` is `n`
abbrev pub ReadsCounts : {F : Type 0} → OracleEnv F → Type 0
ReadsCounts env = (n : ℕ) → env.int_of_text (show_ℤ (pos n)) ≡ ok n

module _ {F : Type 0} (env : OracleEnv F) (reads : ReadsCounts env) where
  open env use {cipher, int_of_text}

  pub event_count-IsCounted :
      (store : BaselineStore)
      → IsCounted store
      → event_count cipher int_of_text store ≡ ok (length store.events)
  unfolding event_count get_meta
  event_count-IsCounted store h = rw (h, event_count, get_meta) (reads (length store.events))

  inserted_count :
      (row : EventRow) (store : BaselineStore)
      → length (inserted row store).events ≡ length store.events + 1
  inserted_count row store = omega (arith, length-append store.events (row ∷ []))

  counted_up-IsCounted :
      (row : EventRow) (store : BaselineStore)
      → let store' = (counted_up (ok (length store.events)) (inserted row store)).1 in
        IsCounted store' × (length store'.events ≡ length store.events + 1)
  unfolding set_meta
  counted_up-IsCounted row store =
      (rw (Dict.get-put, inserted_count row store) refl, inserted_count row store)

  -- the store that a recording leaves, and what it returns
  pub record_event-IsCounted :
      (topic : String) (payload : Fields) (store : BaselineStore)
      → IsCounted store
      → let r =
          record_event cipher int_of_text env.utc_now
            (before_dot topic)
            (after_dot topic)
            payload
            none
            store in
        IsCounted r.1 × (length r.1.events ≡ length store.events + 1) × ((n : ℕ) × (r.0 ≡ ok n))
  unfolding record_event
  record_event-IsCounted topic payload store h = rw (event_count-IsCounted store h) (
    (counted_up-IsCounted _ store).0,
    (counted_up-IsCounted _ store).1,
    (length store.events + 1, ap ok (inserted_count _ store)),
  )

  with_others-IsCounted :
      (rows : List EventRow) (store : BaselineStore)
      → IsCounted store
      → let after = with_others env rows store in
        IsCounted after × (after.events ≡ store.events ++ rows)
  unfolding set_meta
  with_others-IsCounted [] store h = (h, sym (append_nil store.events))
  with_others-IsCounted (row ∷ rows) store h =
      let next = (counted_up (event_count cipher int_of_text store) (inserted row store)).1 in
      let count = event_count-IsCounted store h in
      let first : IsCounted next =
        subst⁻¹ (λ r. IsCounted (counted_up r (inserted row store)).1) count
          (counted_up-IsCounted row store).0 in
      let kept : next.events ≡ store.events ++ row ∷ [] =
        ap (λ r. (counted_up r (inserted row store)).1.events) count in
      let (counted, grown) = with_others-IsCounted rows next first in
      (
        counted,
        grown ∙ ap (λ events. events ++ rows) kept ∙ append_assoc store.events (row ∷ []) rows,
      )

  -- the row that an event is recorded as
  abbrev pub row_of : String → Fields → EventRow
  row_of topic payload = record {
    ts = env.utc_now;
    source = before_dot topic;
    kind = after_dot topic;
    payload_json = cipher.seal payload;
    ctx_json = none;
  }

  abbrev pub recorded : String → Fields → BaselineStore → BaselineStore
  recorded topic payload store =
      with_others env env.others
        (record_event cipher int_of_text env.utc_now (before_dot topic) (after_dot topic) payload
          none store).1

  pub recorded-IsCounted :
      (topic : String) (payload : Fields) (store : BaselineStore)
      → IsCounted store
      → let after = recorded topic payload store in
        IsCounted after × (after.events ≡ store.events ++ row_of topic payload ∷ env.others)
  unfolding record_event set_meta
  recorded-IsCounted topic payload store h =
      let (counted, grown, _) = record_event-IsCounted topic payload store h in
      let count = event_count-IsCounted store h in
      let row = row_of topic payload in
      let kept = ap (λ r. (counted_up r (inserted row store)).1.events) count in
      let (all, events) = with_others-IsCounted env.others _ counted in
      (
        all,
        events
            ∙ ap (λ rows. rows ++ env.others) kept
            ∙ append_assoc store.events (row ∷ []) env.others,
      )

  pub record_sync-eq :
      (topic : String) (payload : Fields) (c : Client F)
      → IsCounted c.store
      → let after = recorded topic payload c.store in
        record_sync env topic payload c ≡ (ok (length after.events), record c { store = after })
  unfolding record_sync
  record_sync-eq topic payload c h =
      let (counted, grown, (n, e)) = record_event-IsCounted topic payload c.store h in
      let count =
        event_count-IsCounted (recorded topic payload c.store)
          (recorded-IsCounted topic payload c.store h).0 in
      rw (e, count) refl

  abbrev pub announced : ℕ → Client F → List Message
  announced n c = if n % c.baseline_every == 0 then c.sent ++ updated env n ∷ [] else c.sent

  announce_count-eq :
      (n : ℕ) (c : Client F)
      → (c.baseline_every == 0) ≡ false
      → c.connected ≡ true
      → announce_count env n c ≡ (ok tt, record c { sent = announced n c })
  unfolding send_cmd
  announce_count-eq n c every up = ground arith

  -- An event of another module is recorded as one row more, with its time, source, type and sealed payload,
  -- before those that other threads record meanwhile; the count in the metadata stays the count of the
  -- rows, and that count, the others' rows included, is announced exactly if the interval divides it.
  pub observe_lem :
      (topic : String) (payload : Fields) (c : Client F)
      → IsCounted c.store
      → starts_with topic "oracle." ≡ false
      → (c.baseline_every == 0) ≡ false
      → c.connected ≡ true
      → (store : BaselineStore) × IsCounted store
        × (store.events ≡ c.store.events ++ row_of topic payload ∷ env.others)
        × (observe env topic payload c
            ≡ (ok tt, record c { store = store; sent = announced (length store.events) c }))
  unfolding observe
  observe_lem topic payload c h foreign every up =
      let after = recorded topic payload c.store in
      let (counted, events) = recorded-IsCounted topic payload c.store h in
      (
        after,
        counted,
        events,
        rw (foreign, record_sync-eq topic payload c h)
            (announce_count-eq (length after.events) (record c { store = after }) every up),
      )
