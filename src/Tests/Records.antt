-- ===== src/Tests/Records.antt =====
-- The theorems on events, tokens, files and messages, applied.
use macbastion.Prelude.{
  ◌+◌, ◌≤◌, String, true, false, ◌≡◌, refl, ◌⊎◌, ◌↔◌, ◌-◌, Option, none, some, List, [], ◌∷◌, ◌++◌,
  arith, leb, length, drop, if◌then◌else◌,
}
use macbastion.Prelude.Text.{mem_str}
use macbastion.Prelude.Int.{pos}
use macbastion.Prelude.Json.{obj, end}
use macbastion.Errors.{rpc_code, chimera_code, not_authorized, capability_missing}
use macbastion.Exec.{ok, err}
use macbastion.Broker.{Event, new_broker, new_subscription}
use macbastion.Broker.Queue.{new_subscription-IsBounded}
use macbastion.Broker.Window.{enqueue_all, excess, enqueue_all_window}
use macbastion.Broker.Fanout
use macbastion.Broker.Fanout.{
  BrokerCall, subscribe_call, publish_call, AllBounded, call_all-AllBounded, publish-unsubscribe,
}
use macbastion.Tokens.{issue, validate}
use macbastion.Tokens.Validity.{validate-issue}
use macbastion.Audit.{audit_entry, record_entry, recent, lines_of, Line}
use macbastion.Audit.Trail.{record_entry-capped, recent_lem, entries_of, failures_of}
use macbastion.Tier0.{Eviction, refused}
use macbastion.Envelope
use macbastion.Envelope.{null_id, request, response, parse, parsed, serialize, serialize_response}
use macbastion.Envelope.RoundTrip.{parse-serialize_response}
use macbastion.Override.{set_phrase, verify}
use macbastion.Override.Phrase.{verify-set_phrase}
use macbastion.Server.Handlers.{core_methods}
use macbastion.Tests.Data.{crypto, audit_log, event, hash, phrase_file, lock_reply}

call_all-AllBounded_example :
    AllBounded
      (Fanout.call_all
        (new_broker 1)
        (subscribe_call ("*" ∷ []) none ∷ publish_call (event "a" end) ∷ [])).subscriptions
call_all-AllBounded_example =
    call_all-AllBounded 1 (subscribe_call ("*" ∷ []) none ∷ publish_call (event "a" end) ∷ [])

abbrev events : List Event
events = event "a" end ∷ event "b" end ∷ event "c" end ∷ []

enqueue_all_window_example :
    let s = new_subscription ("*" ∷ []) 2 in
    ((enqueue_all s events).queue ≡ drop (excess s 3) (s.queue ++ events))
    × ((enqueue_all s events).overflow_count ≡ s.overflow_count + excess s 3)
unfolding new_subscription
enqueue_all_window_example =
    enqueue_all_window events (new_subscription ("*" ∷ []) 2) refl (omega arith)
      (new_subscription-IsBounded ("*" ∷ []) 2)

validate-issue_example :
    validate crypto 10 (issue crypto 0 "surface" core_methods (some 3600)) "core.lock" ≡ (
      if leb (0 + 3600) 10
      then err (rpc_code (chimera_code not_authorized))
      else if mem_str "core.lock" core_methods
      then ok (record { sub = "surface"; caps = core_methods; iat = pos 0; exp = pos (0 + 3600) })
      else err (rpc_code (chimera_code capability_missing)))
validate-issue_example =
    validate-issue crypto 0 "surface" core_methods 3600 10 "core.lock"
      (record { encode_undotted = refl; sign_undotted = refl; decode_encode = refl })

record_entry-capped_example :
    let entry = audit_entry "0.0" "tether.absent" ("vault.lock" ∷ []) "ok" in
    let (r, t) = record_entry "0.0" "tether.absent" ("vault.lock" ∷ []) "ok" audit_log in
    (r ≡ ok entry)
    × (length (lines_of t.file) ≤ 2)
    × (lines_of t.file ≡ drop (3 - 2) (none ∷ none ∷ some (obj entry) ∷ []))
record_entry-capped_example =
    record_entry-capped "0.0" "tether.absent" ("vault.lock" ∷ []) "ok" audit_log (omega arith) refl
      refl

abbrev no_lines : List Line
no_lines = none ∷ none ∷ []

recent_lem_example :
    let failures = failures_of no_lines in
    (recent 5 true audit_log ≡ drop (length failures - 5) failures)
    × (recent 5 false audit_log ≡ entries_of (drop (length no_lines - 5) no_lines))
    × (recent 0 true audit_log ≡ failures)
    × (recent 0 false audit_log ≡ entries_of no_lines)
recent_lem_example = recent_lem 5 audit_log no_lines refl refl (omega arith)

abbrev no_shim : Eviction
no_shim = refused "no shim"

parse-serialize_response_example :
    parse (some (obj (serialize_response lock_reply))) ≡ parsed (response lock_reply)
unfolding Envelope.exactly_one
parse-serialize_response_example = parse-serialize_response lock_reply refl

abbrev known : Option String
known = some "sesame"

verify-set_phrase_example :
    let (stored, file) = set_phrase hash "new" known "s" phrase_file in
    ((stored ≡ true) ↔ (
      (phrase_file ≡ none)
      ⊎ ((c : String) × (known ≡ some c) × (verify hash c phrase_file ≡ true))))
    × (((stored ≡ true)
          × ((q : String)
              → (verify hash q file ≡ true) ↔ (hash q "s" 200_000 ≡ hash "new" "s" 200_000)))
        ⊎ ((stored ≡ false) × (file ≡ phrase_file)))
verify-set_phrase_example = verify-set_phrase hash "new" "s" known phrase_file
