-- ===== src/Oracle/Edges.antt =====
-- The anomaly signal of ORACLE: how the frames that are sent follow each other.
use macbastion.Prelude.{
  ◌+◌, Bool, true, false, ◌&&◌, ◌≡◌, refl, Option, none, some, List, [], ◌∷◌, ◌++◌, arith, str_eq,
  if◌then◌else◌,
}
use macbastion.Prelude.Json.{Json, obj, Fields}
use macbastion.Exec.{Result, ok, err, if_rule}
use macbastion.Envelope.{bind, Message, request, response, notification}
use macbastion.Oracle.Detector.{OracleEnv, Verdict, classify, get_threshold}
use macbastion.Oracle.Client.{
  Client, send_cmd, edge, has_passed, signal, judge, classify_event, with_detector,
}
use macbastion.Oracle.Counts.{IsCounted}

-- whether a frame raises the signal, or takes it back
abbrev pub edge_of : Message → Option Bool
edge_of (request r) = none
edge_of (response r) = none
edge_of (notification n) =
    if str_eq n.method "oracle.anomaly.detected"
    then some true
    else if str_eq n.method "oracle.anomaly.cleared"
    then some false
    else none

-- the signal after an edge; it cannot be taken back while it is not raised
abbrev pub after_edge : Bool → Option Bool → Option Bool
after_edge raised none = some raised
after_edge raised (some true) = some true
after_edge true (some false) = some false
after_edge false (some false) = none

-- the signal that a listener has after the frames, if they make sense to it
abbrev pub heard : Bool → List Message → Option Bool
heard raised [] = some raised
heard raised (m ∷ ms) = bind (after_edge raised (edge_of m)) (λ b. heard b ms)

bind_assoc :
    {A B C : Type 0} (o : Option A) (f : A → Option B) (g : B → Option C) (h : A → Option C)
    → ((a : A) → h a ≡ bind (f a) g)
    → bind o h ≡ bind (bind o f) g
bind_assoc none f g h e = refl
bind_assoc (some a) f g h e = e a

heard-append_one :
    (raised : Bool) (ms : List Message) (m : Message)
    → heard raised (ms ++ m ∷ []) ≡ bind (heard raised ms) (λ b. after_edge b (edge_of m))
heard-append_one raised [] m = ground arith
heard-append_one raised (x ∷ ms) m =
    bind_assoc (after_edge raised (edge_of x)) (λ b. heard b ms) _ (λ b. heard b (ms ++ m ∷ []))
      (λ b. heard-append_one b ms m)

-- the connection is up, the count is right, and a listener knows whether there is an anomaly
pub record Sound {F : Type 0} (c : Client F) : Type 0 where
  pub up : c.connected ≡ true
  pub counted : IsCounted c.store
  pub traced : heard false c.sent ≡ some c.anomalous

module _ {F : Type 0} where
  -- a frame that is sent: the signal that it leaves is the client's
  pub send_cmd-Sound :
      (m : Message) (before : Bool) (c : Client F)
      → c.connected ≡ true
      → IsCounted c.store
      → heard false c.sent ≡ some before
      → after_edge before (edge_of m) ≡ some c.anomalous
      → Sound (send_cmd m c)
  unfolding send_cmd
  send_cmd-Sound m before c up counted traced step =
      if_rule Sound c.connected _ _
        (λ _. record {
          up = up;
          counted = counted;
          traced = rw (heard-append_one false c.sent m, traced) step;
        })
        (λ down. cc)

  -- the signal of one score: raised again or taken back, it is what the listener has
  signal-Sound :
      (env : OracleEnv F) (event : Fields) (threshold : F) (v : Verdict F) (c : Client F)
      → Sound c
      → Sound (signal env event threshold v c)
  signal-Sound env event threshold v c s =
      if_rule Sound (env.ops.leb threshold v.score) _ _
        (λ _.
          send_cmd-Sound (edge env "oracle.anomaly.detected" event v threshold) c.anomalous
            (record c { anomalous = true }) s.up s.counted s.traced (ground arith))
        λ _.
          if_rule Sound (c.anomalous && has_passed env v.score threshold) _ _
            (λ armed.
              send_cmd-Sound (edge env "oracle.anomaly.cleared" event v threshold) true
                (record c { anomalous = false }) s.up s.counted (ground (arith, s.traced)) refl)
            (λ _. s)

  judge-Sound :
      (env : OracleEnv F) (seed : F) (event : Fields) (r : Result (Verdict F)) (c : Client F)
      → Sound c
      → Sound (judge env seed event r c).1
  judge-Sound env seed event (err x) c s = s
  judge-Sound env seed event (ok v) c s =
      signal-Sound env event (get_threshold env seed c.store) v
        (record c { classifications_today = c.classifications_today + 1 })
        (record { up = s.up; counted = s.counted; traced = s.traced })

  classify_event-Sound :
      (env : OracleEnv F) (seed : F) (event : Option Json) (c : Client F)
      → Sound c
      → Sound (classify_event env seed event c).1
  classify_event-Sound env seed none c s = s
  classify_event-Sound env seed (some (obj event)) c s =
      judge-Sound env seed event (classify env event c.store) c s
  classify_event-Sound env seed (some _) c s = s

  pub detector-Sound :
      (env : OracleEnv F) (detector : Option F) (event : Option Json) (c : Client F)
      → Sound c
      → Sound (with_detector env detector (λ seed. classify_event env seed event) c).1
  detector-Sound env none event c s = s
  detector-Sound env (some seed) event c s = classify_event-Sound env seed event c s
