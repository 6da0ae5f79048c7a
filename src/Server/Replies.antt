-- ===== src/Server/Replies.antt =====
-- Which reply a forwarded request gets, whatever the other tasks do while it waits.
use macbastion.Prelude.{
  ℕ, ◌≤◌, String, Bool, true, false, not, ◌≡◌, refl, sym, ap, ◌∙◌, Option, none, some, List, [],
  ◌∷◌, arith, map, str_eq, All, ◌==◌, if◌then◌else◌, Bool-cases, inl, inr,
}
use mathlib.Core.Option
use macbastion.Prelude.Int.{pos, negsuc}
use macbastion.Prelude.Text.{before_dot}
use macbastion.Errors.{rpc_code, chimera_code, module_timeout}
use macbastion.Exec.{Result, ok, err}
use macbastion.Envelope.{RequestId, null_id, int_id, str_id, Response, Params}
use macbastion.Server.{Pending, Server}
use macbastion.Server.Router.{
  settle, find_pending, drop_pending, offline_response, fail_if_owned, settle_at, begin_issue,
  end_issue, issue_to_module, resolve_at, fail_of, resolve_pending, detach_module_writer,
}

-- What the other tasks do to the router: a reply comes in, a module goes away, another request is
-- sent, another one ends.
pub data RouterCall : Type 0 where
  reply_call : Response → RouterCall
  gone_call : String → RouterCall
  send_call : String → Params → RouterCall
  end_call : ℕ → RouterCall

unfoldable pub run : RouterCall → Server → Server
run (reply_call response) s = resolve_pending response s
run (gone_call name) s = detach_module_writer name s
run (send_call method params) s = (begin_issue method params s).1
run (end_call j) s = (end_issue j s).1

unfoldable pub run_all : List RouterCall → Server → Server
run_all [] s = s
run_all (c ∷ calls) s = run_all calls (run c s)

-- not the end of request `i`, which is its caller's own
abbrev pub is_foreign : ℕ → RouterCall → Bool
is_foreign i (end_call j) = not (i == j)
is_foreign i _ = true

abbrev id_is : ℕ → RequestId → Bool
id_is i (int_id (pos j)) = i == j
id_is i _ = false

-- The reply that a call brings to request `i` of module `owner`, and the first that calls bring.
abbrev pub effect : ℕ → String → RouterCall → Option Response
effect i owner (reply_call response) = if id_is i response.id then some response else none
effect i owner (gone_call name) = if str_eq owner name then some (offline_response i) else none
effect i owner _ = none

abbrev pub or_later : Option Response → Option Response → Option Response
or_later none later = later
or_later (some r) later = some r

abbrev pub first_reply : ℕ → String → List RouterCall → Option Response
first_reply i owner [] = none
first_reply i owner (c ∷ calls) = or_later (effect i owner c) (first_reply i owner calls)

find_pending-settle_at :
    (i j : ℕ) (r : Response) (table : List (ℕ × Pending))
    → find_pending i (map (settle_at j r) table)
      ≡ (if i == j then Option.map (settle r) (find_pending i table) else find_pending i table)
find_pending-settle_at i j r [] = ground arith
find_pending-settle_at i j r ((k, p) ∷ table) = ground (arith, find_pending-settle_at i j r table)

pub find_pending-fail_if_owned :
    (i : ℕ) (name : String) (table : List (ℕ × Pending))
    → find_pending i (map (fail_if_owned name) table)
      ≡ Option.map (fail_of i name) (find_pending i table)
find_pending-fail_if_owned i name [] = refl
find_pending-fail_if_owned i name ((k, p) ∷ table) = elim (Bool-cases (i == k)) [
  | inl e ↦
      let same : k ≡ i = ground arith in
      rw (find_pending, e) (ap (λ j. some (fail_of j name p)) same)
  | inr e ↦ rw (find_pending, e) (find_pending-fail_if_owned i name table)
]

find_pending-drop_pending :
    (i j : ℕ) (table : List (ℕ × Pending))
    → find_pending i (drop_pending j table) ≡ (if i == j then none else find_pending i table)
find_pending-drop_pending i j [] = ground arith
find_pending-drop_pending i j ((k, p) ∷ table) = ground (arith, find_pending-drop_pending i j table)

-- request `i` waits, or has its reply
record Waits (i : ℕ) (owner : String) (reply : Option Response) (s : Server) : Type 0 where
  here : find_pending i s.pending ≡ some (record { owner = owner; reply = reply })
  old : i ≤ s.next_internal_id

settle_lem :
    (r : Response) (owner : String) (reply : Option Response)
    → settle r (record { owner = owner; reply = reply })
      ≡ record { owner = owner; reply = or_later reply (some r) }
settle_lem r owner none = refl
settle_lem r owner (some q) = refl

or_later-none : (reply : Option Response) → or_later reply none ≡ reply
or_later-none none = refl
or_later-none (some r) = refl

module _ (i : ℕ) (owner : String) (reply : Option Response) (s : Server)
    (w : Waits i owner reply s) where
  -- a step that keeps the entry, or settles it
  keeps :
      (t : Server)
      → find_pending i t.pending ≡ find_pending i s.pending
      → s.next_internal_id ≤ t.next_internal_id
      → Waits i owner (or_later reply none) t
  keeps t e le = record {
    here =
        e
        ∙ w.here
        ∙ ap (λ q. some (record { owner = owner; reply = q })) (sym (or_later-none reply));
    old = omega (arith, w.old, le);
  }

  settles :
      (t : Server) (r : Response)
      → find_pending i t.pending ≡ Option.map (settle r) (find_pending i s.pending)
      → s.next_internal_id ≤ t.next_internal_id
      → Waits i owner (or_later reply (some r)) t
  settles t r e le = record {
    here = e ∙ ap (Option.map (settle r)) w.here ∙ ap some (settle_lem r owner reply);
    old = omega (arith, w.old, le);
  }

  resolve_at-Waits :
      (id : RequestId) (r : Response)
      → Waits i owner (or_later reply (if id_is i id then some r else none)) (resolve_at id r s)
  resolve_at-Waits null_id r = keeps s refl (omega arith)
  resolve_at-Waits (str_id x) r = keeps s refl (omega arith)
  resolve_at-Waits (int_id (negsuc n)) r = keeps s refl (omega arith)
  resolve_at-Waits (int_id (pos j)) r = elim (Bool-cases (i == j)) [
    | inl e ↦
        rw e (settles _ r (ground (arith, find_pending-settle_at i j r s.pending)) (omega arith))
    | inr e ↦ rw e (keeps _ (ground (arith, find_pending-settle_at i j r s.pending)) (omega arith))
  ]

  detach-Waits :
      (name : String)
      → Waits i owner
          (or_later reply (if str_eq owner name then some (offline_response i) else none))
          (detach_module_writer name s)
  unfolding detach_module_writer
  detach-Waits name = record {
    here =
        find_pending-fail_if_owned i name s.pending
        ∙ ap (Option.map (fail_of i name)) w.here
        ∙ ap some (failed_as name);
    old = w.old;
  }
    where
      failed_as :
          (name : String)
          → fail_of i name (record { owner = owner; reply = reply }) ≡ record {
            owner = owner;
            reply = or_later reply (if str_eq owner name then some (offline_response i) else none);
          }
      failed_as name = elim (Bool-cases (str_eq owner name)) [
        | inl e ↦ rw e (settle_lem (offline_response i) owner reply)
        | inr e ↦ rw (e, or_later-none reply) refl
      ]

  send-Waits :
      (method : String) (params : Params)
      → Waits i owner (or_later reply none) (begin_issue method params s).1
  unfolding begin_issue
  send-Waits method params =
      keeps (begin_issue method params s).1 (ground (arith, w.old)) (ground arith)

  end-Waits : (j : ℕ) → not (i == j) ≡ true → Waits i owner (or_later reply none) (end_issue j s).1
  unfolding end_issue
  end-Waits j h =
      keeps (end_issue j s).1 (ground (arith, find_pending-drop_pending i j s.pending))
        (ground arith)

run-Waits :
    (i : ℕ) (owner : String) (reply : Option Response) (c : RouterCall) (s : Server)
    → is_foreign i c ≡ true
    → Waits i owner reply s
    → Waits i owner (or_later reply (effect i owner c)) (run c s)
unfolding run resolve_pending
run-Waits i owner reply (reply_call response) s f w =
    resolve_at-Waits i owner reply s w response.id response
run-Waits i owner reply (gone_call name) s f w = detach-Waits i owner reply s w name
run-Waits i owner reply (send_call method params) s f w = send-Waits i owner reply s w method params
run-Waits i owner reply (end_call j) s f w = end-Waits i owner reply s w j f

or_later_assoc : (a b c : Option Response) → or_later (or_later a b) c ≡ or_later a (or_later b c)
or_later_assoc none b c = refl
or_later_assoc (some a) b c = refl

run_all-Waits :
    (i : ℕ) (owner : String) (reply : Option Response) (calls : List RouterCall) (s : Server)
    → All (λ c. is_foreign i c ≡ true) calls
    → Waits i owner reply s
    → Waits i owner (or_later reply (first_reply i owner calls)) (run_all calls s)
unfolding run_all
run_all-Waits i owner reply [] s f w = rw (or_later-none reply) w
run_all-Waits i owner reply (c ∷ calls) s (f, fs) w =
    rw⁻¹ (or_later_assoc reply (effect i owner c) (first_reply i owner calls)) (
      run_all-Waits i owner (or_later reply (effect i owner c)) calls (run c s) fs
        (run-Waits i owner reply c s f w))

begin_issue-Waits :
    (method : String) (params : Params) (s : Server) (i : ℕ)
    → (begin_issue method params s).0 ≡ ok i
    → Waits i (before_dot method) none (begin_issue method params s).1
unfolding begin_issue
begin_issue-Waits method params s i h = record { here = ground arith; old = ground arith }

-- what the caller of a forwarded request gets
abbrev pub answer : Option Response → Result Response
answer none = err (rpc_code (chimera_code module_timeout))
answer (some r) = ok r

end_issue_lem :
    (i : ℕ) (owner : String) (reply : Option Response) (s : Server)
    → Waits i owner reply s
    → ((end_issue i s).0 ≡ answer reply) × (find_pending i (end_issue i s).1.pending ≡ none)
unfolding end_issue
end_issue_lem i owner none s w = ground (arith, w.here, find_pending-drop_pending i i s.pending)
end_issue_lem i owner (some r) s w = ground (arith, w.here, find_pending-drop_pending i i s.pending)

-- A request that was sent to its module gets, whatever replies come in, modules go away and other
-- requests are sent and end while it waits: the first reply that carries its internal id, or the
-- offline error if its module goes away before; and the timeout if none of these comes. No entry of
-- it is left behind.
pub issue_to_module-answered :
    (method : String) (params : Params) (s : Server) (i : ℕ) (calls : List RouterCall)
    → (begin_issue method params s).0 ≡ ok i
    → All (λ c. is_foreign i c ≡ true) calls
    → let (r, t) = issue_to_module (run_all calls) method params s in
      (r ≡ answer (first_reply i (before_dot method) calls)) × (find_pending i t.pending ≡ none)
unfolding issue_to_module
issue_to_module-answered method params s i calls h f =
    let owner = before_dot method in
    let sent = (begin_issue method params s).1 in
    let w = run_all-Waits i owner none calls sent f (begin_issue-Waits method params s i h) in
    rw (issue_to_module, h)
      (end_issue_lem i owner (first_reply i owner calls) (run_all calls sent) w)
