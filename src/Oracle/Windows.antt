-- ===== src/Oracle/Windows.antt =====
-- The queries of ORACLE's store over windows of time, and its first sighting of a source.
use macbastion.Prelude.{
  ℕ, ◌+◌, any, String, Bool, true, false, ◌&&◌, ◌≡◌, refl, inl, inr, Bool-cases, Option, none, some,
  List, [], ◌∷◌, arith, map, length, keep_if, str_eq, eq_iff, All, if◌then◌else◌,
}
use mathlib.Core.Path.{subst}
use text.Mathlib.TextPositions.{eq_refl}
use macbastion.Prelude.Text.{mem_str, sorted_set, mem_str-sorted_set}
use macbastion.Prelude.Order.{before, before_trans, before-from}
use macbastion.Prelude.Dict
use macbastion.Prelude.Dict.{Dict}
use macbastion.Exec.{if_rule}
use macbastion.Oracle.Store.{
  EventRow, BaselineStore, count_of, with_counts, group_counts, in_period, period_summary, is_of,
  min_ts, earlier, first_seen,
}

-- the count under a key, 0 where there is none
abbrev pub counted : Dict ℕ → String → ℕ
counted d k = elim (Dict.get d k) [ none ↦ 0 | some n ↦ n ]

count_of-not_mem : (k : String) (xs : List String) → mem_str k xs ≡ false → count_of k xs ≡ 0
count_of-not_mem k [] h = refl
count_of-not_mem k (x ∷ xs) h = ground (arith, count_of-not_mem k xs)

counted-with_counts :
    (xs ks : List String) (k : String)
    → counted (with_counts xs ks) k ≡ (if mem_str k ks then count_of k xs else 0)
unfolding Dict.get
counted-with_counts xs [] k = refl
counted-with_counts xs (j ∷ ks) k = ground (arith, eq_iff j k, counted-with_counts xs ks k)

-- a group's count is how often its key occurs
pub counted-group_counts :
    (xs : List String) (k : String) → counted (group_counts xs) k ≡ count_of k xs
unfolding group_counts
counted-group_counts xs k = ground (
  arith,
  counted-with_counts xs (sorted_set xs) k,
  mem_str-sorted_set k xs,
  count_of-not_mem k xs,
)

-- `start` is not after `mid`, and `mid` is not after `stop`
abbrev pub Ordered : String → String → String → Type 0
Ordered start mid stop = (before mid start ≡ false) × (before stop mid ≡ false)

module _ (start mid stop : String) (ordered : Ordered start mid stop) where
  -- a row of a window lies in exactly one of two windows that meet
  split_row :
      (e : EventRow)
      → (if in_period start stop e then 1 else 0)
        ≡ (if in_period start mid e then 1 else 0) + (if in_period mid stop e then 1 else 0)
  split_row e = ground (arith, before-from e.ts start mid, before-from e.ts mid stop)

  split_length :
      (rows : List EventRow)
      → length (keep_if (in_period start stop) rows)
        ≡ length (keep_if (in_period start mid) rows) + length (keep_if (in_period mid stop) rows)
  split_length [] = refl
  split_length (e ∷ rows) = ground (arith, split_row e, split_length rows)

  split_count :
      (field : EventRow → String) (key : String) (rows : List EventRow)
      → count_of key (map field (keep_if (in_period start stop) rows))
        ≡ count_of key (map field (keep_if (in_period start mid) rows))
          + count_of key (map field (keep_if (in_period mid stop) rows))
  split_count field key [] = refl
  split_count field key (e ∷ rows) = ground (arith, split_row e, split_count field key rows)

  split_group :
      (field : EventRow → String) (key : String) (rows : List EventRow)
      → counted (group_counts (map field (keep_if (in_period start stop) rows))) key
        ≡ counted (group_counts (map field (keep_if (in_period start mid) rows))) key
          + counted (group_counts (map field (keep_if (in_period mid stop) rows))) key
  split_group field key rows = omega (
    arith,
    counted-group_counts (map field (keep_if (in_period start stop) rows)) key,
    counted-group_counts (map field (keep_if (in_period start mid) rows)) key,
    counted-group_counts (map field (keep_if (in_period mid stop) rows)) key,
    split_count field key rows,
  )

  -- Of two windows that meet, no event is counted twice and none is left out: the total, the count of
  -- every source and the count of every type over both are the sums of those over each.
  pub period_summary-split :
      (key : String) (store : BaselineStore)
      → let both = period_summary start stop store in
        let first = period_summary start mid store in
        let second = period_summary mid stop store in
        (both.total ≡ first.total + second.total)
        × (counted both.by_source key ≡ counted first.by_source key + counted second.by_source key)
        × (counted both.by_type key ≡ counted first.by_type key + counted second.by_type key)
  unfolding period_summary
  period_summary-split key store = (
    split_length store.events,
    split_group (λ e. e.source) key store.events,
    split_group (λ e. e.kind) key store.events,
  )

-- a text that no row that passes is before
abbrev pub IsLeast : (EventRow → Bool) → String → List EventRow → Type 0
IsLeast test m rows = All (λ e. test e ≡ true → before e.ts m ≡ false) rows

abbrev pub IsMin : (EventRow → Bool) → Option String → List EventRow → Type 0
IsMin test none rows = All (λ e. test e ≡ false) rows
IsMin test (some m) rows = IsLeast test m rows × (any (λ e. test e && str_eq e.ts m) rows ≡ true)

IsLeast-weaken :
    (test : EventRow → Bool) (m n : String) (rows : List EventRow)
    → before m n ≡ false
    → IsLeast test m rows
    → IsLeast test n rows
IsLeast-weaken test m n [] h l = tt
IsLeast-weaken test m n (e ∷ rows) h l =
    (λ t. ground (arith, l.0 t, before-from e.ts n m), IsLeast-weaken test m n rows h l.1)

IsLeast-none :
    (test : EventRow → Bool) (m : String) (rows : List EventRow)
    → All (λ e. test e ≡ false) rows
    → IsLeast test m rows
IsLeast-none test m [] h = tt
IsLeast-none test m (e ∷ rows) h = (λ t. ground (arith, h.0), IsLeast-none test m rows h.1)

before_irrefl : (s : String) → before s s ≡ false
before_irrefl s = ground (arith, eq_refl s)

abbrev IsMinAfter : (EventRow → Bool) → EventRow → List EventRow → String → Type 0
IsMinAfter test e rows m = IsMin test (some m) (e ∷ rows)

-- a row that passes, put before those whose earliest time is known
IsMin-pass :
    (test : EventRow → Bool) (e : EventRow) (o : Option String) (rows : List EventRow)
    → test e ≡ true
    → IsMin test o rows
    → IsMin test (some (earlier e.ts o)) (e ∷ rows)
IsMin-pass test e none rows t h =
    ((λ _. before_irrefl e.ts, IsLeast-none test e.ts rows h), ground (arith, eq_refl e.ts))
IsMin-pass test e (some m) rows t h =
    if_rule (IsMinAfter test e rows) (before m e.ts) m e.ts
      (λ b. (
        (λ _. ground (arith, before_trans e.ts m e.ts, before_irrefl e.ts), h.0),
        ground (arith, h.1),
      ))
      (λ b. (
        (λ _. before_irrefl e.ts, IsLeast-weaken test m e.ts rows b h.0),
        ground (arith, eq_refl e.ts),
      ))

IsMin-skip :
    (test : EventRow → Bool) (e : EventRow) (o : Option String) (rows : List EventRow)
    → test e ≡ false
    → IsMin test o rows
    → IsMin test o (e ∷ rows)
IsMin-skip test e none rows t h = (t, h)
IsMin-skip test e (some m) rows t h = ((λ t'. ground arith, h.0), ground (arith, h.1))

min_ts-IsMin : (test : EventRow → Bool) (rows : List EventRow) → IsMin test (min_ts test rows) rows
min_ts-IsMin test [] = tt
min_ts-IsMin test (e ∷ rows) = elim (Bool-cases (test e)) [
  | inl t ↦ rw t (IsMin-pass test e (min_ts test rows) rows t (min_ts-IsMin test rows))
  | inr t ↦ rw t (IsMin-skip test e (min_ts test rows) rows t (min_ts-IsMin test rows))
]

and_true : (b : Bool) → (b && true) ≡ b
and_true b = ground arith

-- The first sighting of a source is the time of one of its events, and none of its events is before it;
-- that of a source and a type is the time of an event that has both, and none that has both is before it.
-- There is no first sighting exactly where there is no such event.
pub first_seen-IsMin :
    (source kind : String) (store : BaselineStore)
    → IsMin (λ e. str_eq e.source source) (first_seen source none store) store.events
      × IsMin
          (λ e. str_eq e.source source && str_eq e.kind kind)
          (first_seen source (some kind) store)
          store.events
unfolding first_seen
first_seen-IsMin source kind store = (
  subst (λ test. IsMin test (first_seen source none store) store.events)
      (λ i e. and_true (str_eq e.source source) i) (min_ts-IsMin (is_of source none) store.events),
  min_ts-IsMin (is_of source (some kind)) store.events,
)
