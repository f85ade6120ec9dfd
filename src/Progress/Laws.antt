-- ===== src/Progress/Laws.antt =====
-- What the history of a claim is after any events.
use insurance_claim_approval.Prelude.{
  ℕ, ◌≤◌, ◌<◌, ◌≡◌, refl, sym, inl, inr, Bool, true, false, not, ◌&&◌, List, [], ◌∷◌, ◌++◌, arith,
  leb, ltb, ◌==◌, if◌then◌else◌, length, is_empty, keep, Bool-cases, length-append, ltb→lt, leb→le,
}
use insurance_claim_approval.Schema.Db.{Event}
use insurance_claim_approval.Progress.{
  ProgressStore, empty_store, tail, push, persist_event, publish, limit, read_rows, get_history,
}

-- The last `n` events.
unfoldable pub latest : ℕ → List Event → List Event
latest n [] = []
latest n (x ∷ xs) = let rest = latest n xs in if leb (length (x ∷ xs)) n then x ∷ xs else rest

leb_of : (a b : ℕ) → a ≤ b → leb a b ≡ true
leb_of a b h = ground arith

gtb_of : (a b : ℕ) → b < a → leb a b ≡ false
gtb_of a b h = ground arith

ltb_fails : (a b : ℕ) → ltb a b ≡ false → b ≤ a
ltb_fails a b h = ground arith

leb_fails : (a b : ℕ) → leb a b ≡ false → b < a
leb_fails a b h = ground arith

latest_all : (n : ℕ) (xs : List Event) → length xs ≤ n → latest n xs ≡ xs
unfolding latest
latest_all n [] h = refl
latest_all n (x ∷ xs) h = ground arith

push-latest :
    (n : ℕ) (e : Event) (xs : List Event) → 1 ≤ n → push n e (latest n xs) ≡ latest n (xs ++ e ∷ [])
unfolding latest push tail
push-latest n e [] h = ground arith
push-latest n e (x ∷ xs) h =
    let size = length-append xs (e ∷ []) in
    elim (Bool-cases (leb (length (x ∷ xs)) n)) [
      | inl small ↦ elim (Bool-cases (ltb (length (x ∷ xs)) n)) [
        | inl less ↦
            rw
              (
                small,
                less,
                leb_of (length (x ∷ xs ++ e ∷ [])) n (omega (arith, size, ltb→lt _ n less)),
              )
              refl
        | inr full ↦
            rw
              (
                small,
                full,
                gtb_of (length (x ∷ xs ++ e ∷ [])) n (omega (arith, size, ltb_fails _ n full)),
              )
              (sym (latest_all n (xs ++ e ∷ []) (omega (arith, size, leb→le _ n small))))
      ]
      | inr large ↦
          rw
            (large, gtb_of (length (x ∷ xs ++ e ∷ [])) n (omega (arith, size, leb_fails _ n large)))
            (push-latest n e xs h)
    ]

keep-append :
    (p : Event → Bool) (xs : List Event) (e : Event)
    → keep p (xs ++ e ∷ []) ≡ (if p e then keep p xs ++ e ∷ [] else keep p xs)
keep-append p [] e = elim (Bool-cases (p e)) [ inl h ↦ rw h refl | inr h ↦ rw h refl ]
keep-append p (x ∷ xs) e = elim (Bool-cases (p x)) [
  | inl h ↦ elim (Bool-cases (p e)) [
    | inl k ↦ rw (h, keep-append p xs e, k) refl
    | inr k ↦ rw (h, keep-append p xs e, k) refl
  ]
  | inr h ↦ rw (h, keep-append p xs e) refl
]

-- The events of a log whose claim is `k`.
abbrev pub of_claim : ℕ → List Event → List Event
of_claim k = keep (λ e. e.claim_id == k)

-- Events are published one after the other, each with a database that is there or is not. The last
-- one of the log stands first.
unfoldable pub publish_all : List (Bool × Event) → ProgressStore
publish_all [] = empty_store
publish_all ((up, e) ∷ log) = publish up e (publish_all log)

-- All events of a log, oldest first.
unfoldable pub published : List (Bool × Event) → List Event
published [] = []
published ((up, e) ∷ log) = published log ++ e ∷ []

-- Those that reached the database.
unfoldable pub stored : List (Bool × Event) → List Event
stored [] = []
stored ((up, e) ∷ log) = if up then stored log ++ e ∷ [] else stored log

rows-stored : (log : List (Bool × Event)) → (publish_all log).rows ≡ stored log
unfolding publish_all publish persist_event stored
rows-stored [] = refl
rows-stored ((up, e) ∷ log) = rw (rows-stored log) refl

channels-latest :
    (log : List (Bool × Event)) (k : ℕ)
    → (publish_all log).memory_channels k ≡ latest 100 (of_claim k (published log))
unfolding publish_all publish published latest
channels-latest [] k = refl
channels-latest ((up, e) ∷ log) k = elim (Bool-cases (e.claim_id == k)) [
  | inl h ↦
      rw (h, keep-append (λ x. x.claim_id == k) (published log) e, h, channels-latest log k)
        (push-latest 100 e (of_claim k (published log)) (omega arith))
  | inr h ↦
      rw (h, keep-append (λ x. x.claim_id == k) (published log) e, h, channels-latest log k) refl
]

read_rows-eq :
    (xs memory other : List Event)
    → memory ≡ other
    → read_rows (limit 100 xs) memory ≡ (if true && not (is_empty xs) then limit 100 xs else other)
unfolding read_rows limit
read_rows-eq [] memory other h = h
read_rows-eq (x ∷ xs) memory other h = refl

-- After any events, each published with the database there or not, the history of a claim that
-- Redis has nothing of is that of the first 100 of its events that reached the database. When none
-- did, or the database is not there now, it is that of the last 100 of all its events.
pub get_history-published :
    (log : List (Bool × Event)) (up : Bool) (k : ℕ)
    → get_history [] up k (publish_all log) ≡ (
        if up && not (is_empty (of_claim k (stored log)))
        then limit 100 (of_claim k (stored log))
        else latest 100 (of_claim k (published log)))
unfolding get_history read_rows limit
get_history-published log false k = channels-latest log k
get_history-published log true k = rw (rows-stored log) (
    read_rows-eq (of_claim k (stored log)) ((publish_all log).memory_channels k) _
      (channels-latest log k))
