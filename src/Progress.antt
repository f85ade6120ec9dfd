-- ===== src/Progress.antt =====
-- The progress events of backend/services/progress_service.py: the table and the channels in memory.
-- What Redis answers is an argument. Whether the database can be reached is a Boolean of each call.
-- An event's label, message, data and time are left out.
pub mod Laws
use insurance_claim_approval.Prelude.{
  ℕ, ◌-◌, Bool, true, false, not, ◌&&◌, List, [], ◌∷◌, ◌++◌, ltb, ◌==◌, if◌then◌else◌, length,
  is_empty, keep,
}
use insurance_claim_approval.Schema.Db.{Event}

pub record ProgressStore : Type 0 where
  pub rows : List Event
  pub memory_channels : ℕ → List Event

abbrev pub empty_store : ProgressStore
empty_store = record { rows = []; memory_channels = λ k. [] }

unfoldable pub tail : List Event → List Event
tail [] = []
tail (x ∷ xs) = xs

-- `append` to a `deque(maxlen=n)`, which drops its first element when it is full.
unfoldable pub push : ℕ → Event → List Event → List Event
unfolding tail
push n e xs = if ltb (length xs) n then xs ++ e ∷ [] else tail xs ++ e ∷ []

-- `_persist_event`: a database that fails is passed over.
unfoldable pub persist_event : Bool → Event → List Event → List Event
persist_event up e rows = if up then rows ++ e ∷ [] else rows

unfoldable pub publish : Bool → Event → ProgressStore → ProgressStore
unfolding push persist_event
publish up e s = record {
  rows = persist_event up e s.rows;
  memory_channels =
      λ k. if e.claim_id == k then push 100 e (s.memory_channels k) else s.memory_channels k;
}

-- `limit(n)`
unfoldable pub limit : ℕ → List Event → List Event
limit n [] = []
limit n (x ∷ xs) = let rest = limit (n - 1) xs in if n == 0 then [] else x ∷ rest

-- The rows of a claim, or what memory has of it.
unfoldable pub read_rows : List Event → List Event → List Event
read_rows [] memory = memory
read_rows (x ∷ rows) memory = x ∷ rows

-- `get_history`; the first argument is what Redis has, nothing when it fails.
unfoldable pub get_history : List Event → Bool → ℕ → ProgressStore → List Event
unfolding limit read_rows
get_history (x ∷ raw) up k s = x ∷ raw
get_history [] up k s =
    read_rows (if up then limit 100 (keep (λ e. e.claim_id == k) s.rows) else [])
      (s.memory_channels k)
