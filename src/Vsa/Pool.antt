-- ===== src/Vsa/Pool.antt =====
-- The workers that fetch entries in internal/validate/vsa/rekor_retriever.go. `os.Getenv` with
-- `strconv.Atoi` is a parameter, and so are the entries that the log holds. The interleavings of the
-- sender, the workers, the goroutine that waits for them and the collecting loop are steps on the
-- state of the pool. The two channels have room for all UUIDs, so a send never waits; the channel of
-- errors is never written.
mod Closing
pub mod Delivery
pub mod Progress
use ec_cli.Base.{
  ℕ, suc, ◌≡◌, Text, List, [], ◌∷◌, ◌++◌, Option, none, some, Bool, true, false, ltb, if◌then◌else◌,
  length,
}
use ec_cli.Vsa.Rekor.{LogEntry}

-- The number in `EC_REKOR_WORKERS`, if it is set to one: at most 0, or more.
unfoldable pub get_worker_count : Option ℕ → ℕ
get_worker_count none = 8
get_worker_count (some workers) =
    if ltb 0 workers then if ltb 64 workers then 64 else workers else 8

-- How many workers `fetchLogEntriesParallel` starts. Without a UUID it starts none, and returns no
-- entries.
unfoldable pub worker_count_for : Option ℕ → List Text → ℕ
worker_count_for setting uuids =
    let workers = get_worker_count setting in
    if ltb (length uuids) workers then length uuids else workers

-- `fetchResult`, without an entry where the fetch failed; with the UUID it is for.
pub record FetchResult : Type 0 where
  pub uuid : Text
  pub entry : Option LogEntry

pub record Pool : Type 0 where
  -- what the sender still has to send, and whether it has closed `uuidChan`
  pub unsent : List Text
  pub is_sent : Bool
  -- what `uuidChan` holds
  pub sent : List Text
  -- the workers that wait for a UUID
  pub idle : ℕ
  -- what workers have received and not yet looked at, and what they fetch
  pub taken : List Text
  pub fetching : List Text
  -- what `resultChan` holds, and whether it is closed
  pub results : List FetchResult
  pub is_closed : Bool
  pub collected : List FetchResult
  pub cancelled : Bool

unfoldable pub start : ℕ → List Text → Pool
start workers uuids = record {
  unsent = uuids;
  is_sent = false;
  sent = [];
  idle = workers;
  taken = [];
  fetching = [];
  results = [];
  is_closed = false;
  collected = [];
  cancelled = false;
}

-- What `GetLogEntryByUUID` gives for a UUID.
unfoldable pub fetch : (Text → Option LogEntry) → Text → FetchResult
fetch get uuid = record { uuid = uuid; entry = get uuid }

module _ (get : Text → Option LogEntry) where
  pub data Step (p : Pool) (q : Pool) : Type 0 where
    -- the sender puts a UUID into the channel
    send :
        (u : Text) (us : List Text)
        → p.is_sent ≡ false
        → p.unsent ≡ u ∷ us
        → q ≡ record p { unsent = us; sent = p.sent ++ (u ∷ []) }
        → Step p q
    -- it closes the channel after the last
    close : p.is_sent ≡ false → p.unsent ≡ [] → q ≡ record p { is_sent = true } → Step p q
    -- or gives up, with the context cancelled, and closes it
    stop_sending :
        p.cancelled ≡ true
        → p.is_sent ≡ false
        → q ≡ record p { unsent = []; is_sent = true }
        → Step p q
    -- a worker receives a UUID
    take :
        (n : ℕ) (u : Text) (us : List Text)
        → p.idle ≡ suc n
        → p.sent ≡ u ∷ us
        → q ≡ record p { idle = n; sent = us; taken = u ∷ p.taken }
        → Step p q
    -- it finds the context not cancelled, and fetches
    begin :
        (xs : List Text) (u : Text) (ys : List Text)
        → p.cancelled ≡ false
        → p.taken ≡ xs ++ (u ∷ ys)
        → q ≡ record p { taken = xs ++ ys; fetching = u ∷ p.fetching }
        → Step p q
    -- or finds it cancelled, and ends
    drop :
        (xs : List Text) (u : Text) (ys : List Text)
        → p.cancelled ≡ true
        → p.taken ≡ xs ++ (u ∷ ys)
        → q ≡ record p { taken = xs ++ ys }
        → Step p q
    -- it sends what the log has, and goes on
    deliver :
        (xs : List Text) (u : Text) (ys : List Text)
        → p.fetching ≡ xs ++ (u ∷ ys)
        → q ≡ record p {
          idle = suc p.idle;
          fetching = xs ++ ys;
          results = p.results ++ (fetch get u ∷ []);
        }
        → Step p q
    -- a fetch in a cancelled context can fail
    fail :
        (xs : List Text) (u : Text) (ys : List Text)
        → p.cancelled ≡ true
        → p.fetching ≡ xs ++ (u ∷ ys)
        → q ≡ record p {
          idle = suc p.idle;
          fetching = xs ++ ys;
          results = p.results ++ (record { uuid = u; entry = none } ∷ []);
        }
        → Step p q
    -- and the worker can end without sending
    abandon :
        (xs : List Text) (u : Text) (ys : List Text)
        → p.cancelled ≡ true
        → p.fetching ≡ xs ++ (u ∷ ys)
        → q ≡ record p { fetching = xs ++ ys }
        → Step p q
    -- a worker ends at the closed and empty channel
    quit :
        (n : ℕ)
        → p.idle ≡ suc n
        → p.sent ≡ []
        → p.is_sent ≡ true
        → q ≡ record p { idle = n }
        → Step p q
    -- once all workers have ended, the channel of the results is closed
    close_results :
        p.idle ≡ 0
        → p.taken ≡ []
        → p.fetching ≡ []
        → p.is_closed ≡ false
        → q ≡ record p { is_closed = true }
        → Step p q
    -- the loop over the results
    collect :
        (r : FetchResult) (rs : List FetchResult)
        → p.results ≡ r ∷ rs
        → q ≡ record p { results = rs; collected = p.collected ++ (r ∷ []) }
        → Step p q
    -- the context is cancelled
    cancel : p.cancelled ≡ false → q ≡ record p { cancelled = true } → Step p q

  pub data Reach : Pool → Pool → Type 0 where
    here : {p : Pool} → Reach p p
    next : {p q r : Pool} → Step p q → Reach q r → Reach p r

-- The loop over the results has come to its end.
pub record IsDone (p : Pool) : Type 0 where
  pub closed : p.is_closed ≡ true
  pub results : p.results ≡ []

-- The entries of the results that have one.
unfoldable pub entries_of : List FetchResult → List LogEntry
entries_of [] = []
entries_of (r ∷ rs) = let rest = entries_of rs in elim r.entry [ none ↦ rest | some e ↦ e ∷ rest ]

-- What `fetchLogEntriesParallel` returns after the loop over the results.
unfoldable pub returned : Pool → Option (List LogEntry)
returned p = if p.cancelled then none else some (entries_of p.collected)
