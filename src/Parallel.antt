-- ===== src/Parallel.antt =====
-- compose/parallel.py: running a function over objects in parallel, after their dependencies.
-- Objects are handles, numbers. The state is that of the main thread (`State` and the position in
-- the loop), the results queue, and the producer threads that run. The main thread and the
-- producers share only the queue, so their interleavings are the sequences of steps below.
pub mod Invariant
pub mod Order
pub mod Complete
pub mod Stopped
pub mod Progress
pub mod Collect
pub mod Writer
pub mod Samples
use docke_compose_customize.Prelude.{
  ℕ, ◌+◌, ◌≤◌, ◌≡◌, Bool, true, false, not, ◌&&◌, ◌||◌, List, [], ◌∷◌, ◌++◌, elem, remove, filter,
  any, all, count, length, leb, nat_eq, if◌then◌else◌,
}

-- What is put on the results queue: (obj, result, None), (obj, None, exception),
-- (obj, None, UpstreamError()), and STOP.
pub data Event : Type 0 where
  done : ℕ → Event
  raised : ℕ → Event
  upstream : ℕ → Event
  stop : Event

-- The main thread is inside `feed_queue`, with these objects to look at; or waits at `results.get`;
-- or has left the loop.
pub data Phase : Type 0 where
  feeding : List ℕ → Phase
  waiting : Phase
  stopped : Phase

pub record State : Type 0 where
  pub started : List ℕ
  pub finished : List ℕ
  pub failed : List ℕ

pub record Run : Type 0 where
  pub state : State
  pub phase : Phase
  pub queue : List Event
  pub threads : List ℕ
  pub yielded : List Event

-- `set.add`
unfoldable pub add : ℕ → List ℕ → List ℕ
add a xs = if elem a xs then xs else a ∷ xs

module _ (objects : List ℕ) (get_deps : ℕ → List ℕ) where
  -- State.is_done
  unfoldable pub is_done : State → Bool
  is_done s = leb (length objects) (length s.finished + length s.failed)

  -- State.pending: the set difference; `reorder` below gives it any order
  unfoldable pub pending : State → List ℕ
  pending s =
      filter (λ o. not (elem o s.started) && not (elem o s.finished) && not (elem o s.failed))
        objects

  unfoldable pub has_failed_dep : State → ℕ → Bool
  has_failed_dep s obj = any (λ dep. elem dep s.failed) (get_deps obj)

  unfoldable pub is_ready : State → ℕ → Bool
  is_ready s obj = all (λ dep. not (elem dep objects) || elem dep s.finished) (get_deps obj)

  -- one round of the `for` loop of `feed_queue`
  unfoldable pub feed : ℕ → List ℕ → Run → Run
  unfolding has_failed_dep is_ready
  feed obj rest r =
      if has_failed_dep r.state obj
      then record r {
        state = record (r.state) { failed = add obj r.state.failed };
        phase = feeding rest;
        queue = r.queue ++ upstream obj ∷ [];
      }
      else if is_ready r.state obj
      then record r {
        state = record (r.state) { started = add obj r.state.started };
        phase = feeding rest;
        threads = obj ∷ r.threads;
      }
      else record r { phase = feeding rest }

  -- the end of `feed_queue`
  unfoldable pub close : Run → Run
  unfolding is_done
  close r = record r {
    phase = waiting;
    queue = if is_done r.state then r.queue ++ stop ∷ [] else r.queue;
  }

  -- the main loop from `event = results.get(...)` to the next `feed_queue`
  unfoldable pub handle : Event → List Event → Run → Run
  unfolding pending
  handle stop rest r = record r { phase = stopped; queue = rest }
  handle (done obj) rest r =
      let s = record (r.state) { finished = add obj r.state.finished } in
      record r {
        state = s;
        phase = feeding (pending s);
        queue = rest;
        yielded = r.yielded ++ done obj ∷ [];
      }
  handle (raised obj) rest r =
      let s = record (r.state) { failed = add obj r.state.failed } in
      record r {
        state = s;
        phase = feeding (pending s);
        queue = rest;
        yielded = r.yielded ++ raised obj ∷ [];
      }
  handle (upstream obj) rest r =
      let s = record (r.state) { failed = add obj r.state.failed } in
      record r {
        state = s;
        phase = feeding (pending s);
        queue = rest;
        yielded = r.yielded ++ upstream obj ∷ [];
      }

  unfoldable pub start : Run
  unfolding pending
  start =
      let s : State = record { started = []; finished = []; failed = [] } in
      record { state = s; phase = feeding (pending s); queue = []; threads = []; yielded = [] }

  -- A step of the main thread, a timeout of `results.get`, or the end of a producer thread, which
  -- puts its result or its exception on the queue.
  pub data Step (r : Run) : Run → Type 0 where
    look :
        (obj : ℕ) (rest : List ℕ) {r' : Run}
        → r.phase ≡ feeding (obj ∷ rest)
        → r' ≡ feed obj rest r
        → Step r r'
    finish_feed : {r' : Run} → r.phase ≡ feeding [] → r' ≡ close r → Step r r'
    take :
        (e : Event) (rest : List Event) {r' : Run}
        → r.phase ≡ waiting
        → r.queue ≡ e ∷ rest
        → r' ≡ handle e rest r
        → Step r r'
    -- the pending objects are a set, which the `for` loop goes through in any order
    reorder :
        (xs ys : List ℕ) {r' : Run}
        → r.phase ≡ feeding xs
        → ((o : ℕ) → count o ys ≡ count o xs)
        → r' ≡ record r { phase = feeding ys }
        → Step r r'
    timeout :
        {r' : Run}
        → r.phase ≡ waiting
        → r.queue ≡ []
        → r' ≡ record r { phase = feeding (pending r.state) }
        → Step r r'
    return :
        (obj : ℕ) {r' : Run}
        → elem obj r.threads ≡ true
        → r' ≡ record r { threads = remove obj r.threads; queue = r.queue ++ done obj ∷ [] }
        → Step r r'
    throw :
        (obj : ℕ) {r' : Run}
        → elem obj r.threads ≡ true
        → r' ≡ record r { threads = remove obj r.threads; queue = r.queue ++ raised obj ∷ [] }
        → Step r r'

  pub data Reach : Run → Type 0 where
    here : Reach start
    next : {r r' : Run} → Reach r → Step r r' → Reach r'
