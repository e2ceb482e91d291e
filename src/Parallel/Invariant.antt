-- ===== src/Parallel/Invariant.antt =====
-- Where each object stands in a run, counted: in the producers, the queue and the yielded events.
use docke_compose_customize.Prelude.{
  ℕ, ◌+◌, ◌≤◌, ◌≡◌, true, false, not, ◌&&◌, ◌||◌, List, [], ◌∷◌, ◌++◌, arith, ◌==◌, nat_eq, elem,
  remove, count, count-remove, count-filter, count-zero_of_not-elem, bit, if◌then◌else◌, Bool-cases,
  inl, inr,
}
use docke_compose_customize.Parallel.{
  Event, done, raised, upstream, stop, Phase, feeding, waiting, stopped, State, Run, add, pending,
  feed, close, handle, start, Step, look, finish_feed, take, reorder, timeout, return, throw, Reach,
  here, next,
}

-- The objects that `feed_queue` still looks at.
abbrev pub looking : Phase → List ℕ
looking (feeding l) = l
looking waiting = []
looking stopped = []

abbrev pub done_of : ℕ → Event → ℕ
done_of o (done p) = bit (p == o)
done_of o _ = 0

abbrev pub raised_of : ℕ → Event → ℕ
raised_of o (raised p) = bit (p == o)
raised_of o _ = 0

abbrev pub upstream_of : ℕ → Event → ℕ
upstream_of o (upstream p) = bit (p == o)
upstream_of o _ = 0

-- How many events of a kind there are.
abbrev pub tally : (Event → ℕ) → List Event → ℕ
tally f [] = 0
tally f (e ∷ es) = f e + tally f es

pub tally-append :
    (f : Event → ℕ) (xs ys : List Event) → tally f (xs ++ ys) ≡ tally f xs + tally f ys
tally-append f [] ys = omega arith
tally-append f (x ∷ xs) ys = omega (arith, tally-append f xs ys)

pub elem-add : (o a : ℕ) (xs : List ℕ) → elem o (add a xs) ≡ (a == o || elem o xs)
unfolding add
elem-add o a xs = elim (Bool-cases (elem a xs)) [
  | inl old ↦ ground (arith, nat_eq.beq_iff a o)
  | inr new ↦ ground arith
]

module _ (objects : List ℕ) (get_deps : ℕ → List ℕ) where
  -- Each set of the state agrees with the events, and an object is in one place at most.
  pub record Account (o : ℕ) (r : Run) : Type 0 where
    pub finished_once : bit (elem o r.state.finished) ≡ tally (done_of o) r.yielded
    pub failed_once :
        bit (elem o r.state.failed)
        ≡ tally (raised_of o) r.yielded
          + tally (upstream_of o) r.queue
          + tally (upstream_of o) r.yielded
    pub started_once :
        bit (elem o r.state.started)
        ≡ count o r.threads
          + tally (done_of o) r.queue
          + tally (done_of o) r.yielded
          + tally (raised_of o) r.queue
          + tally (raised_of o) r.yielded
    pub one_place :
        count o (looking r.phase)
          + bit (elem o r.state.started)
          + tally (upstream_of o) r.queue
          + tally (upstream_of o) r.yielded
        ≤ 1
    pub known :
        elem o objects ≡ false
        → count o (looking r.phase) + bit (elem o r.state.started) + bit (elem o r.state.failed) ≡ 0

  Account-feed :
      (o obj : ℕ) (rest : List ℕ) (r : Run)
      → r.phase ≡ feeding (obj ∷ rest)
      → Account o r
      → Account o (feed objects get_deps obj rest r)
  unfolding feed
  Account-feed o obj rest r p a = ground (
    arith,
    elem-add o obj r.state.failed,
    elem-add o obj r.state.started,
    tally-append (done_of o) r.queue (upstream obj ∷ []),
    tally-append (raised_of o) r.queue (upstream obj ∷ []),
    tally-append (upstream_of o) r.queue (upstream obj ∷ []),
  )

  Account-close :
      (o : ℕ) (r : Run) → r.phase ≡ feeding [] → Account o r → Account o (close objects get_deps r)
  unfolding close
  Account-close o r p a = ground (
    arith,
    tally-append (done_of o) r.queue (stop ∷ []),
    tally-append (raised_of o) r.queue (stop ∷ []),
    tally-append (upstream_of o) r.queue (stop ∷ []),
  )

  -- An object is pending only if it is in none of the sets.
  pub count-pending :
      (o : ℕ) (s : State)
      → count o (pending objects get_deps s)
        ≡ (if elem o s.started || elem o s.finished || elem o s.failed then 0 else count o objects)
  unfolding pending
  count-pending o s = ground (
    arith,
    count-filter o
        (λ (x : ℕ). not (elem x s.started) && not (elem x s.finished) && not (elem x s.failed))
        objects,
  )

  Account-handle :
      (o : ℕ) (e : Event) (rest : List Event) (r : Run)
      → count o objects ≤ 1
      → r.phase ≡ waiting
      → r.queue ≡ e ∷ rest
      → Account o r
      → Account o (handle objects get_deps e rest r)
  unfolding handle
  Account-handle o stop rest r u p q a = ground arith
  Account-handle o (done obj) rest r u p q a = ground (
    arith,
    elem-add o obj r.state.finished,
    count-zero_of_not-elem o objects,
    count-pending o (record (r.state) { finished = add obj r.state.finished }),
    tally-append (done_of o) r.yielded (done obj ∷ []),
    tally-append (raised_of o) r.yielded (done obj ∷ []),
    tally-append (upstream_of o) r.yielded (done obj ∷ []),
  )
  Account-handle o (raised obj) rest r u p q a = ground (
    arith,
    elem-add o obj r.state.failed,
    count-zero_of_not-elem o objects,
    count-pending o (record (r.state) { failed = add obj r.state.failed }),
    tally-append (done_of o) r.yielded (raised obj ∷ []),
    tally-append (raised_of o) r.yielded (raised obj ∷ []),
    tally-append (upstream_of o) r.yielded (raised obj ∷ []),
  )
  Account-handle o (upstream obj) rest r u p q a = ground (
    arith,
    elem-add o obj r.state.failed,
    count-zero_of_not-elem o objects,
    count-pending o (record (r.state) { failed = add obj r.state.failed }),
    tally-append (done_of o) r.yielded (upstream obj ∷ []),
    tally-append (raised_of o) r.yielded (upstream obj ∷ []),
    tally-append (upstream_of o) r.yielded (upstream obj ∷ []),
  )

  Account-timeout :
      (o : ℕ) (r : Run)
      → count o objects ≤ 1
      → r.phase ≡ waiting
      → Account o r
      → Account o (record r { phase = feeding (pending objects get_deps r.state) })
  Account-timeout o r u p a =
      ground (arith, count-pending o r.state, count-zero_of_not-elem o objects)

  Account-reorder :
      (o : ℕ) (xs ys : List ℕ) (r : Run)
      → r.phase ≡ feeding xs
      → count o ys ≡ count o xs
      → Account o r
      → Account o (record r { phase = feeding ys })
  Account-reorder o xs ys r p same a = ground arith

  Account-return :
      (o obj : ℕ) (r : Run)
      → elem obj r.threads ≡ true
      → Account o r
      → Account o (record r { threads = remove obj r.threads; queue = r.queue ++ done obj ∷ [] })
  Account-return o obj r h a = ground (
    arith,
    count-remove o obj r.threads h,
    tally-append (done_of o) r.queue (done obj ∷ []),
    tally-append (raised_of o) r.queue (done obj ∷ []),
    tally-append (upstream_of o) r.queue (done obj ∷ []),
  )

  Account-throw :
      (o obj : ℕ) (r : Run)
      → elem obj r.threads ≡ true
      → Account o r
      → Account o (record r { threads = remove obj r.threads; queue = r.queue ++ raised obj ∷ [] })
  Account-throw o obj r h a = ground (
    arith,
    count-remove o obj r.threads h,
    tally-append (done_of o) r.queue (raised obj ∷ []),
    tally-append (raised_of o) r.queue (raised obj ∷ []),
    tally-append (upstream_of o) r.queue (raised obj ∷ []),
  )

  Account-start : (o : ℕ) → count o objects ≤ 1 → Account o (start objects get_deps)
  unfolding start
  Account-start o u = ground (
    arith,
    count-zero_of_not-elem o objects,
    count-pending o (record { started = []; finished = []; failed = [] }),
  )

  Account-Step :
      (o : ℕ) (r r' : Run)
      → count o objects ≤ 1
      → Step objects get_deps r r'
      → Account o r
      → Account o r'
  Account-Step o r r' u (look obj rest p e) a = rw e (Account-feed o obj rest r p a)
  Account-Step o r r' u (finish_feed p e) a = rw e (Account-close o r p a)
  Account-Step o r r' u (take ev rest p q e) a = rw e (Account-handle o ev rest r u p q a)
  Account-Step o r r' u (reorder xs ys p same e) a = rw e (Account-reorder o xs ys r p (same o) a)
  Account-Step o r r' u (timeout p q e) a = rw e (Account-timeout o r u p a)
  Account-Step o r r' u (return obj h e) a = rw e (Account-return o obj r h a)
  Account-Step o r r' u (throw obj h e) a = rw e (Account-throw o obj r h a)

  pub Reach-Account :
      (o : ℕ) {r : Run} → count o objects ≤ 1 → Reach objects get_deps r → Account o r
  Reach-Account o u here = Account-start o u
  Reach-Account o u (next {r = r} {r' = r'} reach step) =
      Account-Step o r r' u step (Reach-Account o u reach)
