-- ===== src/Parallel/Complete.antt =====
-- When the loop is left, every object has been accounted for.
use docke_compose_customize.Prelude.{
  ℕ, ◌+◌, ◌≤◌, ◌<◌, ◌≡◌, refl, List, [], ◌∷◌, ◌++◌, arith, nat_eq, elem, count, bit, length,
  Bool-cases, inl, inr,
}
use docke_compose_customize.Parallel.{
  Event, done, raised, upstream, stop, Phase, feeding, waiting, stopped, Run, add, is_done,
  has_failed_dep, is_ready, feed, close, handle, start, Step, look, finish_feed, take, reorder,
  timeout, return, throw, Reach, here, next,
}
use docke_compose_customize.Parallel.Invariant.{tally, tally-append}

count-add :
    (o a : ℕ) (xs : List ℕ)
    → count o xs ≡ bit (elem o xs)
    → count o (add a xs) ≡ bit (elem o (add a xs))
unfolding add
count-add o a xs h = elim (Bool-cases (elem a xs)) [
  | inl old ↦ rw old h
  | inr new ↦ ground (arith, nat_eq.beq_iff a o)
]

length-add : (a : ℕ) (xs : List ℕ) → length xs ≤ length (add a xs)
unfolding add
length-add a xs = ground arith

abbrev pub stop_of : Event → ℕ
stop_of stop = 1
stop_of _ = 0

abbrev pub has_stopped : Phase → ℕ
has_stopped stopped = 1
has_stopped _ = 0

module _ (objects : List ℕ) (get_deps : ℕ → List ℕ) where
  -- The sets hold no object twice, and STOP is sent only after all objects are in them.
  pub record IsClosed (r : Run) : Type 0 where
    pub finished_distinct : (o : ℕ) → count o r.state.finished ≡ bit (elem o r.state.finished)
    pub failed_distinct : (o : ℕ) → count o r.state.failed ≡ bit (elem o r.state.failed)
    pub all_done :
        0 < tally stop_of r.queue + has_stopped r.phase
        → length objects ≤ length r.state.finished + length r.state.failed

  IsClosed-feed :
      (obj : ℕ) (rest : List ℕ) (r : Run)
      → r.phase ≡ feeding (obj ∷ rest)
      → IsClosed r
      → IsClosed (feed objects get_deps obj rest r)
  unfolding feed
  IsClosed-feed obj rest r p c = elim (Bool-cases (has_failed_dep objects get_deps r.state obj)) [
    | inl failed ↦ rw failed (record {
      finished_distinct = c.finished_distinct;
      failed_distinct = λ o. count-add o obj r.state.failed (c.failed_distinct o);
      all_done = λ h. omega (
        arith,
        c.all_done (ground (arith, tally-append stop_of r.queue (upstream obj ∷ []))),
        length-add obj r.state.failed,
      );
    })
    | inr fine ↦ elim (Bool-cases (is_ready objects get_deps r.state obj)) [
      | inl ready ↦
          rw (fine, ready)
            (record {
              finished_distinct = c.finished_distinct;
              failed_distinct = c.failed_distinct;
              all_done = λ h. c.all_done (ground arith);
            })
      | inr blocked ↦
          rw (fine, blocked)
            (record {
              finished_distinct = c.finished_distinct;
              failed_distinct = c.failed_distinct;
              all_done = λ h. c.all_done (ground arith);
            })
    ]
  ]

  IsClosed-close :
      (r : Run) → r.phase ≡ feeding [] → IsClosed r → IsClosed (close objects get_deps r)
  unfolding close is_done
  IsClosed-close r p c = record {
    finished_distinct = c.finished_distinct;
    failed_distinct = c.failed_distinct;
    all_done = λ h. ground (arith, c.all_done, tally-append stop_of r.queue (stop ∷ []));
  }

  IsClosed-handle :
      (e : Event) (rest : List Event) (r : Run)
      → r.phase ≡ waiting
      → r.queue ≡ e ∷ rest
      → IsClosed r
      → IsClosed (handle objects get_deps e rest r)
  unfolding handle
  IsClosed-handle stop rest r p q c = record {
    finished_distinct = c.finished_distinct;
    failed_distinct = c.failed_distinct;
    all_done = λ h. c.all_done (ground arith);
  }
  IsClosed-handle (done obj) rest r p q c = record {
    finished_distinct = λ o. count-add o obj r.state.finished (c.finished_distinct o);
    failed_distinct = c.failed_distinct;
    all_done = λ h. omega (arith, c.all_done (ground arith), length-add obj r.state.finished);
  }
  IsClosed-handle (raised obj) rest r p q c = record {
    finished_distinct = c.finished_distinct;
    failed_distinct = λ o. count-add o obj r.state.failed (c.failed_distinct o);
    all_done = λ h. omega (arith, c.all_done (ground arith), length-add obj r.state.failed);
  }
  IsClosed-handle (upstream obj) rest r p q c = record {
    finished_distinct = c.finished_distinct;
    failed_distinct = λ o. count-add o obj r.state.failed (c.failed_distinct o);
    all_done = λ h. omega (arith, c.all_done (ground arith), length-add obj r.state.failed);
  }

  IsClosed-queue :
      (r : Run) (threads : List ℕ) (e : Event)
      → stop_of e ≡ 0
      → IsClosed r
      → IsClosed (record r { threads = threads; queue = r.queue ++ e ∷ [] })
  IsClosed-queue r threads e z c = record {
    finished_distinct = c.finished_distinct;
    failed_distinct = c.failed_distinct;
    all_done = λ h. c.all_done (omega (arith, z, tally-append stop_of r.queue (e ∷ [])));
  }

  IsClosed-Step : (r r' : Run) → Step objects get_deps r r' → IsClosed r → IsClosed r'
  IsClosed-Step r r' (look obj rest p e) c = rw e (IsClosed-feed obj rest r p c)
  IsClosed-Step r r' (finish_feed p e) c = rw e (IsClosed-close r p c)
  IsClosed-Step r r' (take ev rest p q e) c = rw e (IsClosed-handle ev rest r p q c)
  IsClosed-Step r r' (reorder xs ys p same e) c = rw e (record {
    finished_distinct = c.finished_distinct;
    failed_distinct = c.failed_distinct;
    all_done = λ h. c.all_done (ground arith);
  })
  IsClosed-Step r r' (timeout p q e) c = rw e (record {
    finished_distinct = c.finished_distinct;
    failed_distinct = c.failed_distinct;
    all_done = λ h. c.all_done (ground arith);
  })
  IsClosed-Step r r' (return obj h e) c = rw e (IsClosed-queue r _ (done obj) refl c)
  IsClosed-Step r r' (throw obj h e) c = rw e (IsClosed-queue r _ (raised obj) refl c)

  pub Reach-IsClosed : {r : Run} → Reach objects get_deps r → IsClosed r
  unfolding start
  Reach-IsClosed here = record {
    finished_distinct = λ o. refl;
    failed_distinct = λ o. refl;
    all_done = λ h. absurd (omega arith);
  }
  Reach-IsClosed (next {r = r} {r' = r'} reach step) =
      IsClosed-Step r r' step (Reach-IsClosed reach)
