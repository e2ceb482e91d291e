-- ===== src/Parallel/Samples.antt =====
-- A run over two objects, of which the second depends on the first, and the theorems at it.
use docke_compose_customize.Prelude.{
  ℕ, zero, suc, ◌+◌, ◌≤◌, ◌<◌, ◌≡◌, refl, true, false, List, [], ◌∷◌, arith, count, elem, nat_eq,
  nat_beq_iff,
}
use docke_compose_customize.Parallel.{
  done, raised, upstream, stop, feeding, waiting, stopped, Run, add, is_done, pending,
  has_failed_dep, is_ready, feed, close, handle, start, look, finish_feed, take, return, throw,
  Reach, here, next,
}
use docke_compose_customize.Parallel.Invariant.{tally, done_of, raised_of, upstream_of}
use docke_compose_customize.Parallel.Order.{started-after-deps}
use docke_compose_customize.Parallel.Stopped.{stopped_complete}
use docke_compose_customize.Parallel.Progress.{no_deadlock}

abbrev objects : List ℕ
objects = 1 ∷ 2 ∷ []

abbrev get_deps : ℕ → List ℕ
get_deps zero = []
get_deps (suc zero) = []
get_deps (suc (suc n)) = 1 ∷ []

running : Unit {0}
unfolding add is_done pending has_failed_dep is_ready feed close handle start
running = tt

abbrev first_started : Run
first_started = record {
  state = record { started = 1 ∷ []; finished = []; failed = [] };
  phase = waiting;
  queue = [];
  threads = 1 ∷ [];
  yielded = [];
}

Reach-first : Reach objects get_deps first_started
unfolding running
Reach-first =
    next (next (next here (look 1 (2 ∷ []) refl refl)) (look 2 [] refl refl))
      (finish_feed refl refl)

abbrev second_started : Run
second_started = record {
  state = record { started = 2 ∷ 1 ∷ []; finished = 1 ∷ []; failed = [] };
  phase = feeding [];
  queue = [];
  threads = 2 ∷ [];
  yielded = done 1 ∷ [];
}

Reach-second : Reach objects get_deps second_started
unfolding running
Reach-second =
    next (next (next Reach-first (return 1 refl refl)) (take (done 1) [] refl refl refl))
      (look 2 [] refl refl)

-- the first object raises, and the second is not run
abbrev failed_run : Run
failed_run = record {
  state = record { started = 1 ∷ []; finished = []; failed = 2 ∷ 1 ∷ [] };
  phase = stopped;
  queue = stop ∷ [];
  threads = [];
  yielded = raised 1 ∷ upstream 2 ∷ [];
}

Reach-failed : Reach objects get_deps failed_run
unfolding running
Reach-failed =
    next
      (next
        (next
          (next
            (next (next (next Reach-first (throw 1 refl refl)) (take (raised 1) [] refl refl refl))
              (look 2 [] refl refl))
            (finish_feed refl refl))
          (take (upstream 2) (stop ∷ []) refl refl refl))
        (finish_feed refl refl))
      (take stop (stop ∷ []) refl refl refl)

distinct : (o : ℕ) → count o objects ≤ 1
distinct o = ground (arith, nat_beq_iff 1 o, nat_beq_iff 2 o)

ranked : (o d : ℕ) → elem d (get_deps o) ≡ true → elem d objects ≡ true → d < o
ranked zero d h k = absurd (ground arith)
ranked (suc zero) d h k = absurd (ground arith)
ranked (suc (suc n)) d h k = ground (arith, nat_beq_iff 1 d)

started-after-deps_example :
    (tally (done_of 1) second_started.yielded ≡ 1) × (elem 1 second_started.state.failed ≡ false)
started-after-deps_example =
    started-after-deps objects get_deps 2 1 (distinct 1) Reach-second refl refl refl

stopped_complete_example :
    (tally (done_of 2) failed_run.yielded
        + tally (raised_of 2) failed_run.yielded
        + tally (upstream_of 2) failed_run.yielded
      ≡ 1)
    × (count 2 failed_run.threads ≡ 0)
stopped_complete_example = stopped_complete objects get_deps distinct 2 Reach-failed refl refl

no_deadlock_example : ¬ (first_started.threads ≡ [])
no_deadlock_example =
    no_deadlock objects get_deps distinct (λ o. o) ranked first_started Reach-first refl refl
