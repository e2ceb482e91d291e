-- ===== src/Parallel/Stopped.antt =====
-- STOP is the last event that matters: behind it the queue holds no upstream error.
use docke_compose_customize.Prelude.{
  ℕ, ◌+◌, ◌≤◌, ◌<◌, ◌≡◌, refl, true, List, [], ◌∷◌, ◌++◌, arith, nat_eq, elem, count, bit,
  length-append, count-append, count-pos_of_elem, count-le_of_length, ltb, if◌then◌else◌,
  Bool-cases, inl, inr,
}
use docke_compose_customize.Parallel.{
  Event, done, raised, upstream, stop, feeding, stopped, Run, has_failed_dep, is_ready, feed, close,
  handle, start, Step, look, finish_feed, take, reorder, timeout, return, throw, Reach, here, next,
}
use docke_compose_customize.Parallel.Invariant.{
  Account, Reach-Account, tally, tally-append, done_of, raised_of, upstream_of,
}
use docke_compose_customize.Parallel.Complete.{IsClosed, Reach-IsClosed, stop_of, has_stopped}

-- The queue behind its first STOP.
abbrev after_stop : List Event → List Event
after_stop [] = []
after_stop (stop ∷ es) = es
after_stop (done o ∷ es) = after_stop es
after_stop (raised o ∷ es) = after_stop es
after_stop (upstream o ∷ es) = after_stop es

tally-after_stop :
    (f : Event → ℕ) (es : List Event) (e : Event)
    → tally f (after_stop (es ++ e ∷ []))
      ≡ (if ltb 0 (tally stop_of es) then tally f (after_stop es) + f e else 0)
tally-after_stop f [] stop = refl
tally-after_stop f [] (done o) = refl
tally-after_stop f [] (raised o) = refl
tally-after_stop f [] (upstream o) = refl
tally-after_stop f (stop ∷ es) e = ground (arith, tally-append f es (e ∷ []))
tally-after_stop f (done o ∷ es) e = ground (arith, tally-after_stop f es e)
tally-after_stop f (raised o ∷ es) e = ground (arith, tally-after_stop f es e)
tally-after_stop f (upstream o ∷ es) e = ground (arith, tally-after_stop f es e)

after_stop-le : (f : Event → ℕ) (es : List Event) → tally f (after_stop es) ≤ tally f es
after_stop-le f [] = omega arith
after_stop-le f (stop ∷ es) = omega arith
after_stop-le f (done o ∷ es) = omega (arith, after_stop-le f es)
after_stop-le f (raised o ∷ es) = omega (arith, after_stop-le f es)
after_stop-le f (upstream o ∷ es) = omega (arith, after_stop-le f es)

module _ (objects : List ℕ) (get_deps : ℕ → List ℕ) (distinct : (o : ℕ) → count o objects ≤ 1) where
  within :
      (o : ℕ) (r : Run)
      → Account objects get_deps o r
      → IsClosed objects get_deps r
      → count o (r.state.finished ++ r.state.failed) ≤ count o objects
  within o r a c = elim (Bool-cases (elem o objects)) [
    | inl inside ↦ ground (
      arith,
      count-append o r.state.finished r.state.failed,
      c.finished_distinct o,
      c.failed_distinct o,
      count-pos_of_elem o objects inside,
    )
    | inr outside ↦ ground (
      arith,
      count-append o r.state.finished r.state.failed,
      c.finished_distinct o,
      c.failed_distinct o,
    )
  ]

  -- Once STOP has been sent, every object has finished or failed.
  pub all_processed :
      (o : ℕ) (r : Run)
      → ((p : ℕ) → Account objects get_deps p r)
      → IsClosed objects get_deps r
      → 0 < tally stop_of r.queue + has_stopped r.phase
      → elem o objects ≡ true
      → 1 ≤ bit (elem o r.state.finished) + bit (elem o r.state.failed)
  all_processed o r a c h inside = omega (
    arith,
    count-le_of_length (r.state.finished ++ r.state.failed) objects (λ p. within p r (a p) c)
        (omega (arith, c.all_done h, length-append r.state.finished r.state.failed)) o,
    count-append o r.state.finished r.state.failed,
    c.finished_distinct o,
    c.failed_distinct o,
    count-pos_of_elem o objects inside,
  )

  -- While an object is still to be looked at, STOP has not been sent.
  no_stop :
      (obj : ℕ) (rest : List ℕ) (r : Run)
      → r.phase ≡ feeding (obj ∷ rest)
      → ((p : ℕ) → Account objects get_deps p r)
      → IsClosed objects get_deps r
      → tally stop_of r.queue ≡ 0
  no_stop obj rest r p a c =
      let account = a obj in
      elim (Bool-cases (elem obj objects)) [
        | inr outside ↦ absurd (ground (arith, account.known outside))
        | inl inside ↦ elim (Bool-cases (ltb 0 (tally stop_of r.queue))) [
          | inl sent ↦ absurd (ground (arith, all_processed obj r a c (ground arith) inside))
          | inr unsent ↦ ground arith
        ]
      ]

  record IsLast (o : ℕ) (r : Run) : Type 0 where
    behind : tally (upstream_of o) (after_stop r.queue) ≡ 0
    left : has_stopped r.phase ≡ 1 → tally (upstream_of o) r.queue ≡ 0

  IsLast-feed :
      (o obj : ℕ) (rest : List ℕ) (r : Run)
      → r.phase ≡ feeding (obj ∷ rest)
      → ((p : ℕ) → Account objects get_deps p r)
      → IsClosed objects get_deps r
      → IsLast o r
      → IsLast o (feed objects get_deps obj rest r)
  unfolding feed
  IsLast-feed o obj rest r p a c l =
      elim (Bool-cases (has_failed_dep objects get_deps r.state obj)) [
        | inl failed ↦ rw failed (record {
          behind = ground (
            arith,
            no_stop obj rest r p a c,
            tally-after_stop (upstream_of o) r.queue (upstream obj),
          );
          left = λ h. cc;
        })
        | inr fine ↦ elim (Bool-cases (is_ready objects get_deps r.state obj)) [
          | inl ready ↦
              rw (fine, ready) (record { behind = l.behind; left = λ h. absurd (omega arith) })
          | inr blocked ↦
              rw (fine, blocked) (record { behind = l.behind; left = λ h. absurd (omega arith) })
        ]
      ]

  IsLast-Step :
      (o : ℕ) (r r' : Run)
      → ((p : ℕ) → Account objects get_deps p r)
      → IsClosed objects get_deps r
      → Step objects get_deps r r'
      → IsLast o r
      → IsLast o r'
  unfolding close handle
  IsLast-Step o r r' a c (look obj rest p e) l = rw e (IsLast-feed o obj rest r p a c l)
  IsLast-Step o r r' a c (finish_feed p e) l = rw e (record {
    behind = ground (arith, l.behind, tally-after_stop (upstream_of o) r.queue stop);
    left = λ h. absurd (omega arith);
  })
  IsLast-Step o r r' a c (take stop rest p q e) l = rw e (record {
    behind = ground (arith, l.behind, after_stop-le (upstream_of o) rest);
    left = λ h. ground (arith, l.behind);
  })
  IsLast-Step o r r' a c (take (done obj) rest p q e) l =
      rw e (record { behind = ground (arith, l.behind); left = λ h. absurd (omega arith) })
  IsLast-Step o r r' a c (take (raised obj) rest p q e) l =
      rw e (record { behind = ground (arith, l.behind); left = λ h. absurd (omega arith) })
  IsLast-Step o r r' a c (take (upstream obj) rest p q e) l =
      rw e (record { behind = ground (arith, l.behind); left = λ h. absurd (omega arith) })
  IsLast-Step o r r' a c (reorder xs ys p same e) l =
      rw e (record { behind = l.behind; left = λ h. absurd (omega arith) })
  IsLast-Step o r r' a c (timeout p q e) l =
      rw e (record { behind = l.behind; left = λ h. absurd (omega arith) })
  IsLast-Step o r r' a c (return obj h e) l = rw e (record {
    behind = ground (arith, l.behind, tally-after_stop (upstream_of o) r.queue (done obj));
    left = λ k. omega (arith, l.left k, tally-append (upstream_of o) r.queue (done obj ∷ []));
  })
  IsLast-Step o r r' a c (throw obj h e) l = rw e (record {
    behind = ground (arith, l.behind, tally-after_stop (upstream_of o) r.queue (raised obj));
    left = λ k. omega (arith, l.left k, tally-append (upstream_of o) r.queue (raised obj ∷ []));
  })

  Reach-IsLast : (o : ℕ) {r : Run} → Reach objects get_deps r → IsLast o r
  unfolding start
  Reach-IsLast o here = record { behind = refl; left = λ h. refl }
  Reach-IsLast o (next {r = r} {r' = r'} reach step) =
      IsLast-Step o r r' (λ p. Reach-Account objects get_deps p (distinct p) reach)
        (Reach-IsClosed objects get_deps reach) step (Reach-IsLast o reach)

  -- When the loop over distinct objects is left, exactly one event has been yielded for each of
  -- them, a result, an exception or an upstream error, and no thread works on it any more.
  pub stopped_complete :
      (o : ℕ) {r : Run}
      → Reach objects get_deps r
      → r.phase ≡ stopped
      → elem o objects ≡ true
      → (tally (done_of o) r.yielded
            + tally (raised_of o) r.yielded
            + tally (upstream_of o) r.yielded
          ≡ 1)
        × (count o r.threads ≡ 0)
  stopped_complete o {r} reach p inside =
      let account = Reach-Account objects get_deps o (distinct o) reach in
      let last = (Reach-IsLast o reach).left (rw p) in
      let full =
        all_processed o r (λ q. Reach-Account objects get_deps q (distinct q) reach)
          (Reach-IsClosed objects get_deps reach) (rw p (omega arith)) inside in
      ground arith
