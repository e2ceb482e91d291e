-- ===== src/Service/Kept.antt =====
-- Methods that make calls of a certain kind alone, whatever the client answers and however they end.
use docke_compose_customize.Prelude.{
  ◌≡◌, refl, Bool, true, ◌&&◌, List, [], ◌∷◌, ◌++◌, all, arith, if◌then◌else◌, ap,
}
use docke_compose_customize.Result.{Error, Result, ok, err}
use docke_compose_customize.Service.Client.{Call, Daemon, M, pure, raise, ◌>>=◌, call}
use docke_compose_customize.Service.Calls.{
  Post, Triple, Triple-pure, Triple-bind, Triple-if, Triple-call,
}

all-append : (p : Call → Bool) (xs ys : List Call) → all p (xs ++ ys) ≡ (all p xs && all p ys)
all-append p [] ys = refl
all-append p (x ∷ xs) ys = ground (arith, all-append p xs ys)

module _ (daemon : Daemon) (keeps : Call → Bool) (log : List Call) where
  abbrev pub Kept : List Call → Type 0
  Kept calls = all keeps calls ≡ true

  abbrev pub Keeps : {A : Type 0} → M A → Type 0
  Keeps m = Triple log Kept Kept (λ _. Kept) m

  pub call-Keeps : (c : Call) → keeps c ≡ true → Keeps (call daemon c)
  call-Keeps c h =
      Triple-call log Kept daemon Kept (λ _. Kept) c (λ calls i. grown calls i)
        (λ calls i. grown calls i)
    where
      grown : (calls : List Call) → Kept calls → Kept (calls ++ c ∷ [])
      grown calls i = ground (arith, all-append keeps calls (c ∷ []), h, i)

  pub bind-Keeps :
      {A B : Type 0} (m : M A) (f : A → M B) → Keeps m → ((a : A) → Keeps (f a)) → Keeps (m >>= f)
  bind-Keeps m f h k = Triple-bind log Kept Kept (λ _. Kept) (λ _. Kept) m f h k

  pub pure-Keeps : {A : Type 0} (a : A) → Keeps (pure a)
  pure-Keeps a = Triple-pure log Kept Kept (λ _. Kept) a (λ calls i. i)

  pub raise-Keeps : (e : Error) → Keeps (raise {A = Unit {0}} e)
  raise-Keeps e calls i = (calls, refl, i)

  pub if-Keeps :
      {A : Type 0} (b : Bool) (m n : M A) → Keeps m → Keeps n → Keeps (if b then m else n)
  if-Keeps b m n h k = Triple-if log Kept Kept (λ _. Kept) b m n h k

  -- a handler of exceptions makes no call
  abbrev pub Handled : {A B : Type 0} → (Result A → Result B) → Type 0
  Handled {A} {B} f =
      (r : Result A) (after : List Call)
      → Post log Kept (λ _. Kept) r after
      → Post log Kept (λ _. Kept) (f r) after

  Post-calls :
      {A : Type 0} (r : Result A) (after : List Call)
      → Post log Kept (λ _. Kept) r after
      → (calls : List Call) × (after ≡ log ++ calls) × Kept calls
  Post-calls (ok a) after h = h
  Post-calls (err e) after h = h

  -- `except`, with a handler that makes calls
  pub recover-Keeps :
      {A B : Type 0} (m : M A) (handler : Result A → M B)
      → Keeps m
      → ((r : Result A) → Keeps (handler r))
      → Keeps (λ at. handler (m at).0 (m at).1)
  recover-Keeps m handler h k calls i =
      let (made, same, kept) = Post-calls (m (log ++ calls)).0 (m (log ++ calls)).1 (h calls i) in
      rw same (k (m (log ++ calls)).0 made kept)

pub append_nil : (log : List Call) → log ++ [] ≡ log
append_nil [] = refl
append_nil (x ∷ xs) = ap (λ rest. x ∷ rest) (append_nil xs)

-- the calls after `log`, however the method ends
abbrev pub Made : (List Call → Type 0) → {A : Type 0} → List Call → Result A → List Call → Type 0
Made P log r after = Post log P (λ _. P) r after
