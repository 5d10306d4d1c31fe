-- ===== src/Iop/Pipeline.antt =====
-- src/iop/pipeline.rs: `run`, the fold over pure steps, and `run_async`, the loop with an early
-- return. What a future of a step does outside its result is not modelled here (see Orchestrator).
use metri_engine.Base.{◌≡◌, refl, List, [], ◌∷◌, ◌++◌, Result, ok, err, ◌>>=◌}

abbrev pub Step : Type 0 → Type 0 → Type 0
Step Ctx E = Ctx → Result E Ctx

module _ {Ctx E : Type 0} where
  -- `steps.iter().fold(acc, ...)`
  unfoldable pub fold : List (Step Ctx E) → Result E Ctx → Result E Ctx
  fold [] acc = acc
  fold (step ∷ steps) (ok ctx) = fold steps (step ctx)
  fold (step ∷ steps) (err e) = fold steps (err e)

  unfoldable pub run : List (Step Ctx E) → Ctx → Result E Ctx
  unfolding fold
  run steps ctx = fold steps (ok ctx)

  -- the `for` loop of `run_async` over `current`
  unfoldable pub async_loop : List (Step Ctx E) → Result E Ctx → Result E Ctx
  async_loop [] current = current
  async_loop (step ∷ steps) (ok c) = async_loop steps (step c)
  async_loop (step ∷ steps) (err e) = err e

  unfoldable pub run_async : List (Step Ctx E) → Ctx → Result E Ctx
  unfolding async_loop
  run_async steps ctx = async_loop steps (ok ctx)

  fold_err : (steps : List (Step Ctx E)) (e : E) → fold steps (err e) ≡ err e
  unfolding fold
  fold_err [] e = refl
  fold_err (step ∷ steps) e = fold_err steps e

  fold-append :
      (xs ys : List (Step Ctx E)) (r : Result E Ctx) → fold (xs ++ ys) r ≡ (fold xs r >>= run ys)
  unfolding fold run
  fold-append [] ys (ok c) = refl
  fold-append [] ys (err e) = fold_err ys e
  fold-append (x ∷ xs) ys (ok c) = fold-append xs ys (x c)
  fold-append (x ∷ xs) ys (err e) = fold-append xs ys (err e)

  -- Two pipelines in a row are one: the second runs on the context that the first returns, and not
  -- at all if the first fails.
  pub run-append :
      (xs ys : List (Step Ctx E)) (ctx : Ctx) → run (xs ++ ys) ctx ≡ (run xs ctx >>= run ys)
  unfolding run
  run-append xs ys ctx = fold-append xs ys (ok ctx)

  async_loop-eq-fold :
      (steps : List (Step Ctx E)) (r : Result E Ctx) → async_loop steps r ≡ fold steps r
  unfolding async_loop fold
  async_loop-eq-fold [] r = refl
  async_loop-eq-fold (step ∷ steps) (ok c) = async_loop-eq-fold steps (step c)
  async_loop-eq-fold (step ∷ steps) (err e) = rw (fold_err steps e)

  -- The loop with the early return computes the fold.
  pub run_async-eq-run :
      (steps : List (Step Ctx E)) (ctx : Ctx) → run_async steps ctx ≡ run steps ctx
  unfolding run_async run
  run_async-eq-run steps ctx = async_loop-eq-fold steps (ok ctx)
