-- ===== src/Iop/Orchestrator/Compensation.antt =====
-- What `run_steps` does on each path: the plain sequence of the steps, and the undoing.
use mathlib.Core.List.{reverse, reverse-cons, append-nil, append_assoc}
use mathlib.Core.Path.{ap₂}
use metri_engine.Base.{
  ◌≡◌, refl, ◌∙◌, sym, ap, inl, inr, Bool, true, Option, none, List, [], ◌∷◌, ◌++◌, Result, ok, err,
  Result-cases,
}
use metri_engine.Errors.{ErrorCode}
use metri_engine.Iop.Orchestrator.{IopStep, compensate_all, undo_ctx, steps_loop, run_steps}

module _ {Ctx W : Type 0} where
  -- The steps in order, with no compensation: what a run is if nothing fails.
  abbrev go_on :
      (Ctx → W → Result ErrorCode Ctx × W) → Result ErrorCode Ctx → W → Result ErrorCode Ctx × W
  go_on f (ok ctx) w = f ctx w
  go_on f (err e) w = (err e, w)

  unfoldable pub chain : List (IopStep Ctx W) → Ctx → W → Result ErrorCode Ctx × W
  chain [] ctx w = (ok ctx, w)
  chain (step ∷ steps) ctx w =
      let (answer, w') = step.execute ctx w in go_on (chain steps) answer w'

reverse_onto :
    {A : Type 0} (x : A) (xs ys : List A) → reverse (x ∷ xs) ++ ys ≡ reverse xs ++ (x ∷ ys)
reverse_onto x xs ys =
    ap (λ zs. zs ++ ys) (reverse-cons x xs) ∙ append_assoc (reverse xs) (x ∷ []) ys

module _ {Ctx W : Type 0} (has_reversible_effects : Ctx → Bool) where
  loop_answer :
      (steps executed : List (IopStep Ctx W)) (ctx : Ctx) (undo : Option Ctx) (w : W)
      → (steps_loop has_reversible_effects steps ctx executed undo w).0 ≡ (chain steps ctx w).0
  unfolding steps_loop chain
  loop_answer [] executed ctx undo w = refl
  loop_answer (step ∷ steps) executed ctx undo w = elim (Result-cases (step.execute ctx w).0) [
    | inl (c, e) ↦
        rw (e, steps_loop, chain)
          (loop_answer steps (step ∷ executed) c (undo_ctx has_reversible_effects ctx undo)
            (step.execute ctx w).1)
    | inr (x, e) ↦ rw (e, steps_loop, chain)
  ]

  loop_success :
      (steps executed : List (IopStep Ctx W)) (ctx : Ctx) (undo : Option Ctx) (w : W) (c : Ctx)
      → (chain steps ctx w).0 ≡ ok c
      → steps_loop has_reversible_effects steps ctx executed undo w ≡ chain steps ctx w
  unfolding steps_loop chain
  loop_success [] executed ctx undo w c h = refl
  loop_success (step ∷ steps) executed ctx undo w c h = elim (Result-cases (step.execute ctx w).0) [
    | inl (c', e) ↦
        rw (e, steps_loop, chain)
          (loop_success steps (step ∷ executed) c' (undo_ctx has_reversible_effects ctx undo)
            (step.execute ctx w).1 c (rw (e, chain) at h))
    | inr (x, e) ↦ cc (rw (e, chain) at h)
  ]

  -- A run answers what its steps answer in order, with the error of the first that fails; and if
  -- none fails it also leaves what they leave, with nothing compensated.
  pub run_steps-chain :
      (steps : List (IopStep Ctx W)) (ctx : Ctx) (w : W)
      → ((run_steps has_reversible_effects steps ctx w).0 ≡ (chain steps ctx w).0)
        × ((c : Ctx)
            → (chain steps ctx w).0 ≡ ok c
            → run_steps has_reversible_effects steps ctx w ≡ chain steps ctx w)
  unfolding run_steps
  run_steps-chain steps ctx w =
      (loop_answer steps [] ctx none w, λ c h. loop_success steps [] ctx none w c h)

  failing_step :
      (executed : List (IopStep Ctx W)) (step : IopStep Ctx W) (rest : List (IopStep Ctx W))
      (c : Ctx) (undo : Option Ctx) (w : W) (e : ErrorCode)
      → has_reversible_effects c ≡ true
      → (step.execute c w).0 ≡ err e
      → steps_loop has_reversible_effects (step ∷ rest) c executed undo w
        ≡ (err e, compensate_all has_reversible_effects executed c (step.execute c w).1)
  unfolding steps_loop
  failing_step executed step rest c undo w e r f = rw (f, steps_loop, r)

  loop_failure :
      (xs executed : List (IopStep Ctx W)) (step : IopStep Ctx W) (rest : List (IopStep Ctx W))
      (ctx c : Ctx) (undo : Option Ctx) (w w' : W) (e : ErrorCode)
      → chain xs ctx w ≡ (ok c, w')
      → has_reversible_effects c ≡ true
      → (step.execute c w').0 ≡ err e
      → steps_loop has_reversible_effects (xs ++ step ∷ rest) ctx executed undo w ≡ (
        err e,
        compensate_all has_reversible_effects (reverse xs ++ executed) c (step.execute c w').1,
      )
  unfolding steps_loop chain
  loop_failure [] executed step rest ctx c undo w w' e h r f =
      let same_ctx : ctx ≡ c = cc in
      let same_world : w ≡ w' = cc in
      ap₂ (λ d v. steps_loop has_reversible_effects (step ∷ rest) d executed undo v) same_ctx
        same_world
      ∙ failing_step executed step rest c undo w' e r f
  loop_failure (x ∷ xs) executed step rest ctx c undo w w' e h r f =
      elim (Result-cases (x.execute ctx w).0) [
        | inl (c', e') ↦
            rw (e', steps_loop)
              (loop_failure xs (x ∷ executed) step rest c' c
                  (undo_ctx has_reversible_effects ctx undo) (x.execute ctx w).1 w' e
                  (rw (e', chain) at h) r f
                ∙ ap
                    (λ done.
                      (err e, compensate_all has_reversible_effects done c (step.execute c w').1))
                    (sym (reverse_onto x xs executed)))
        | inr (x', e') ↦ cc (rw (e', chain) at h)
      ]

  pub run_steps_compensates :
      (xs : List (IopStep Ctx W)) (step : IopStep Ctx W) (rest : List (IopStep Ctx W)) (ctx c : Ctx)
      (w w' : W) (e : ErrorCode)
      → chain xs ctx w ≡ (ok c, w')
      → has_reversible_effects c ≡ true
      → (step.execute c w').0 ≡ err e
      → run_steps has_reversible_effects (xs ++ step ∷ rest) ctx w
        ≡ (err e, compensate_all has_reversible_effects (reverse xs) c (step.execute c w').1)
  unfolding run_steps
  run_steps_compensates xs step rest ctx c w w' e h r f =
      loop_failure xs [] step rest ctx c none w w' e h r f
      ∙ ap (λ done. (err e, compensate_all has_reversible_effects done c (step.execute c w').1))
          (append-nil (reverse xs))
