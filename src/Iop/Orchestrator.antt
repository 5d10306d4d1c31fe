-- ===== src/Iop/Orchestrator.antt =====
-- src/iop/core.rs: `IopOrchestrator::run_steps`, over any context and any steps (`IopStep`).
-- `W` is what the steps act on outside the context: the counters, the store.
pub mod Compensation
use metri_engine.Base.{
  ◌≡◌, Bool, true, false, Option, none, some, List, [], ◌∷◌, Result, ok, err, if◌then◌else◌,
}
use metri_engine.Errors.{ErrorCode}

pub record IopStep (Ctx W : Type 0) : Type 0 where
  pub execute : Ctx → W → Result ErrorCode Ctx × W
  pub compensate : Ctx → W → W

-- the copy of the context that is taken before a step, when it carries an effect
abbrev pub undo_ctx : {Ctx : Type 0} → (Ctx → Bool) → Ctx → Option Ctx → Option Ctx
undo_ctx has_reversible_effects current undo =
    if has_reversible_effects current then some current else undo

module _ {Ctx W : Type 0} (has_reversible_effects : Ctx → Bool) where
  -- `for done in executed.iter().rev()`: `executed` has the last step first
  unfoldable pub compensate_all : List (IopStep Ctx W) → Ctx → W → W
  compensate_all [] undo w = w
  compensate_all (step ∷ executed) undo w = compensate_all executed undo (step.compensate undo w)

  abbrev pub on_error : Option Ctx → List (IopStep Ctx W) → W → W
  on_error none executed w = w
  on_error (some undo) executed w = compensate_all executed undo w

  unfoldable pub steps_loop :
      List (IopStep Ctx W) → Ctx → List (IopStep Ctx W) → Option Ctx → W → Result ErrorCode Ctx × W
  unfolding compensate_all
  steps_loop [] current executed undo w = (ok current, w)
  steps_loop (step ∷ steps) current executed undo w =
      let undo' = undo_ctx has_reversible_effects current undo in
      let (answer, w') = step.execute current w in
      elim answer [
        | ok next ↦ steps_loop steps next (step ∷ executed) undo' w'
        | err e ↦ (err e, on_error undo' executed w')
      ]

  unfoldable pub run_steps : List (IopStep Ctx W) → Ctx → W → Result ErrorCode Ctx × W
  unfolding steps_loop
  run_steps steps ctx w = steps_loop steps ctx [] none w
