-- ===== src/Pitr/Reach.antt =====
-- internal/server/pitr/handler.go: what every sequence of steps keeps true of an operation, also with
-- several executions at once.
use database_flashback.Base.{
  ◌≡◌, refl, Bool, true, false, not, ◌&&◌, ◌||◌, arith, List, [], ◌∷◌, ◌++◌,
}
use database_flashback.Pitr.State.{OperationState, previewed, executing, completed, same_state}
use database_flashback.Pitr.Operation.{
  Work, starts_execution, awaits_execution, Background, Operation,
}

-- A test of all background functions.
unfoldable pub all_works : (Work → Bool) → List Work → Bool
all_works f [] = true
all_works f (w ∷ ws) = f w && all_works f ws

pub all_works-append :
    (f : Work → Bool) (xs ys : List Work)
    → all_works f (xs ++ ys) ≡ (all_works f xs && all_works f ys)
unfolding all_works
all_works-append f [] ys = refl
all_works-append f (x ∷ xs) ys = ground (arith, all_works-append f xs ys)

unfoldable needs_result : OperationState → Bool
unfolding same_state
needs_result s = same_state s previewed || (same_state s executing || same_state s completed)

-- The background function is not an execution.
unfoldable precedes_execution : Work → Bool
precedes_execution starts_execution = false
precedes_execution awaits_execution = false
precedes_execution _ = true

unfoldable sound : Background → Bool
unfolding needs_result precedes_execution
sound b =
    (not (needs_result b.state) || b.has_result) && (precedes_execution b.work || b.has_result)

unfoldable consistent : Operation → Bool
unfolding needs_result all_works precedes_execution
consistent op =
    (not (needs_result op.state) || op.has_result)
    && (all_works precedes_execution op.works || op.has_result)
