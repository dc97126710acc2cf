-- ===== src/Pitr/Examples.antt =====
-- Runs of one operation.
use database_flashback.Base.{refl, true, false, [], ◌∷◌}
use database_flashback.Pitr.State.{
  previewed, executing, completed, failed, cancelled, transition_valid, valid_transitions,
  same_state,
}
use database_flashback.Pitr.Operation.{
  unusable, answer, starting, awaits_preflight, awaits_parse, awaits_execution, starts_execution,
  ended, Operation, try_transition, run_operation, execute_operation, preflight_answered,
  parse_answered, execution_answered, cancel, may_execute, run, preflight_done, parse_done,
  execute_starts, execute_done, moves, cancel_requested, execute_requested, Reaches, here, step,
  new_operation,
}

-- A preview, behind which two requests to execute are answered before either execution begins.
abbrev at_preview : Operation
at_preview = record { state = previewed; has_result = true; works = ended ∷ [] }

Reaches-at_preview : Reaches true new_operation at_preview
unfolding run_operation preflight_answered parse_answered try_transition transition_valid
Reaches-at_preview =
    step
      (step (step here (moves _ [] [] starting _ refl (run _ true refl)))
        (moves _ [] [] awaits_preflight _ refl (preflight_done _ (answer false) refl)))
      (moves _ [] [] awaits_parse _ refl (parse_done _ (answer 3) refl))

-- The first execution runs, and the second has not begun.
abbrev at_execution : Operation
at_execution = record {
  state = executing;
  has_result = true;
  works = ended ∷ awaits_execution ∷ starts_execution ∷ [];
}

Reaches-at_execution : Reaches true new_operation at_execution
unfolding execute_operation try_transition transition_valid may_execute same_state
Reaches-at_execution =
    step (step (step Reaches-at_preview (execute_requested _ refl)) (execute_requested _ refl)) (
      moves _ (ended ∷ []) (starts_execution ∷ []) starts_execution _ refl
        (execute_starts _ true refl))

-- The first has completed, and then the second finds that the agent is not connected.
abbrev at_end : Operation
at_end = record {
  state = completed;
  has_result = true;
  works = ended ∷ ended ∷ starts_execution ∷ [];
}

abbrev broken : Operation
broken = record { state = failed; has_result = true; works = ended ∷ ended ∷ ended ∷ [] }

Reaches-at_end : Reaches true new_operation at_end
unfolding execution_answered same_state
Reaches-at_end = step Reaches-at_execution (
    moves _ (ended ∷ []) (starts_execution ∷ []) awaits_execution _ refl
      (execute_done _ (answer (record { was_cancelled = false; errors = 0 })) refl))

-- Cancelled while the agent checks, and then the agent gives no answer.
abbrev waiting : Operation
waiting = record { state = cancelled; has_result = false; works = awaits_preflight ∷ [] }

cancelled_waiting : Reaches true new_operation waiting
unfolding run_operation cancel transition_valid valid_transitions
cancelled_waiting =
    step (step here (moves _ [] [] starting _ refl (run _ true refl))) (cancel_requested _)

revived : Reaches true waiting (record { state = failed; has_result = false; works = ended ∷ [] })
unfolding preflight_answered
revived = step here (moves _ [] [] awaits_preflight _ refl (preflight_done _ unusable refl))
