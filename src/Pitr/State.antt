-- ===== src/Pitr/State.antt =====
-- internal/server/pitr/state.go: the state machine of an operation.
use database_flashback.Base.{Bool, true, false, ◌||◌, Option, none, some, List, [], ◌∷◌}

pub data OperationState : Type 0 where
  preflight confirmed parsing previewed executing completed failed cancelled : OperationState

unfoldable pub same_state : OperationState → OperationState → Bool
same_state preflight preflight = true
same_state confirmed confirmed = true
same_state parsing parsing = true
same_state previewed previewed = true
same_state executing executing = true
same_state completed completed = true
same_state failed failed = true
same_state cancelled cancelled = true
same_state s t = false

-- `validTransitions`.
unfoldable pub valid_transitions : OperationState → Option (List OperationState)
valid_transitions preflight = some (confirmed ∷ cancelled ∷ [])
valid_transitions confirmed = some (parsing ∷ cancelled ∷ [])
valid_transitions parsing = some (previewed ∷ failed ∷ [])
valid_transitions previewed = some (executing ∷ cancelled ∷ [])
valid_transitions executing = some (completed ∷ failed ∷ [])
valid_transitions completed = none
valid_transitions failed = none
valid_transitions cancelled = none

abbrev is_in : OperationState → List OperationState → Bool
is_in to [] = false
is_in to (s ∷ allowed) = same_state s to || is_in to allowed

abbrev allows : OperationState → Option (List OperationState) → Bool
allows to none = false
allows to (some allowed) = is_in to allowed

unfoldable pub transition_valid : OperationState → OperationState → Bool
unfolding same_state valid_transitions
transition_valid from to = allows to (valid_transitions from)

unfoldable pub is_terminal : OperationState → Bool
unfolding same_state
is_terminal state =
    same_state state completed || (same_state state failed || same_state state cancelled)
