-- ===== src/Pitr/Terminal.antt =====
-- internal/server/pitr/handler.go: what still changes behind a terminal state.
use database_flashback.Base.{◌≡◌, Bool, true, false, ◌||◌, if◌then◌else◌, arith}
use database_flashback.Pitr.State.{
  preflight, confirmed, previewed, cancelled, same_state, valid_transitions, transition_valid,
  is_terminal,
}
use database_flashback.Pitr.Operation.{Work, ended, Operation, cancel}
use database_flashback.Pitr.Reach.{all_works}

unfoldable pub has_ended : Work → Bool
has_ended ended = true
has_ended _ = false

-- A terminal state is followed by terminal states only, and where all background functions have
-- ended, by nothing else.
abbrev pub Settled : Operation → Operation → Type 0
Settled op next =
    (is_terminal next.state ≡ true) × (all_works has_ended op.works ≡ true → next ≡ op)

-- A cancellation succeeds exactly in the states preflight, confirmed and previewed, and changes
-- nothing but the state; in every other state, parsing and executing among them, it changes nothing.
cancel_lem :
    (op : Operation)
    → cancel op ≡ (
        if same_state op.state preflight
          || (same_state op.state confirmed || same_state op.state previewed)
        then record op { state = cancelled }
        else op)
unfolding cancel transition_valid valid_transitions same_state
cancel_lem op = ground arith
