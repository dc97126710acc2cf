-- ===== src/Pitr/Operation.antt =====
-- internal/server/pitr/handler.go: what changes the state of one stored operation. The handler, the
-- two background functions and the store share one record. A background function is cut where it
-- waits for the agent, so that requests and other background functions come in between; what stands
-- between two waits is one step. `Execute` launches one more `executeOperation` each time.
-- Failures of the store, whose in-memory form cannot fail for a stored operation, and the data of
-- the results are left out.
use database_flashback.Base.{
  ℕ, Bool, true, false, ◌&&◌, ◌||◌, if◌then◌else◌, ◌==◌, ltb, ◌≡◌, List, [], ◌∷◌, ◌++◌,
}
use database_flashback.Pitr.State.{
  OperationState, preflight, confirmed, parsing, previewed, executing, completed, failed, cancelled,
  same_state, transition_valid,
}

-- What `SendToAgent` and the decoding of the result come to: no usable answer, or the answer.
pub data Answer (A : Type 0) : Type 0 where
  unusable : Answer A
  answer : A → Answer A

-- The answers to a preflight (is the status FAIL?), a parse (how many rows?), and an execution.
pub record Execution : Type 0 where
  pub was_cancelled : Bool
  pub errors : ℕ

-- Where a background function stands: it waits for an answer, or it has ended.
pub data Work : Type 0 where
  starting : Work
  awaits_preflight : Work
  awaits_parse : Work
  starts_execution : Work
  awaits_execution : Work
  ended : Work

-- The stored operation as one background function sees it, and where that function stands.
pub record Background : Type 0 where
  pub state : OperationState
  pub has_result : Bool
  pub work : Work

-- `tryTransition`, and what follows if it succeeds.
unfoldable pub try_transition : Background → OperationState → (Background → Background) → Background
unfolding transition_valid
try_transition op to next =
    if transition_valid op.state to
    then next (record op { state = to })
    else record op { work = ended }

-- `failOperation` and `return`.
abbrev fail_operation : Background → Background
fail_operation op = record op { state = failed; work = ended }

-- `runOperation` and `executeOperation` up to the first wait.
unfoldable pub run_operation : Background → Bool → Background
run_operation op connected =
    if connected then record op { work = awaits_preflight } else fail_operation op

unfoldable pub execute_operation : Background → Bool → Background
unfolding try_transition
execute_operation op connected =
    if connected
    then try_transition op executing (λ o. record o { work = awaits_execution })
    else fail_operation op

-- The answer to the preflight command.
unfoldable pub preflight_answered : Background → Answer Bool → Background
unfolding try_transition
preflight_answered op unusable = fail_operation op
preflight_answered op (answer fails) =
    if fails
    then fail_operation op
    else try_transition op confirmed
        (λ o. try_transition o parsing (λ q. record q { work = awaits_parse }))

-- The answer to the parse command; in preview mode the work ends here.
unfoldable pub parse_answered : Bool → Background → Answer ℕ → Background
unfolding try_transition
parse_answered preview op unusable = fail_operation op
parse_answered preview op (answer rows) =
    if rows == 0
    then fail_operation op
    else try_transition op previewed
        (λ o. record o { has_result = true; work = if preview then ended else starts_execution })

-- The answer to the execute command.
unfoldable pub execution_answered : Background → Answer Execution → Background
unfolding same_state
execution_answered op unusable = fail_operation op
execution_answered op (answer r) =
    if same_state op.state cancelled || r.was_cancelled
    then record op { state = cancelled; work = ended }
    else if ltb 0 r.errors
    then fail_operation op
    else record op { state = completed; work = ended }

-- The stored operation, with all background functions that were launched for it.
pub record Operation : Type 0 where
  pub state : OperationState
  pub has_result : Bool
  pub works : List Work

-- The state change of the handler `Cancel`: a conflict changes nothing.
unfoldable pub cancel : Operation → Operation
unfolding transition_valid
cancel op = if transition_valid op.state cancelled then record op { state = cancelled } else op

-- The handler `Execute`, with whether the agent is connected and whether there are statements: it
-- may start the work, or refuse.
unfoldable pub may_execute : Operation → Bool → Bool → Bool
unfolding same_state
may_execute op connected has_sql =
    same_state op.state previewed && (op.has_result && (connected && has_sql))

-- The steps of one background function.
pub data Move (preview : Bool) : Background → Background → Type 0 where
  run :
      (op : Background) (connected : Bool)
      → op.work ≡ starting
      → Move preview op (run_operation op connected)
  preflight_done :
      (op : Background) (a : Answer Bool)
      → op.work ≡ awaits_preflight
      → Move preview op (preflight_answered op a)
  parse_done :
      (op : Background) (a : Answer ℕ)
      → op.work ≡ awaits_parse
      → Move preview op (parse_answered preview op a)
  execute_starts :
      (op : Background) (connected : Bool)
      → op.work ≡ starts_execution
      → Move preview op (execute_operation op connected)
  execute_done :
      (op : Background) (a : Answer Execution)
      → op.work ≡ awaits_execution
      → Move preview op (execution_answered op a)

-- What the background function that stands at `w` sees of the operation.
abbrev pub seen_at : Operation → Work → Background
seen_at op w = record { state = op.state; has_result = op.has_result; work = w }

-- The operation behind a step of the background function between the others.
abbrev pub moved : List Work → Background → List Work → Operation
moved before b after = record {
  state = b.state;
  has_result = b.has_result;
  works = before ++ b.work ∷ after;
}

-- The steps of one operation: of any of its background functions, and of requests.
pub data Step (preview : Bool) : Operation → Operation → Type 0 where
  moves :
      (op : Operation) (before after : List Work) (w : Work) (b : Background)
      → op.works ≡ before ++ w ∷ after
      → Move preview (seen_at op w) b
      → Step preview op (moved before b after)
  cancel_requested : (op : Operation) → Step preview op (cancel op)
  execute_requested :
      (op : Operation)
      → may_execute op true true ≡ true
      → Step preview op (record op { works = op.works ++ starts_execution ∷ [] })

pub data Reaches (preview : Bool) (first : Operation) : Operation → Type 0 where
  here : Reaches preview first first
  step :
      {op next : Operation}
      → Reaches preview first op
      → Step preview op next
      → Reaches preview first next

-- A new operation, as `Start` stores it.
abbrev pub new_operation : Operation
new_operation = record { state = preflight; has_result = false; works = starting ∷ [] }
