-- ===== src/Ws/Messages.antt =====
-- internal/ws/types.go: commands and responses.
use database_flashback.Base.{ℕ, Bool, Bytes, text, Option, none, some, List}

-- A JSON value of the parameters: a string, a number (whether it is above 0, and its whole part), the
-- strings of an array (`none` for an element that is no string), or another value.
pub data Param : Type 0 where
  string_param : Bytes → Param
  number_param : Bool → ℕ → Param
  array_param : List (Option Bytes) → Param
  other_param : Param

pub record Command : Type 0 where
  pub cmd : Bytes
  pub kind : Bytes
  pub params : Bytes → Option Param

pub record Response : Type 0 where
  pub cmd : Bytes
  pub status : Bytes
  pub result : Bytes
  pub error : Bytes

abbrev pub cmd_preflight : Bytes
cmd_preflight = text "preflight"

abbrev pub cmd_pitr_parse : Bytes
cmd_pitr_parse = text "pitr_parse"

abbrev pub cmd_pitr_execute : Bytes
cmd_pitr_execute = text "pitr_execute"

abbrev pub cmd_status : Bytes
cmd_status = text "status"

abbrev pub cmd_shutdown : Bytes
cmd_shutdown = text "shutdown"

abbrev pub cmd_cert_renewal : Bytes
cmd_cert_renewal = text "cert_renewal"

abbrev pub cmd_pitr_progress : Bytes
cmd_pitr_progress = text "pitr_progress"

abbrev pub cmd_pitr_cancel : Bytes
cmd_pitr_cancel = text "pitr_cancel"

abbrev pub status_ok : Bytes
status_ok = text "ok"

abbrev pub status_error : Bytes
status_error = text "error"

-- `params[key].(string)`.
abbrev pub string_of : Option Param → Option Bytes
string_of (some (string_param s)) = some s
string_of _ = none

-- What `json.Unmarshal` makes of the bytes of a message, as a response and as a command.
pub record Message : Type 0 where
  pub as_response : Option Response
  pub as_command : Option Command
