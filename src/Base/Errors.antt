-- ===== src/Base/Errors.antt =====
-- Go's `error` values: the sentinels that the program compares by `errors.Is`, errors made from a
-- text, and the chains that `fmt.Errorf` builds by `%w`. The text of a chain is its message.
use Prim.Native.Nat.{ℕ}
use Prim.Native.String.{String, ◌++◌ as ◌<>◌}
use mathlib.Core.Bool.{Bool, ◌||◌}
use native.Mathlib.Decide.{ℕ_discrete}
use updater_service.Base.Equality.{Eq, ◌==◌, string_dec}

pub data Error : Type 0 where
  no_rows : Error  -- sql.ErrNoRows
  duplicate_key : Error  -- *mysql.MySQLError 1062
  foreign_key : Error  -- *mysql.MySQLError 1452
  not_exist : Error  -- os.ErrNotExist
  canceled : Error  -- context.Canceled
  deadline_exceeded : Error  -- context.DeadlineExceeded
  unexpected_eof : Error  -- io.ErrUnexpectedEOF
  net_op_error : String → Error  -- *net.OpError
  status_error : ℕ → String → Error  -- filetransfer.StatusError
  operation_not_found : Error  -- operation.ErrNotFound
  node_not_found : Error  -- node.ErrNotFound
  node_offline : Error  -- node.ErrNodeOffline
  stale_instance : Error  -- node.ErrStaleInstance
  node_unavailable : Error  -- entry.errNodeUnavailable
  text : String → Error  -- any other, by its message
  wrap : String → Error → Error  -- fmt.Errorf("…: %w", err)

unfoldable pub Error-discrete : Discrete Error
Error-discrete = hlevel (string_dec, ℕ_discrete)

instance abbrev pub error_eq : Eq Error
error_eq = record { dec = Error-discrete }

-- errors.Is
unfoldable pub is_error : Error → Error → Bool
is_error (wrap message e) target = wrap message e == target || is_error e target
is_error e target = e == target

-- err.Error(). What drivers and the operating system add to their messages is left out.
unfoldable pub error_text : Error → String
error_text no_rows = "sql: no rows in result set"
error_text duplicate_key = "Duplicate entry"
error_text foreign_key = "a foreign key constraint fails"
error_text not_exist = "file does not exist"
error_text canceled = "context canceled"
error_text deadline_exceeded = "context deadline exceeded"
error_text unexpected_eof = "unexpected EOF"
error_text (net_op_error s) = s
error_text (status_error _ s) = s
error_text operation_not_found = "operation not found"
error_text node_not_found = "node not found"
error_text node_offline = "node offline"
error_text stale_instance = "stale node instance"
error_text node_unavailable = "target node is unavailable"
error_text (text s) = s
error_text (wrap message e) = message <> ": " <> error_text e
