-- ===== src/Exec.antt =====
-- ara::exec: include/ara/exec/execution_client.h and src/ara/exec/execution_client.cpp. The text that a
-- report prints is part of the result.
use my_auto_sar_ap.Prelude.{String}

-- The enumeration has one constant.
pub data ExecutionState : Type 0 where
  running : ExecutionState

pub data ExecErrc : Type 0 where
  success general_error invalid_transition already_in_state : ExecErrc

abbrev pub state_text : ExecutionState → String
state_text running = "kRunning"

unfoldable pub report_execution_state : ExecutionState → String × ExecErrc
report_execution_state state = (state_text state, success)
