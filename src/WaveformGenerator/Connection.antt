-- ===== src/WaveformGenerator/Connection.antt =====
-- sw/WaveformGenerator/WaveformGenerator.c: its copy of the connection that the two libraries share,
-- statement by statement the code that Link translates, on its own handle.
use ipdbg.Prelude.{ℕ, Bool, Option, List}
use ipdbg.Os.{Os}
use ipdbg.Command.{Ret, Ref, Message, State, Cmd}
use ipdbg.Link
use ipdbg.Link.Frames
use ipdbg.Link.Connecting
use ipdbg.WaveformGenerator.Core.{WfgCore, wfg_env}

unfoldable pub set_error : Message → Cmd WfgCore Unit
set_error = Link.set_error

unfoldable pub begin : Ref → Bool → Cmd WfgCore Ret
begin = Link.begin

unfoldable pub is_open : Ref → State WfgCore → Bool
is_open = Link.is_open

unfoldable pub get_last_error : Ref → State WfgCore → Option Message
get_last_error = Link.get_last_error

module _ (os : Os) (fuel : ℕ) where
  unfoldable pub timeout : Cmd WfgCore Ret
  timeout = Link.timeout (wfg_env os fuel)

  unfoldable pub apply_timeout : Cmd WfgCore Ret
  apply_timeout = Link.apply_timeout (wfg_env os fuel)

  unfoldable pub send : List ℕ → Cmd WfgCore Ret
  send = Link.send (wfg_env os fuel)

  unfoldable pub receive : ℕ → Cmd WfgCore (Ret × List ℕ)
  receive = Link.receive (wfg_env os fuel)

  unfoldable pub send_reset : Cmd WfgCore Ret
  send_reset = Frames.send_reset (wfg_env os fuel)

  unfoldable pub send_command : ℕ → Cmd WfgCore Ret
  send_command = Frames.send_command (wfg_env os fuel)

  unfoldable pub close_socket : Cmd WfgCore Ret
  close_socket = Link.close_socket (wfg_env os fuel)

  unfoldable pub connect_host : Option ℕ → Option ℕ → Cmd WfgCore Ret
  connect_host = Connecting.connect_host (wfg_env os fuel)
