-- ===== src/WaveformGenerator/Session.antt =====
-- sw/WaveformGenerator/WaveformGenerator.c: creating, opening, closing, the queries and the commands
-- without data.
use Prim.Native.Nat.{bit_and}
use ipdbg.Prelude.{
  ℕ, ◌||◌, Bool, true, false, not, Option, none, some, List, [], ◌==◌, if◌then◌else◌, get_or,
}
use ipdbg.Os.{Os}
use ipdbg.Command.{
  Ret, error, ok, Ref, null, this, blank, no_result_pointer, invalid_widths, Handle, Cmd, pure,
  done, ◌>>=◌, ◌>>◌, if_ok, is_ok, is_none, get, with_core,
}
use ipdbg.Link.{reject_if}
use ipdbg.WaveformGenerator.Core.{
  start_cmd, stop_cmd, one_shot_cmd, return_sizes_cmd, return_status_cmd, status_enabled,
  status_double_buffer, WfgCore, no_widths, get_core, with_widths, with_width_bytes, max_samples,
}
use ipdbg.WaveformGenerator.Connection.{
  begin, apply_timeout, send_reset, send_command, receive, close_socket, connect_host,
}

abbrev pub default_timeout_ms : ℕ
default_timeout_ms = 5000

-- The handle of IpdbgWaveformGenerator_new, if `calloc` gives memory for it.
unfoldable pub new : Bool → Option (Handle WfgCore)
new false = none
new true = some (record {
  socket = none;
  timeout_ms = default_timeout_ms;
  last_error = blank;
  core = no_widths;
})

-- A result that is stored through `result` if the pointer is not null.
unfoldable pub query : Ref → Bool → (WfgCore → ℕ) → Cmd WfgCore (Ret × Option ℕ)
query handle has_result f = do
  ret ← (do begin handle true; reject_if (not has_result) no_result_pointer)
  c ← get_core
  if is_ok ret then pure (ret, some (f c)) else pure (ret, none)

unfoldable pub get_data_width : Ref → Bool → Cmd WfgCore (Ret × Option ℕ)
unfolding query
get_data_width handle has_result = query handle has_result (λ c. c.data_width)

unfoldable pub get_address_width : Ref → Bool → Cmd WfgCore (Ret × Option ℕ)
unfolding query
get_address_width handle has_result = query handle has_result (λ c. c.address_width)

unfoldable pub get_max_samples : Ref → Bool → Cmd WfgCore (Ret × Option ℕ)
unfolding query
get_max_samples handle has_result = query handle has_result max_samples

unfoldable pub store_core : (WfgCore → WfgCore) → Cmd WfgCore Unit
store_core f s = done tt (with_core s (f s.core))

-- The widths are stored before they are looked at.
unfoldable pub store_sizes : List ℕ → Cmd WfgCore Ret
unfolding store_core
store_sizes buf = do
  _ ← store_core (λ c. with_widths c buf)
  c ← get_core
  reject_if (c.data_width == 0 || c.address_width == 0)
      (invalid_widths c.data_width c.address_width)
  _ ← store_core with_width_bytes
  pure ok

-- `running` and `doubleBuffer`.
unfoldable pub status_bits : ℕ → Bool × Bool
status_bits status =
    (not (bit_and status status_enabled == 0), not (bit_and status status_double_buffer == 0))

module _ (os : Os) (fuel : ℕ) where
  unfoldable pub get_sizes : Cmd WfgCore Ret
  unfolding store_sizes
  get_sizes = do
    send_command os fuel return_sizes_cmd
    (ret, buf) ← receive os fuel 8
    if_ok ret (store_sizes buf)

  -- The status byte, if it has been read.
  unfoldable pub read_status : Cmd WfgCore (Ret × List ℕ)
  read_status = do
    ret ← send_command os fuel return_status_cmd
    if is_ok ret then receive os fuel 1 else pure (ret, [])

  -- `free(handle)` ends the life of the handle.
  unfoldable pub delete : Ref → Cmd WfgCore Ret
  delete null = pure error
  delete this = close_socket os fuel

  unfoldable pub set_up : Cmd WfgCore Ret
  set_up = do apply_timeout os fuel; send_reset os fuel; get_sizes

  -- `goto error`: no half opened connection is left behind.
  unfoldable pub close_unless_ok : Ret → Cmd WfgCore Ret
  close_unless_ok ret = if is_ok ret then pure ret else (do _ ← close_socket os fuel; pure ret)

  -- `none` is a null pointer for the host or the port.
  unfoldable pub open_connection : Ref → Option ℕ → Option ℕ → Cmd WfgCore Ret
  unfolding set_up close_unless_ok
  open_connection handle host port = do
    begin handle false
    connect_host os fuel host port
    ret ← set_up
    close_unless_ok ret

  unfoldable pub close : Ref → Cmd WfgCore Ret
  unfolding read_status
  close handle = do
    begin handle false
    s ← get
    if is_none s.socket then pure ok else (do
      (ret, _) ← read_status
      ret_close ← close_socket os fuel
      pure (if is_ok ret then ret_close else ret))

  -- What is stored through `running` and `doubleBuffer`; a null pointer gets nothing.
  unfoldable pub get_status : Ref → Cmd WfgCore (Ret × Option (Bool × Bool))
  unfolding read_status
  get_status handle = do
    ret ← begin handle true
    if is_ok ret
        then (do
          (ret', status) ← read_status
          if is_ok ret'
              then pure (ok, some (status_bits (get_or status 0 0)))
              else pure (ret', none))
        else pure (ret, none)

  unfoldable pub control : Ref → ℕ → Cmd WfgCore Ret
  unfolding read_status
  control handle command = do
    begin handle true
    send_command os fuel command
    (ret, _) ← read_status
    pure ret

  unfoldable pub start : Ref → Cmd WfgCore Ret
  unfolding control
  start handle = control handle start_cmd

  unfoldable pub stop : Ref → Cmd WfgCore Ret
  unfolding control
  stop handle = control handle stop_cmd

  unfoldable pub one_shot : Ref → Cmd WfgCore Ret
  unfolding control
  one_shot handle = control handle one_shot_cmd

  unfoldable pub store_timeout : ℕ → Cmd WfgCore Unit
  store_timeout milliseconds s =
      done tt (record s { handle = record s.handle { timeout_ms = milliseconds } })

  unfoldable pub set_timeout : Ref → ℕ → Cmd WfgCore Ret
  unfolding store_timeout
  set_timeout handle milliseconds = do
    begin handle false
    _ ← store_timeout milliseconds
    s ← get
    if is_none s.socket then pure ok else apply_timeout os fuel
