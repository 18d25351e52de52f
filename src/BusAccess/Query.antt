-- ===== src/BusAccess/Query.antt =====
-- IpdbgBusAccess_getSizes, IpdbgBusAccess_sendAddress and receiving into the handle's buffer.
use ipdbg.Prelude.{ℕ, not, List, ◌++◌, ◌==◌, if◌then◌else◌}
use ipdbg.Os.{Os}
use ipdbg.Command.{
  Ret, ok, not_a_bus_access_core, Cmd, pure, done, fault, ◌>>=◌, ◌>>◌, if_ok, with_core,
}
use ipdbg.Link.{reject_if, receive}
use ipdbg.Link.Frames.{send_command, send_with_escaping}
use ipdbg.BusAccess.Core.{
  read_widths_cmd, set_addr_cmd, protocol_id, get_protocol_id, BusCore, bus_env, word_at, sizes_of,
  get_core, is_big_enough, overwrite,
}

module _ (os : Os) (fuel : ℕ) where
  store_sizes : List ℕ → Cmd BusCore Ret
  store_sizes buf s = done ok (with_core s (record s.core { sizes = sizes_of buf }))

  -- After the version and ID word: the other five words, if the core speaks this protocol.
  unfoldable pub get_widths : List ℕ → Cmd BusCore Ret
  unfolding store_sizes
  get_widths first = do
    reject_if (not (get_protocol_id (word_at first 0) == protocol_id))
        (not_a_bus_access_core (word_at first 0))
    (ret, rest) ← receive (bus_env os fuel) 20
    if_ok ret (store_sizes (first ++ rest))

  unfoldable pub get_sizes : Cmd BusCore Ret
  unfolding get_widths
  get_sizes = do
    send_command (bus_env os fuel) read_widths_cmd
    (ret, first) ← receive (bus_env os fuel) 4
    if_ok ret (get_widths first)

  unfoldable pub send_address : List ℕ → Cmd BusCore Ret
  send_address address = do
    c ← get_core
    if c.sizes.address_width_bytes == 0 then pure ok else do
      send_command (bus_env os fuel) set_addr_cmd
      send_with_escaping (bus_env os fuel) address c.sizes.address_width_bytes

  store_buffer : List ℕ → Cmd BusCore Unit
  store_buffer bytes s =
      done tt (with_core s (record s.core { buffer = overwrite s.core.buffer bytes }))

  -- `receive(handle, handle->buffer, len)`. A timeout frees the buffer, and then nothing is stored.
  unfoldable pub receive_to_buffer : ℕ → Cmd BusCore Ret
  unfolding store_buffer overwrite is_big_enough
  receive_to_buffer len = do
    c ← get_core
    if is_big_enough c.buffer len
        then (do (ret, bytes) ← receive (bus_env os fuel) len; _ ← store_buffer bytes; pure ret)
        else λ s. fault
