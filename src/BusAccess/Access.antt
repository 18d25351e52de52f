-- ===== src/BusAccess/Access.antt =====
-- sw/BusAccess/BusAccess.c: the accesses. `address`, `bytes` and so on are what the caller's
-- pointers give access to.
use ipdbg.Prelude.{
  ℕ, ◌+◌, Bool, true, false, not, Option, none, some, List, ◌==◌, if◌then◌else◌, same_bytes, drop,
}
use ipdbg.Os.{Os}
use ipdbg.Command.{
  Ret, error, ok, nak, ack, Ref, Message, out_of_memory, no_write_data, no_read_data,
  no_misc_signals, no_strobe, widths_differ, write_answered_with_nak, read_answered_with_nak,
  invalid_response_to_write, invalid_response_to_read, Cmd, pure, done, ◌>>=◌, ◌>>◌, is_ok,
  is_error, with_core, with_error,
}
use ipdbg.Link.{begin, reject_if, os_malloc}
use ipdbg.Link.Frames.{send_command, send_with_escaping}
use ipdbg.BusAccess.Core.{
  write_cmd_lock, write_cmd_unlock, read_cmd_lock, read_cmd_unlock, set_misc_cmd, set_strb_cmd,
  ack_resp, nack_resp, max_size, BusCore, bus_env, get_core, load, load_at, load_byte, overwrite,
}
use ipdbg.BusAccess.Query.{send_address, receive_to_buffer}

-- `ret = ...; setError(...)`
unfoldable pub answer : Ret → Message → Cmd BusCore Ret
answer ret message s = done ret (with_error s message)

-- The first byte of the buffer.
unfoldable pub write_status : ℕ → Cmd BusCore Ret
unfolding answer
write_status b =
    if b == ack_resp
    then pure ack
    else if b == nack_resp
    then answer nak write_answered_with_nak
    else answer error (invalid_response_to_write b)

unfoldable pub read_status : ℕ → Cmd BusCore Ret
unfolding answer
read_status b =
    if b == ack_resp
    then pure ack
    else if b == nack_resp
    then answer nak read_answered_with_nak
    else answer error (invalid_response_to_read b)

-- `memcpy(handle->AddressShadow, address, handle->AddressWidthBytes)`
unfoldable pub store_shadow : List ℕ → Cmd BusCore Ret
unfolding overwrite
store_shadow given s =
    done ok (with_core s (record s.core { address_shadow = overwrite s.core.address_shadow given }))

-- The acknowledge byte, and the data behind it for `result`.
unfoldable pub read_answer : Cmd BusCore (Ret × Option (List ℕ))
unfolding read_status
read_answer = do
  c ← get_core
  response ← load_byte c.buffer
  ret ← read_status response
  if is_error ret then pure (ret, none) else (do
    bytes ← load_at c.buffer (c.sizes.read_data_width_bytes + 1)
    pure (ret, some (drop 1 bytes)))

-- `modify`, which may be null, changes the bytes in place.
unfoldable pub modified : Option (List ℕ → List ℕ) → List ℕ → List ℕ
modified none bytes = bytes
modified (some modify) bytes = modify bytes

module _ (os : Os) (fuel : ℕ) where
  unfoldable pub set_address : List ℕ → Cmd BusCore Ret
  unfolding store_shadow
  set_address address = do
    c ← get_core
    if c.sizes.address_width_bytes == 0 then pure ok else (do
      given ← load address c.sizes.address_width_bytes
      shadow ← load_at c.address_shadow c.sizes.address_width_bytes
      if same_bytes given shadow
          then pure ok
          else (do send_address os fuel address; store_shadow given))

  unfoldable pub write_ctrllock : Ref → List ℕ → List ℕ → Bool → Cmd BusCore Ret
  unfolding write_status
  write_ctrllock handle address bytes locked = do
    begin handle true
    c ← get_core
    reject_if (c.sizes.write_data_width_bytes == 0) no_write_data
    set_address address
    send_command (bus_env os fuel) (if locked then write_cmd_lock else write_cmd_unlock)
    send_with_escaping (bus_env os fuel) bytes c.sizes.write_data_width_bytes
    receive_to_buffer os fuel 1
    c' ← get_core
    response ← load_byte c'.buffer
    write_status response

  -- Up to the answer of the core.
  unfoldable pub request_read : Ref → List ℕ → Bool → Cmd BusCore Ret
  request_read handle address locked = do
    begin handle true
    c ← get_core
    reject_if (c.sizes.read_data_width_bytes == 0) no_read_data
    set_address address
    send_command (bus_env os fuel) (if locked then read_cmd_lock else read_cmd_unlock)
    receive_to_buffer os fuel (c.sizes.read_data_width_bytes + 1)

  -- The second part of the result is what has been written to `*result`, if anything.
  unfoldable pub read_ctrllock : Ref → List ℕ → Bool → Cmd BusCore (Ret × Option (List ℕ))
  unfolding request_read read_answer
  read_ctrllock handle address locked = do
    ret ← request_read handle address locked
    if is_ok ret then read_answer else pure (ret, none)

  unfoldable pub write : Ref → List ℕ → List ℕ → Cmd BusCore Ret
  unfolding write_ctrllock
  write handle address bytes = write_ctrllock handle address bytes false

  unfoldable pub read : Ref → List ℕ → Cmd BusCore (Ret × Option (List ℕ))
  unfolding read_ctrllock
  read handle address = read_ctrllock handle address false

  -- The locked read has been answered.
  unfoldable pub write_back :
      Ref → List ℕ → Option (List ℕ → List ℕ) → Ret × Option (List ℕ) → Cmd BusCore Ret
  unfolding write_ctrllock modified
  write_back handle address modify (ack, some bytes) =
      write_ctrllock handle address (modified modify bytes) false
  write_back handle address modify (ret, _) = pure ret

  unfoldable pub read_modify_write : Ref → List ℕ → Option (List ℕ → List ℕ) → Cmd BusCore Ret
  unfolding read_ctrllock write_back
  read_modify_write handle address modify = do
    begin handle true
    c ← get_core
    reject_if (not (c.sizes.read_data_width == c.sizes.write_data_width)) widths_differ
    allocated ← os_malloc (bus_env os fuel) (max_size c.sizes.read_data_width_bytes 1)
    reject_if (not allocated) out_of_memory
    result ← read_ctrllock handle address true
    write_back handle address modify result

  unfoldable pub set_miscellaneous : Ref → List ℕ → Cmd BusCore Ret
  set_miscellaneous handle bytes = do
    begin handle true
    c ← get_core
    reject_if (c.sizes.misc_data_width_bytes == 0) no_misc_signals
    send_command (bus_env os fuel) set_misc_cmd
    send_with_escaping (bus_env os fuel) bytes c.sizes.misc_data_width_bytes

  unfoldable pub set_strobe : Ref → List ℕ → Cmd BusCore Ret
  set_strobe handle bytes = do
    begin handle true
    c ← get_core
    reject_if (c.sizes.strobe_width_bytes == 0) no_strobe
    send_command (bus_env os fuel) set_strb_cmd
    send_with_escaping (bus_env os fuel) bytes c.sizes.strobe_width_bytes
