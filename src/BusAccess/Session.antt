-- ===== src/BusAccess/Session.antt =====
-- sw/BusAccess/BusAccess.c: creating, opening, closing and querying a handle.
use ipdbg.Prelude.{
  ℕ, ◌+◌, Bool, true, false, not, ◌&&◌, Option, none, some, List, ◌==◌, if◌then◌else◌, replicate,
}
use ipdbg.Os.{Os}
use ipdbg.Command.{
  Ret, error, ok, Ref, null, this, blank, no_result_pointer, no_fields, out_of_memory, Handle, Cmd,
  pure, done, fault, ◌>>=◌, ◌>>◌, is_ok, is_none, get, with_core,
}
use ipdbg.Link.{begin, reject_if, os_malloc, close_socket, apply_timeout}
use ipdbg.Link.Frames.{send_reset}
use ipdbg.Link.Connecting.{connect_host}
use ipdbg.BusAccess.Core.{
  Sizes, BusCore, no_sizes, bus_env, get_core, max_size, get_buffe_size, get_core_type,
  get_protocol_version,
}
use ipdbg.BusAccess.Query.{get_sizes, send_address}

-- `enum BusAccessField`; `misc` also stands for every other value.
pub data BusAccessField : Type 0 where
  address read_data write_data strobe misc : BusAccessField

abbrev pub default_timeout_ms : ℕ
default_timeout_ms = 5000

-- The handle of IpdbgBusAccess_new, if `calloc` gives memory for it.
unfoldable pub new : Bool → Option (Handle BusCore)
new false = none
new true = some (record {
  socket = none;
  timeout_ms = default_timeout_ms;
  last_error = blank;
  core = record { sizes = no_sizes; buffer = none; address_shadow = none };
})

-- A result that is stored through `result` if the pointer is not null.
unfoldable pub query : Ref → Bool → (Sizes → ℕ) → Cmd BusCore (Ret × Option ℕ)
query handle has_result f = do
  ret ← (do begin handle true; reject_if (not has_result) no_result_pointer)
  c ← get_core
  if is_ok ret then pure (ret, some (f c.sizes)) else pure (ret, none)

unfoldable pub field_of : BusAccessField → Sizes → ℕ
field_of address z = z.address_width
field_of read_data z = z.read_data_width
field_of write_data z = z.write_data_width
field_of strobe z = z.strobe_width
field_of misc z = z.misc_data_width

unfoldable pub get_field_size : Ref → BusAccessField → Bool → Cmd BusCore (Ret × Option ℕ)
unfolding query field_of
get_field_size handle field has_result = query handle has_result (field_of field)

unfoldable pub get_core_type_of : Ref → Bool → Cmd BusCore (Ret × Option ℕ)
unfolding query
get_core_type_of handle has_result = query handle has_result (λ z. get_core_type z.version_and_id)

unfoldable pub get_protocol_version_of : Ref → Bool → Cmd BusCore (Ret × Option ℕ)
unfolding query
get_protocol_version_of handle has_result =
    query handle has_result (λ z. get_protocol_version z.version_and_id)

module _ (os : Os) (fuel : ℕ) where
  -- `free(handle)` ends the life of the handle.
  unfoldable pub delete : Ref → Cmd BusCore Ret
  delete null = pure error
  delete this = close_socket (bus_env os fuel)

  -- `malloc` leaves the bytes open, and none is read before it is written: zeros stand for them.
  unfoldable pub set_buffer : ℕ → Bool → Cmd BusCore Unit
  set_buffer n allocated s =
      done tt
        (with_core s (record s.core { buffer = if allocated then some (replicate n 0) else none }))

  unfoldable pub set_shadow : ℕ → Bool → Cmd BusCore Unit
  set_shadow n allocated s = done tt (
      with_core s
        (record s.core { address_shadow = if allocated then some (replicate n 0) else none }))

  unfoldable pub allocate : Sizes → Cmd BusCore Ret
  unfolding set_buffer set_shadow
  allocate z = do
    has_buffer ← os_malloc (bus_env os fuel) (get_buffe_size z + 1)
    _ ← set_buffer (get_buffe_size z + 1) has_buffer
    has_shadow ← os_malloc (bus_env os fuel) (max_size z.address_width_bytes 1)
    _ ← set_shadow (max_size z.address_width_bytes 1) has_shadow
    reject_if (not (has_buffer && has_shadow)) out_of_memory

  unfoldable pub send_shadow : Option (List ℕ) → Cmd BusCore Ret
  send_shadow none = λ s. fault
  send_shadow (some shadow) = send_address os fuel shadow

  -- Once the widths are known: the buffers, and the address register of the core set to the shadow.
  unfoldable pub prepare : Cmd BusCore Ret
  unfolding allocate send_shadow
  prepare = do
    c ← get_core
    reject_if (get_buffe_size c.sizes == 0) no_fields
    allocate c.sizes
    c' ← get_core
    send_shadow c'.address_shadow

  -- What follows once the connection is made.
  unfoldable pub set_up : Cmd BusCore Ret
  unfolding prepare
  set_up = do
    apply_timeout (bus_env os fuel)
    send_reset (bus_env os fuel)
    get_sizes os fuel
    prepare

  -- `goto error`: no half opened connection is left behind.
  unfoldable pub close_unless_ok : Ret → Cmd BusCore Ret
  close_unless_ok ret =
      if is_ok ret then pure ret else (do _ ← close_socket (bus_env os fuel); pure ret)

  -- `none` is a null pointer for the host or the port.
  unfoldable pub open_connection : Ref → Option ℕ → Option ℕ → Cmd BusCore Ret
  unfolding set_up close_unless_ok
  open_connection handle host port = do
    begin handle false
    connect_host (bus_env os fuel) host port
    ret ← set_up
    close_unless_ok ret

  unfoldable pub close : Ref → Cmd BusCore Ret
  close handle = do
    begin handle false
    s ← get
    if is_none s.socket then pure ok else (do
      ret ← get_sizes os fuel
      ret_close ← close_socket (bus_env os fuel)
      pure (if is_ok ret then ret_close else ret))

  unfoldable pub store_timeout : ℕ → Cmd BusCore Unit
  store_timeout milliseconds s =
      done tt (record s { handle = record s.handle { timeout_ms = milliseconds } })

  unfoldable pub set_timeout : Ref → ℕ → Cmd BusCore Ret
  unfolding store_timeout
  set_timeout handle milliseconds = do
    begin handle false
    _ ← store_timeout milliseconds
    s ← get
    if is_none s.socket then pure ok else apply_timeout (bus_env os fuel)
