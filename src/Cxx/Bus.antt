-- ===== src/Cxx/Bus.antt =====
-- sw/BusAccess/BusAccessCxx.cpp and BusAccessCxx.tpp: the class around the bus access library.
-- `a` and `d` are the sizes in bytes of the unsigned types of addresses and data.
pub mod Guards
pub mod Written
pub mod ReadBack
pub mod Cut
pub mod Delivered
use ipdbg.Prelude.{
  ℕ, ◌+◌, Bool, true, false, not, Option, none, some, List, ◌++◌, ltb, leb, ◌==◌, if◌then◌else◌,
  length, drop, replicate,
}
use ipdbg.Os.{Os}
use ipdbg.Command.{Ret, nak, ack, is_ok, this, Message, Handle, Cmd, done, fault}
use ipdbg.Link.{is_open}
use ipdbg.BusAccess.Core.{BusCore}
use ipdbg.BusAccess.Access
use ipdbg.BusAccess.Access.{write_ctrllock, read_ctrllock}
use ipdbg.BusAccess.Masters.{set_axprot, set_pprot, set_debug_access, set_hprot_hsize, set_resets}
use ipdbg.BusAccess.Session
use ipdbg.BusAccess.Session.{
  BusAccessField, get_field_size, get_core_type_of, get_protocol_version_of,
}
use ipdbg.Cxx.{
  Thrown, unable_to_allocate, not_open, last_error_text, does_not_fit, master_has_no_write_data,
  master_has_no_read_data, write_nak, read_nak, write_failed, read_failed, misc_failed,
  strobe_failed, FieldName, Result, value, thrown, Call, ◌>>=◌, ◌>>◌, throw, returns, call, lift,
  throw_if, last_error, check_result, result_of,
}
use ipdbg.Cxx.Bytes.{digits, bytes_for_bits, to_bytes, from_bytes}

-- The constructor.
unfoldable pub construct : Bool → Result (Handle BusCore)
construct allocated = elim (Session.new allocated) [
  | none ↦ thrown unable_to_allocate
  | some h ↦ value h
]

unfoldable pub check_open : Call BusCore (Unit {0})
check_open = do opened ← (λ s. done (value (is_open this s)) s); throw_if (not opened) not_open

unfoldable pub get_size : BusAccessField → Call BusCore ℕ
unfolding result_of
get_size field = do result ← call (get_field_size this field true); result_of result

unfoldable pub get_core_type : Call BusCore ℕ
unfolding result_of
get_core_type = do result ← call (get_core_type_of this true); result_of result

unfoldable pub get_protocol_version : Call BusCore ℕ
unfolding result_of
get_protocol_version = do result ← call (get_protocol_version_of this true); result_of result

-- What the library has written through the pointer to the buffer.
unfoldable pub stored : List ℕ → Option (List ℕ) → Call BusCore (List ℕ)
stored buffer none = returns buffer
stored buffer (some bytes) =
    if leb (length bytes) (length buffer)
    then returns (bytes ++ drop (length bytes) buffer)
    else (λ s. fault)

-- The two tests on the result of an access.
unfoldable pub check_answer : Ret → Thrown → (Message → Thrown) → Call BusCore (Unit {0})
unfolding last_error
check_answer ack refused failed = returns tt
check_answer nak refused failed = throw refused
check_answer _ refused failed = do m ← last_error; throw (failed m)

unfoldable pub throw_unless_ok : Ret → (Message → Thrown) → Call BusCore (Unit {0})
unfolding last_error
throw_unless_ok ret failed = if is_ok ret then returns tt else (do m ← last_error; throw (failed m))

-- The function object, or the number itself where there is none.
abbrev pub changed : Option (ℕ → ℕ) → ℕ → ℕ
changed none number = number
changed (some f) number = f number

module _ (os : Os) (fuel : ℕ) where
  -- The destructor.
  unfoldable pub destruct : Cmd BusCore Ret
  destruct = Session.delete os fuel this

  unfoldable pub open_connection : ℕ → ℕ → Call BusCore (Unit {0})
  unfolding check_result
  open_connection host port = do
    ret ← call (Session.open_connection os fuel this (some host) (some port))
    check_result ret

  unfoldable pub close : Call BusCore (Unit {0})
  unfolding check_result
  close = do ret ← call (Session.close os fuel this); check_result ret

  unfoldable pub set_timeout : ℕ → Call BusCore (Unit {0})
  unfolding check_result
  set_timeout milliseconds = do
    ret ← call (Session.set_timeout os fuel this milliseconds)
    check_result ret

  unfoldable pub write : ℕ → ℕ → ℕ → ℕ → Bool → Call BusCore (Unit {0})
  write a d address number locked = do
    check_open
    data_size ← get_size BusAccessField.write_data
    throw_if (data_size == 0) master_has_no_write_data
    address_size ← get_size BusAccessField.address
    address_buffer ← lift (to_bytes a address address_size FieldName.address)
    data_buffer ← lift (to_bytes d number data_size FieldName.write_data)
    ret ← call (write_ctrllock os fuel this address_buffer data_buffer locked)
    check_answer ret (write_nak address) (write_failed address)

  unfoldable pub read : ℕ → ℕ → ℕ → Bool → Call BusCore ℕ
  read a d address locked = do
    check_open
    data_size ← get_size BusAccessField.read_data
    throw_if (data_size == 0) master_has_no_read_data
    address_size ← get_size BusAccessField.address
    address_buffer ← lift (to_bytes a address address_size FieldName.address)
    throw_if (ltb (digits d) data_size) (does_not_fit data_size (digits d))
    (ret, result) ← call (read_ctrllock os fuel this address_buffer locked)
    data_buffer ← stored (replicate (bytes_for_bits data_size) 0) result
    check_answer ret (read_nak address) (read_failed address)
    lift (from_bytes d data_buffer data_size)

  unfoldable pub set_miscellaneous : ℕ → ℕ → Call BusCore (Unit {0})
  set_miscellaneous m number = do
    check_open
    sz ← get_size BusAccessField.misc
    buffer ← lift (to_bytes m number sz FieldName.misc_value)
    if sz == 0 then returns tt else (do
      ret ← call (Access.set_miscellaneous os fuel this buffer)
      throw_unless_ok ret misc_failed)

  unfoldable pub set_strobe : ℕ → ℕ → Call BusCore (Unit {0})
  set_strobe m number = do
    check_open
    sz ← get_size BusAccessField.strobe
    buffer ← lift (to_bytes m number sz FieldName.strobe_value)
    if sz == 0 then returns tt else (do
      ret ← call (Access.set_strobe os fuel this buffer)
      throw_unless_ok ret strobe_failed)

  -- `modify` is the function object, which may be empty; its result is a number of the type.
  unfoldable pub read_modify_write : ℕ → ℕ → ℕ → Option (ℕ → ℕ) → Call BusCore (Unit {0})
  read_modify_write a d address modify = do
    number ← read a d address true
    write a d address (changed modify number) false

  unfoldable pub set_axi4l_axprot : ℕ → ℕ → Call BusCore (Unit {0})
  unfolding check_result
  set_axi4l_axprot arprot awprot = do
    ret ← call (set_axprot os fuel this arprot awprot)
    check_result ret

  unfoldable pub set_apb_pprot : ℕ → Call BusCore (Unit {0})
  unfolding check_result
  set_apb_pprot pprot = do ret ← call (set_pprot os fuel this pprot); check_result ret

  unfoldable pub set_avalon_debug_access : ℕ → Call BusCore (Unit {0})
  unfolding check_result
  set_avalon_debug_access debug = do
    ret ← call (set_debug_access os fuel this debug)
    check_result ret

  unfoldable pub set_ahb_hprot_hsize : ℕ → ℕ → Call BusCore (Unit {0})
  unfolding check_result
  set_ahb_hprot_hsize hprot hsize = do
    ret ← call (set_hprot_hsize os fuel this hprot hsize)
    check_result ret

  unfoldable pub set_dtm_resets : Bool → Bool → Call BusCore (Unit {0})
  unfolding check_result
  set_dtm_resets reset hardreset = do
    ret ← call (set_resets os fuel this reset hardreset)
    check_result ret
