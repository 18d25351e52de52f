-- ===== src/Cxx/Bus/Guards.antt =====
-- What the guards of the class let through, and what they throw before anything is sent.
use ipdbg.Prelude.{◌≡◌, refl, true, false}
use ipdbg.Command.{is_none, State, with_error, blank, done}
use ipdbg.Link.{begin, is_open, reject_if}
use ipdbg.BusAccess.Core.{BusCore}
use ipdbg.BusAccess.Session.{BusAccessField, field_of, get_field_size}
use ipdbg.Cxx.{not_open, value, thrown}
use ipdbg.Cxx.Bus.{check_open, get_size}

pub check_open-open :
    (s : State BusCore) → is_none s.socket ≡ false → check_open s ≡ done (value tt) s
unfolding check_open is_open
check_open-open s opened = rw opened refl

pub check_open-closed :
    (s : State BusCore) → is_none s.socket ≡ true → check_open s ≡ done (thrown not_open) s
unfolding check_open is_open
check_open-closed s closed = rw closed refl

-- An open handle answers from its widths; the last error is cleared.
pub get_size-eq :
    (field : BusAccessField) (s : State BusCore)
    → is_none s.socket ≡ false
    → get_size field s ≡ done (value (field_of field s.core.sizes)) (with_error s blank)
unfolding get_size get_field_size begin reject_if
get_size-eq field s opened = rw opened refl
