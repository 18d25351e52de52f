-- ===== src/UartBridge/Pumps/Invariant.antt =====
-- The invariant of the two threads of a session, and how it changes.
use ipdbg.Prelude.{
  ℕ, ◌≡◌, refl, ◌∙◌, sym, subst, Bool, true, false, List, [], ◌++◌, ◌⊎◌, inl, append-nil,
  append_assoc,
}
use ipdbg.UartBridge.Pumps.{Down, Up, Pumps}

-- What the first thread still has to write, by where it is. An end without a failure of the serial
-- port leaves nothing behind.
abbrev pub Unwritten : Down → Bool → List ℕ → Type 0
Unwritten Down.test f rest = rest ≡ []
Unwritten Down.recv f rest = rest ≡ []
Unwritten (Down.write bytes) f rest = rest ≡ bytes
Unwritten (Down.write_failed bytes) f rest = rest ≡ bytes
Unwritten Down.clear f rest = (f ≡ true) ⊎ (rest ≡ [])
Unwritten Down.shut f rest = (f ≡ true) ⊎ (rest ≡ [])
Unwritten Down.done f rest = (f ≡ true) ⊎ (rest ≡ [])

-- What the second thread still has to send.
abbrev pub Unsent : Up → List ℕ → Type 0
Unsent (Up.send bytes) rest = rest ≡ bytes
Unsent Up.free rest = Unit {0}
Unsent Up.clear rest = Unit {0}
Unsent Up.shut rest = Unit {0}
Unsent Up.done rest = Unit {0}
Unsent _ rest = rest ≡ []

-- What the other thread can rely on.
abbrev pub DownEnds : Down → Bool → Bool → Type 0
DownEnds Down.shut running shut_down = running ≡ false
DownEnds Down.done running shut_down = (running ≡ false) × (shut_down ≡ true)
DownEnds _ running shut_down = Unit {0}

abbrev pub UpEnds : Up → Bool → Bool → Type 0
UpEnds Up.set_up_shut running shut_down = running ≡ false
UpEnds Up.set_up_free running shut_down = (running ≡ false) × (shut_down ≡ true)
UpEnds Up.shut running shut_down = running ≡ false
UpEnds Up.done running shut_down = (running ≡ false) × (shut_down ≡ true)
UpEnds _ running shut_down = Unit {0}

-- The event set is freed.
abbrev pub EventsKept : Up → Bool → Type 0
EventsKept Up.set_up events = events ≡ false
EventsKept Up.clear events = events ≡ false
EventsKept Up.shut events = events ≡ false
EventsKept Up.done events = events ≡ false
EventsKept _ events = Unit {0}

-- The first thread: what came from the client has been written, or is still to be written.
pub record DownInv (d : Down) (running shut_down serial_failed : Bool) (taken given : List ℕ)
    : Type 0 where
  pub unwritten : List ℕ
  pub bytes : taken ≡ given ++ unwritten
  pub left : Unwritten d serial_failed unwritten
  pub ends : DownEnds d running shut_down

-- The second thread: what came from the serial port has been sent, or is still to be sent.
pub record UpInv (u : Up) (running shut_down events : Bool) (taken given : List ℕ) : Type 0 where
  pub unsent : List ℕ
  pub bytes : taken ≡ given ++ unsent
  pub left : Unsent u unsent
  pub ends : UpEnds u running shut_down
  pub kept : EventsKept u events

pub record Inv (p : Pumps) : Type 0 where
  pub down_inv : DownInv p.down p.running p.shut_down p.serial_failed p.from_client p.to_serial
  pub up_inv : UpInv p.up p.running p.shut_down p.events p.from_serial p.to_client

-- What one thread does to the shared flags does not hurt the other.
UpEnds-clear : (u : Up) (r s : Bool) → UpEnds u r s → UpEnds u false s
UpEnds-clear Up.set_up_shut r s h = refl
UpEnds-clear Up.set_up_free r s h = (refl, h.1)
UpEnds-clear Up.shut r s h = refl
UpEnds-clear Up.done r s h = (refl, h.1)
UpEnds-clear _ r s h = tt

UpEnds-shut : (u : Up) (r s : Bool) → UpEnds u r s → UpEnds u r true
UpEnds-shut Up.set_up_shut r s h = h
UpEnds-shut Up.set_up_free r s h = (h.0, refl)
UpEnds-shut Up.shut r s h = h
UpEnds-shut Up.done r s h = (h.0, refl)
UpEnds-shut _ r s h = tt

DownEnds-clear : (d : Down) (r s : Bool) → DownEnds d r s → DownEnds d false s
DownEnds-clear Down.shut r s h = refl
DownEnds-clear Down.done r s h = (refl, h.1)
DownEnds-clear _ r s h = tt

DownEnds-shut : (d : Down) (r s : Bool) → DownEnds d r s → DownEnds d r true
DownEnds-shut Down.shut r s h = h
DownEnds-shut Down.done r s h = (h.0, refl)
DownEnds-shut _ r s h = tt

Unwritten-failed :
    (d : Down) (f : Bool) (rest : List ℕ) → Unwritten d f rest → Unwritten d true rest
Unwritten-failed Down.test f rest h = h
Unwritten-failed Down.recv f rest h = h
Unwritten-failed (Down.write bytes) f rest h = h
Unwritten-failed (Down.write_failed bytes) f rest h = h
Unwritten-failed Down.clear f rest h = inl refl
Unwritten-failed Down.shut f rest h = inl refl
Unwritten-failed Down.done f rest h = inl refl

pub UpInv-clear :
    {u : Up} {r s e : Bool} {xs ys : List ℕ} → UpInv u r s e xs ys → UpInv u false s e xs ys
UpInv-clear {u} {r} {s} i = record {
  unsent = i.unsent;
  bytes = i.bytes;
  left = i.left;
  ends = UpEnds-clear u r s i.ends;
  kept = i.kept;
}

pub UpInv-shut :
    {u : Up} {r s e : Bool} {xs ys : List ℕ} → UpInv u r s e xs ys → UpInv u r true e xs ys
UpInv-shut {u} {r} {s} i = record {
  unsent = i.unsent;
  bytes = i.bytes;
  left = i.left;
  ends = UpEnds-shut u r s i.ends;
  kept = i.kept;
}

pub DownInv-clear :
    {d : Down} {r s f : Bool} {xs ys : List ℕ} → DownInv d r s f xs ys → DownInv d false s f xs ys
DownInv-clear {d} {r} {s} i = record {
  unwritten = i.unwritten;
  bytes = i.bytes;
  left = i.left;
  ends = DownEnds-clear d r s i.ends;
}

pub DownInv-shut :
    {d : Down} {r s f : Bool} {xs ys : List ℕ} → DownInv d r s f xs ys → DownInv d r true f xs ys
DownInv-shut {d} {r} {s} i = record {
  unwritten = i.unwritten;
  bytes = i.bytes;
  left = i.left;
  ends = DownEnds-shut d r s i.ends;
}

pub DownInv-failed :
    {d : Down} {r s f : Bool} {xs ys : List ℕ} → DownInv d r s f xs ys → DownInv d r s true xs ys
DownInv-failed {d} {r} {s} {f} i = record {
  unwritten = i.unwritten;
  bytes = i.bytes;
  left = Unwritten-failed d f i.unwritten i.left;
  ends = i.ends;
}

-- All that was taken is given, and more is taken, or given too.
pub all_given : (xs ys rest new : List ℕ) → xs ≡ ys ++ rest → rest ≡ [] → xs ++ new ≡ ys ++ new
all_given xs ys rest new e none = rw (e, none, append-nil ys) refl

pub some_given :
    (xs ys rest sent left : List ℕ)
    → xs ≡ ys ++ rest
    → rest ≡ sent ++ left
    → xs ≡ (ys ++ sent) ++ left
some_given xs ys rest sent left e parts = e ∙ rw (parts) (sym (append_assoc ys sent left))

-- A step of the first thread, seen from where it is.
pub down_at :
    {p : Pumps} {d : Down}
    → p.down ≡ d
    → Inv p
    → DownInv d p.running p.shut_down p.serial_failed p.from_client p.to_serial
down_at {p} e i =
    subst (λ d. DownInv d p.running p.shut_down p.serial_failed p.from_client p.to_serial) e
      i.down_inv

pub up_at :
    {p : Pumps} {u : Up}
    → p.up ≡ u
    → Inv p
    → UpInv u p.running p.shut_down p.events p.from_serial p.to_client
up_at {p} e i =
    subst (λ u. UpInv u p.running p.shut_down p.events p.from_serial p.to_client) e i.up_inv

-- Nothing is left over in the new place.
pub settled :
    {d : Down} {r s f r' s' f' : Bool} {xs ys : List ℕ} (e : Down)
    → DownInv d r s f xs ys
    → ((rest : List ℕ) → Unwritten d f rest → Unwritten e f' rest)
    → DownEnds e r' s'
    → DownInv e r' s' f' xs ys
settled e i left ends = record {
  unwritten = i.unwritten;
  bytes = i.bytes;
  left = left i.unwritten i.left;
  ends = ends;
}

pub moved :
    {u : Up} {r s v r' s' v' : Bool} {xs ys : List ℕ} (w : Up)
    → UpInv u r s v xs ys
    → ((rest : List ℕ) → Unsent u rest → Unsent w rest)
    → UpEnds w r' s'
    → EventsKept w v'
    → UpInv w r' s' v' xs ys
moved w i left ends kept = record {
  unsent = i.unsent;
  bytes = i.bytes;
  left = left i.unsent i.left;
  ends = ends;
  kept = kept;
}
