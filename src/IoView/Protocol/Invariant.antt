-- ===== src/IoView/Protocol/Invariant.antt =====
-- The invariant of the connection of the user interface, and closing it.
use ipdbg.Prelude.{
  ℕ, ◌%◌, ◌^◌, ◌≡◌, refl, ap, Bool, true, false, Option, none, some, [], ◌∷◌, ◌++◌, inl, inr,
  length, Option-cases, if◌then◌else◌,
}
use ipdbg.Os.{Os, IsQuiet}
use ipdbg.Command.{this, Handle, State, Run, Cmd, is_none}
use ipdbg.Link.Returns.{Returns, returned, weaken}
use ipdbg.Link.Closing.{close_socket-Closed, close_socket-none}
use ipdbg.BusAccess.Core.{BusCore, bus_env, get_core_type}
use ipdbg.BusAccess.Session
use ipdbg.BusAccess.Invariant.{IsValid}
use ipdbg.IoView.Protocol.{
  Protocol, Failure, Shown, Ended, core_type_ioprobe, port_bytes, show, resume, call, close,
  cleared, after_close, fail_now, fail,
}

-- What a call that returns leaves behind.
pub data Ends (Q : Protocol → Type 0) : Ended → Type 0 where
  ended : {p : Protocol} → Q p → Ends Q (some p)

pub Ends-weaken :
    {Q R : Protocol → Type 0} {e : Ended} → Ends Q e → ((p : Protocol) → Q p → R p) → Ends R e
Ends-weaken (ended q) next = ended (next _ q)

pub if-Ends :
    {Q : Protocol → Type 0} {x y : Ended} (b : Bool)
    → (b ≡ true → Ends Q x)
    → (b ≡ false → Ends Q y)
    → Ends Q (if b then x else y)
if-Ends true then_ else_ = then_ refl
if-Ends false then_ else_ = else_ refl

-- The panel shows the ports of the core, which is an IoProbe and connected.
pub record Matches (h : Handle BusCore) (p : Protocol) : Type 0 where
  pub connected : is_none h.socket ≡ false
  pub inputs : p.number_of_inputs ≡ h.core.sizes.read_data_width % 2 ^ 32
  pub outputs : p.number_of_outputs ≡ h.core.sizes.write_data_width % 2 ^ 32
  pub is_ioprobe : get_core_type h.core.sizes.version_and_id ≡ core_type_ioprobe

-- Without a handle there are no ports and no timer runs. A handle is one that the library accepts,
-- and until an access has failed the ports are those of its core.
abbrev pub Attached : Option (Handle BusCore) → Protocol → Type 0
Attached none p = (p.number_of_inputs ≡ 0) × (p.number_of_outputs ≡ 0) × (p.timer ≡ false)
Attached (some h) p =
    IsValid (record { handle = h; trace = p.trace }) × (p.failing ≡ false → Matches h p)

abbrev pub one_if : Bool → ℕ
one_if b = if b then 1 else 0

pub record IsFine (p : Protocol) : Type 0 where
  pub attached : Attached p.handle p
  pub sized : length p.input_buffer ≡ port_bytes p.number_of_inputs
  pub one_pending : length p.pending ≡ one_if p.failing

pub Attached-show :
    (x : Shown) (h : Option (Handle BusCore)) (p : Protocol) → Attached h p → Attached h (show x p)
Attached-show x none p a = a
Attached-show x (some h) p (v, m) = (
  v,
  λ e. record {
    connected = (m e).connected;
    inputs = (m e).inputs;
    outputs = (m e).outputs;
    is_ioprobe = (m e).is_ioprobe;
  },
)

pub IsFine-show : (x : Shown) (p : Protocol) → IsFine p → IsFine (show x p)
IsFine-show x p f = record {
  attached = Attached-show x p.handle p f.attached;
  sized = f.sized;
  one_pending = f.one_pending;
}

-- A call of the library that returns.
pub call-Ends :
    {A : Type 0} {P : A → State BusCore → Type 0} {Q : Protocol → Type 0} (m : Cmd BusCore A)
    (p : Protocol) (h : Handle BusCore) (k : A → Protocol → Ended)
    → p.handle ≡ some h
    → Returns P (m (record { handle = h; trace = p.trace }))
    → ((a : A) (s : State BusCore)
        → P a s
        → Ends Q (k a (record p { handle = some s.handle; trace = s.trace })))
    → Ends Q (call m p k)
call-Ends {A} {P} {Q} m p h k at returns next = rw at (go returns)
  where
    go : {run : Run BusCore A} → Returns P run → Ends Q (resume p run k)
    go (returned q) = next _ _ q

module _ (os : Os) (fuel : ℕ) (quiet : IsQuiet os fuel) where
  -- The library closes whatever the handle is connected to.
  pub delete-Returns :
      (s : State BusCore) → Returns (λ _ _. Unit {0}) (Session.delete os fuel this s)
  unfolding Session.delete bus_env
  delete-Returns s = elim (Option-cases s.socket) [
    | inl closed ↦ rw (close_socket-none (bus_env os fuel) quiet s closed) (returned tt)
    | inr (fd, opened) ↦
        weaken (close_socket-Closed (bus_env os fuel) quiet s (ap is_none opened)) λ r s' c. tt
  ]

  -- No handle, no ports, no timer; the pending calls stay.
  pub record Cleared (p p' : Protocol) : Type 0 where
    pub handle : p'.handle ≡ none
    pub inputs : p'.number_of_inputs ≡ 0
    pub outputs : p'.number_of_outputs ≡ 0
    pub input_buffer : p'.input_buffer ≡ []
    pub timer : p'.timer ≡ false
    pub failing : p'.failing ≡ p.failing
    pub pending : p'.pending ≡ p.pending

  pub close-Cleared : (p : Protocol) → Ends (Cleared p) (close os fuel p)
  unfolding close cleared
  close-Cleared p = elim (Option-cases p.handle) [
    | inl absent ↦ rw (ap is_none absent) (ended (all p refl refl))
    | inr (h, at) ↦ rw (ap is_none at) (
        call-Ends (Session.delete os fuel this) p h _ at (delete-Returns _)
          λ a s _. ended (all (record p { handle = some s.handle; trace = s.trace }) refl refl))
  ]
    where
      all :
          (p' : Protocol)
          → p'.failing ≡ p.failing
          → p'.pending ≡ p.pending
          → Cleared p (cleared os fuel p')
      all p' failing pending = record {
        handle = refl;
        inputs = refl;
        outputs = refl;
        input_buffer = refl;
        timer = refl;
        failing = failing;
        pending = pending;
      }

  IsFine-Cleared :
      (p p' : Protocol) → length p.pending ≡ one_if p.failing → Cleared p p' → IsFine p'
  unfolding port_bytes
  IsFine-Cleared p p' one c = record {
    attached = rw c.handle (c.inputs, c.outputs, c.timer);
    sized = rw (c.input_buffer, c.inputs) refl;
    one_pending = rw (c.pending, c.failing) one;
  }

  pub close-IsFine :
      (p : Protocol) → length p.pending ≡ one_if p.failing → Ends IsFine (close os fuel p)
  close-IsFine p one = Ends-weaken (close-Cleared p) λ p' c. IsFine-Cleared p p' one c

  pub fail_now-IsFine :
      (message : Failure) (p : Protocol)
      → length p.pending ≡ one_if p.failing
      → Ends IsFine (fail_now os fuel message p)
  unfolding fail_now after_close
  fail_now-IsFine message p one = go (close-IsFine p one)
    where
      go : {e : Ended} → Ends IsFine e → Ends IsFine (after_close os fuel message e)
      go (ended f) = ended (IsFine-show (Shown.failure message) _ f)

-- The first failure is left for the event loop, and nothing is done with the handle until then.
module _ (message : Failure) (p : Protocol) (h : Handle BusCore) (at : p.handle ≡ some h)
    (v : IsValid (record { handle = h; trace = p.trace }))
    (sized : length p.input_buffer ≡ port_bytes p.number_of_inputs) (empty : p.pending ≡ []) where
  pub waiting-IsFine :
      IsFine (record p { failing = true; timer = false; pending = p.pending ++ (message ∷ []) })
  waiting-IsFine = record {
    attached = rw at (v, λ e. cc);
    sized = sized;
    one_pending = rw empty refl;
  }

  pub fail-IsFine : (os : Os) (fuel : ℕ) → p.failing ≡ false → Ends IsFine (fail os fuel message p)
  unfolding fail
  fail-IsFine os fuel working = rw working (ended waiting-IsFine)
