-- ===== src/BusAccess/Invariant.antt =====
-- The invariant of a bus access handle, and what a call reports.
use ipdbg.Prelude.{
  ℕ, ◌+◌, ◌≤◌, ◌≡◌, refl, ap, ◌∙◌, sym, subst, Bool, true, false, Option, none, some, List, ◌⊎◌,
  inl, inr, arith, length, [], ◌++◌, append_assoc, append-nil,
}
use ipdbg.Os.{Os, wire, heard}
use ipdbg.Command.{Ret, error, ok, nak, ack, is_none, is_blank, Message, Handle, State, with_error}
use ipdbg.Link.Closing.{Broken, Closed}
use ipdbg.BusAccess.Core.{Sizes, BusCore, bus_env, free_buffers, max_size, get_buffe_size, round_up}

-- The widths in bytes are those of the widths in bits.
pub record IsRounded (z : Sizes) : Type 0 where
  pub address : z.address_width_bytes ≡ round_up z.address_width
  pub read_data : z.read_data_width_bytes ≡ round_up z.read_data_width
  pub write_data : z.write_data_width_bytes ≡ round_up z.write_data_width
  pub misc : z.misc_data_width_bytes ≡ round_up z.misc_data_width
  pub strobe : z.strobe_width_bytes ≡ round_up z.strobe_width

-- An open handle owns a buffer for the largest answer and its acknowledge byte, and a shadow of the
-- address of at least one byte.
pub record IsReady (c : BusCore) : Type 0 where
  pub rounded : IsRounded c.sizes
  pub bytes : List ℕ
  pub buffer : c.buffer ≡ some bytes
  pub length_buffer : length bytes ≡ get_buffe_size c.sizes + 1
  pub shadow : List ℕ
  pub address_shadow : c.address_shadow ≡ some shadow
  pub length_shadow : length shadow ≡ max_size c.sizes.address_width_bytes 1

-- A closed handle owns nothing.
pub record IsFreed (c : BusCore) : Type 0 where
  pub buffer : c.buffer ≡ none
  pub address_shadow : c.address_shadow ≡ none

pub record IsValid (s : State BusCore) : Type 0 where
  pub closed : is_none s.socket ≡ true → IsFreed s.core
  pub opened : is_none s.socket ≡ false → IsReady s.core

abbrev pub succeeded : Ret → Bool
succeeded ok = true
succeeded ack = true
succeeded error = false
succeeded nak = false

-- After a call the handle is valid, and the last error is "" exactly if the call has succeeded.
pub record Sound (r : Ret) (s : State BusCore) : Type 0 where
  pub valid : IsValid s
  pub reports : is_blank s.last_error ≡ succeeded r

-- In the middle of a call: open, valid, and no error yet.
pub record IsLive (s : State BusCore) : Type 0 where
  pub connected : is_none s.socket ≡ false
  pub ready : IsReady s.core
  pub no_error : is_blank s.last_error ≡ true

pub IsValid-IsLive : {s : State BusCore} → IsLive s → IsValid s
IsValid-IsLive l = record { closed = λ h. cc (h, l.connected); opened = λ _. l.ready }

pub Sound-ok : {s : State BusCore} → IsLive s → Sound ok s
Sound-ok l = record { valid = IsValid-IsLive l; reports = l.no_error }

pub IsLive-same :
    {s : State BusCore} (s' : State BusCore) → s'.handle ≡ s.handle → IsLive s → IsLive s'
IsLive-same s' same l = record {
  connected = ap (λ (h : Handle BusCore). is_none h.socket) same ∙ l.connected;
  ready = subst (λ (h : Handle BusCore). IsReady h.core) (sym same) l.ready;
  no_error = ap (λ (h : Handle BusCore). is_blank h.last_error) same ∙ l.no_error;
}

pub Sound-with_error :
    {s : State BusCore} (r : Ret) (message : Message)
    → IsValid s
    → is_blank message ≡ succeeded r
    → Sound r (with_error s message)
Sound-with_error r message v set = record {
  valid = record { closed = v.closed; opened = v.opened };
  reports = set;
}

pub IsFreed-free_buffers : (c d : BusCore) → d ≡ free_buffers c → IsFreed d
unfolding free_buffers
IsFreed-free_buffers c d e = record { buffer = rw e; address_shadow = rw e }

module _ (os : Os) (fuel : ℕ) where
  -- Whatever a failed call of the connection leaves behind is valid.
  pub Sound-Broken :
      (h : Handle BusCore) (s' : State BusCore)
      → is_none h.socket ≡ false
      → IsReady h.core
      → Broken (bus_env os fuel) h s'
      → Sound error s'
  unfolding bus_env
  Sound-Broken h s' connected ready b = record { valid = go b.shape; reports = b.reported }
    where
      go :
          (s'.socket ≡ h.socket) × (s'.core ≡ h.core)
            ⊎ (s'.socket ≡ none) × (s'.core ≡ free_buffers h.core)
          → IsValid s'
      go (inl (socket, core)) = record {
        closed = λ c. cc (c, ap is_none socket, connected);
        opened = λ _. subst IsReady (sym core) ready;
      }
      go (inr (socket, core)) = record {
        closed = λ _. IsFreed-free_buffers h.core s'.core core;
        opened = λ o. cc (o, ap is_none socket);
      }

  pub Sound-Closed :
      (s : State BusCore) (r : Ret) (s' : State BusCore)
      → is_blank s.last_error ≡ false
      → Closed (bus_env os fuel) s r s'
      → Sound error s'
  unfolding bus_env
  Sound-Closed s r s' set c = record {
    valid = record {
      closed = λ _. IsFreed-free_buffers s.core s'.core c.core;
      opened = λ o. cc (o, ap is_none c.socket);
    };
    reports = rw (c.first_error set) set;
  }

-- What has been sent and read since `s`, with the sizes as they were, and the shadow of the address.
pub record Moved (sent got : List ℕ) (shadow : Option (List ℕ)) (s s' : State BusCore)
    : Type 0 where
  pub live : IsLive s'
  pub sizes : s'.core.sizes ≡ s.core.sizes
  pub shadowed : s'.core.address_shadow ≡ shadow
  pub wire_grows : wire s'.trace ≡ wire s.trace ++ sent
  pub heard_grows : heard s'.trace ≡ heard s.trace ++ got

pub Moved-nothing : {s : State BusCore} → IsLive s → Moved [] [] s.core.address_shadow s s
Moved-nothing l = record {
  live = l;
  sizes = refl;
  shadowed = refl;
  wire_grows = sym (append-nil _);
  heard_grows = sym (append-nil _);
}

-- The error that a call begins with does not matter.
pub Moved-begin :
    {sent got : List ℕ} {shadow : Option (List ℕ)} (s : State BusCore) (message : Message)
    {s' : State BusCore}
    → Moved sent got shadow (with_error s message) s'
    → Moved sent got shadow s s'
Moved-begin s message m = record {
  live = m.live;
  sizes = m.sizes;
  shadowed = m.shadowed;
  wire_grows = m.wire_grows;
  heard_grows = m.heard_grows;
}

pub Moved-trans :
    {sent got sent' got' : List ℕ} {shadow : Option (List ℕ)} {s s₁ s' : State BusCore}
    → Moved sent got shadow s s₁
    → Moved sent' got' s₁.core.address_shadow s₁ s'
    → Moved (sent ++ sent') (got ++ got') shadow s s'
Moved-trans {sent} {got} {sent'} {got'} {s} m n = record {
  live = n.live;
  sizes = n.sizes ∙ m.sizes;
  shadowed = n.shadowed ∙ m.shadowed;
  wire_grows = rw (n.wire_grows, m.wire_grows) (append_assoc (wire s.trace) sent sent');
  heard_grows = rw (n.heard_grows, m.heard_grows) (append_assoc (heard s.trace) got got');
}

-- The buffer holds every field and the acknowledge byte.
pub get_buffe_size_bounds :
    (z : Sizes)
    → (z.address_width_bytes ≤ get_buffe_size z)
      × (z.read_data_width_bytes ≤ get_buffe_size z)
      × (z.write_data_width_bytes ≤ get_buffe_size z)
      × (z.misc_data_width_bytes ≤ get_buffe_size z)
      × (z.strobe_width_bytes ≤ get_buffe_size z)
unfolding get_buffe_size
get_buffe_size_bounds z = ground arith
