-- ===== src/BusAccess/Usage.antt =====
-- Any sequence of calls of the bus access library on one handle.
use ipdbg.Prelude.{
  ℕ, ◌^◌, ◌≤◌, ◌<◌, ◌≡◌, refl, ap, subst, Bool, true, Option, none, some, List, length, inl, inr,
  Option-cases,
}
use ipdbg.Os.{Os, IsQuiet, Trace}
use ipdbg.Command.{
  Ret, error, ok, nak, ack, this, State, Handle, Cmd, Run, done, pure, ◌>>=◌, is_none, blank,
  already_connected, with_error,
}
use ipdbg.Link.{begin}
use ipdbg.Link.Returns.{Returns, returned, Outcome, bind_rule, weaken}
use ipdbg.Link.Connecting.Outcome.{connect_host_again}
use ipdbg.BusAccess.Core.{Sizes, BusCore, bus_env}
use ipdbg.BusAccess.Access.{
  modified, write_ctrllock, read_ctrllock, read_modify_write, set_miscellaneous, set_strobe,
}
use ipdbg.BusAccess.Masters.{set_axprot, set_pprot, set_debug_access, set_hprot_hsize, set_resets}
use ipdbg.BusAccess.Session.{new, open_connection, close, set_timeout, query}
use ipdbg.BusAccess.Invariant.{IsValid, IsLive, Sound, Sound-ok, Sound-with_error}
use ipdbg.BusAccess.Write.{write_ctrllock-WritePost}
use ipdbg.BusAccess.Read.{read_ctrllock-ReadPost}
use ipdbg.BusAccess.Modify.{read_modify_write-ModifyPost}
use ipdbg.BusAccess.Signals.{set_miscellaneous-Step, set_strobe-Step}
use ipdbg.BusAccess.Kinds.{
  set_axprot-Signalled, set_pprot-Signalled, set_debug_access-Signalled, set_resets-Signalled,
}
use ipdbg.BusAccess.Hprot.{set_hprot_hsize-HprotSet}
use ipdbg.BusAccess.Opening.Opened.{open_connection-Opened}
use ipdbg.BusAccess.Opening.Prepared.{Opened, NotOpened}
use ipdbg.BusAccess.Ending.{Ended, close-Ended, set_timeout-TimeoutSet, query-Queried}

-- The functions of BusAccess.h that take a handle, but the one that ends its life.
pub data Call : Type 0 where
  open_call : Option ℕ → Option ℕ → Call
  close_call : Call
  timeout_call : ℕ → Call
  write_call : List ℕ → List ℕ → Bool → Call
  read_call : List ℕ → Bool → Call
  modify_call : List ℕ → Option (List ℕ → List ℕ) → Call
  misc_call strobe_call : List ℕ → Call
  axprot_call : ℕ → ℕ → Call
  pprot_call debug_call : ℕ → Call
  hprot_call : ℕ → ℕ → Call
  resets_call : Bool → Bool → Call
  query_call : Bool → (Sizes → ℕ) → Call

-- What the caller's pointers have to give access to.
unfoldable pub Allowed : Call → State BusCore → Type 0
unfolding modified
Allowed (write_call address bytes locked) s =
    (s.core.sizes.address_width_bytes ≤ length address)
    × (s.core.sizes.write_data_width_bytes ≤ length bytes)
Allowed (read_call address locked) s = s.core.sizes.address_width_bytes ≤ length address
Allowed (modify_call address modify) s =
    (s.core.sizes.address_width_bytes ≤ length address)
    × ((bytes : List ℕ) → length (modified modify bytes) ≡ length bytes)
Allowed (misc_call bytes) s = s.core.sizes.misc_data_width_bytes ≤ length bytes
Allowed (strobe_call bytes) s = s.core.sizes.strobe_width_bytes ≤ length bytes
Allowed (hprot_call hprot hsize) s = s.core.sizes.misc_data_width < 2 ^ 32
Allowed _ s = Unit

module _ (os : Os) (fuel : ℕ) where
  -- The call, without what it stores for the caller.
  unfoldable pub perform : Call → Cmd BusCore Ret
  perform (open_call host port) = open_connection os fuel this host port
  perform close_call = close os fuel this
  perform (timeout_call milliseconds) = set_timeout os fuel this milliseconds
  perform (write_call address bytes locked) = write_ctrllock os fuel this address bytes locked
  perform (read_call address locked) = do
    (ret, _) ← read_ctrllock os fuel this address locked
    pure ret
  perform (modify_call address modify) = read_modify_write os fuel this address modify
  perform (misc_call bytes) = set_miscellaneous os fuel this bytes
  perform (strobe_call bytes) = set_strobe os fuel this bytes
  perform (axprot_call arprot awprot) = set_axprot os fuel this arprot awprot
  perform (pprot_call pprot) = set_pprot os fuel this pprot
  perform (debug_call debug) = set_debug_access os fuel this debug
  perform (hprot_call hprot hsize) = set_hprot_hsize os fuel this hprot hsize
  perform (resets_call reset hardreset) = set_resets os fuel this reset hardreset
  perform (query_call has_result f) = do (ret, _) ← query this has_result f; pure ret

  -- Calls one after the other, each with what it has to be given.
  pub data Reaches (s : State BusCore) : State BusCore → Type 0 where
    begins : Reaches s s
    calls :
        {s₁ s' : State BusCore} (call : Call) (r : Ret)
        → Reaches s s₁
        → Allowed call s₁
        → perform call s₁ ≡ done r s'
        → Reaches s s'

result_of :
    {P : Ret → State BusCore → Type 0} (r : Ret) (s : State BusCore) (run : Run BusCore Ret)
    → Returns P run
    → run ≡ done r s
    → P r s
result_of {P} r s run returns at = go (subst (λ x. Returns P x) at returns)
  where
    go : Returns P (done r s) → P r s
    go (returned p) = p

module _ (os : Os) (fuel : ℕ) (quiet : IsQuiet os fuel) where
  open_connection-Sound :
      (host port : Option ℕ) (s : State BusCore)
      → IsValid s
      → Returns Sound (open_connection os fuel this host port s)
  unfolding open_connection begin
  open_connection-Sound host port s v = elim (Option-cases s.socket) [
    | inl closed ↦
        weaken
          (open_connection-Opened os fuel quiet host port s closed (v.closed (ap is_none closed)))
          sound
    | inr (fd, opened) ↦
        rw (connect_host_again (bus_env os fuel) host port (with_error s blank) (ap is_none opened))
          (returned (Sound-with_error error already_connected v refl))
  ]
    where
      sound : (r : Ret) (s' : State BusCore) → Outcome Opened NotOpened r s' → Sound r s'
      sound ok s' o = Sound-ok o.live
      sound error s' n = record {
        valid = record { closed = λ _. n.freed; opened = λ h. cc (h, ap is_none n.socket) };
        reports = n.reported;
      }
      sound nak s' p = absurd p
      sound ack s' p = absurd p

  Sound-signal :
      {S : State BusCore → Type 0} {run : Run BusCore Ret}
      → ((s' : State BusCore) → S s' → IsLive s')
      → Returns (Outcome S (Sound error)) run
      → Returns Sound run
  Sound-signal {S} live returns = weaken returns go
    where
      go : (r : Ret) (s' : State BusCore) → Outcome S (Sound error) r s' → Sound r s'
      go ok s' p = Sound-ok (live s' p)
      go error s' sound = sound
      go nak s' p = absurd p
      go ack s' p = absurd p

  Sound-Ended : (r : Ret) (s' : State BusCore) → Ended r s' → Sound r s'
  Sound-Ended r s' e = record {
    valid = record { closed = λ _. e.freed; opened = λ h. cc (h, ap is_none e.socket) };
    reports = e.reports;
  }

  pub perform-Sound :
      (call : Call) (s : State BusCore)
      → IsValid s
      → Allowed call s
      → Returns Sound (perform os fuel call s)
  unfolding perform Allowed
  perform-Sound (open_call host port) s v a = open_connection-Sound host port s v
  perform-Sound close_call s v a = weaken (close-Ended os fuel quiet s v) Sound-Ended
  perform-Sound (timeout_call milliseconds) s v a =
      weaken (set_timeout-TimeoutSet os fuel milliseconds s v) λ r s' p. p.sound
  perform-Sound (write_call address bytes locked) s v (has_address, has_data) =
      weaken (write_ctrllock-WritePost os fuel quiet address bytes locked s v has_address has_data)
        λ r s' p. p.sound
  perform-Sound (read_call address locked) s v a =
      bind_rule (read_ctrllock-ReadPost os fuel quiet address locked s v a)
        λ (r, result) s' p. returned p.sound
  perform-Sound (modify_call address modify) s v (has_address, in_place) =
      weaken (read_modify_write-ModifyPost os fuel quiet address modify s v has_address in_place)
        λ r s' p. p.sound
  perform-Sound (misc_call bytes) s v a =
      Sound-signal (λ s' m. m.live) (set_miscellaneous-Step os fuel quiet bytes s v a)
  perform-Sound (strobe_call bytes) s v a =
      Sound-signal (λ s' m. m.live) (set_strobe-Step os fuel quiet bytes s v a)
  perform-Sound (axprot_call arprot awprot) s v a =
      Sound-signal (λ s' m. m.moved.live) (set_axprot-Signalled os fuel quiet arprot awprot s v)
  perform-Sound (pprot_call pprot) s v a =
      Sound-signal (λ s' m. m.moved.live) (set_pprot-Signalled os fuel quiet pprot s v)
  perform-Sound (debug_call debug) s v a =
      Sound-signal (λ s' m. m.moved.live) (set_debug_access-Signalled os fuel quiet debug s v)
  perform-Sound (hprot_call hprot hsize) s v a =
      Sound-signal (λ s' m. m.moved.live)
        (weaken (set_hprot_hsize-HprotSet os fuel quiet hprot hsize s v a) λ r s' p. p.outcome)
  perform-Sound (resets_call reset hardreset) s v a =
      Sound-signal (λ s' m. m.moved.live) (set_resets-Signalled os fuel quiet reset hardreset s v)
  perform-Sound (query_call has_result f) s v a =
      bind_rule (query-Queried has_result f s v) λ (r, result) s' p. returned p.sound

  Reaches-IsValid : {s s' : State BusCore} → IsValid s → Reaches os fuel s s' → IsValid s'
  Reaches-IsValid v begins = v
  Reaches-IsValid {s'} v (calls {s₁} call r before allowed at) =
      (result_of r s' (perform os fuel call s₁)
        (perform-Sound call s₁ (Reaches-IsValid v before) allowed) at).valid

  -- For an operating system that drains within the fuel after a shutdown, and after any sequence
  -- of calls on a new handle, each with as many bytes behind its pointers as it needs and with a
  -- `modify` that keeps the number of bytes, every next such call returns without a bad memory
  -- access, leaves a valid handle, and the last error is empty exactly if it returns RET_OK or
  -- RET_ACK.
  pub Reaches-perform :
      (handle : Handle BusCore) (t : Trace) (s : State BusCore) (call : Call)
      → new true ≡ some handle
      → Reaches os fuel (record { handle = handle; trace = t }) s
      → Allowed call s
      → Returns Sound (perform os fuel call s)
  unfolding new
  Reaches-perform handle t s call made reached allowed =
      perform-Sound call s (Reaches-IsValid fresh reached) allowed
    where
      the_handle : Option (Handle BusCore) → Handle BusCore
      the_handle none = handle
      the_handle (some h) = h

      fresh : IsValid (record { handle = handle; trace = t })
      fresh =
          subst (λ (h : Handle BusCore). IsValid (record { handle = h; trace = t }))
            (ap the_handle made)
            (record {
              closed = λ h. record { buffer = refl; address_shadow = refl };
              opened = λ h. cc;
            })
