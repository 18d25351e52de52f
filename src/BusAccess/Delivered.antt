-- ===== src/BusAccess/Delivered.antt =====
-- From the library to the bus: as long as the shadow and the address register of the core agree, an
-- access that the core answers is done at the address that the caller gave, also where the library
-- has not sent it.
use ipdbg.Prelude.{
  ℕ, ◌≤◌, ◌≡◌, refl, ap, ◌∙◌, sym, Bool, true, Option, none, List, [], ◌∷◌, arith, length,
  length-replicate, ◌==◌, take, append-nil, Bool-cases, inl, inr,
}
use ipdbg.Os.{Os, IsQuiet}
use ipdbg.Command.{Ret, error, ok, nak, ack, this, State}
use ipdbg.Escaping.{escape_all, Mode, normal}
use ipdbg.Link.Returns.{Returns, Outcome, weaken}
use ipdbg.BusAccess.Core.{Sizes, BusCore, set_addr_cmd, max_size}
use ipdbg.BusAccess.Session.{open_connection}
use ipdbg.BusAccess.Opening.Opened.{open_connection-Opened}
use ipdbg.BusAccess.Opening.Prepared.{zeros, Opened, NotOpened}
use ipdbg.BusAccess.Access.{write_ctrllock, read_ctrllock}
use ipdbg.BusAccess.Invariant.{IsValid, IsFreed}
use ipdbg.BusAccess.Exchange.{is_answer}
use ipdbg.BusAccess.Address.{given, address_command, length-given, le-max_size}
use ipdbg.BusAccess.Write.{write_frame, write_ctrllock-WritePost}
use ipdbg.BusAccess.Read.{read_frame, read_ctrllock-ReadPost}
use ipdbg.BusAccess.Target.{to_address, write_access, read_access, Target, finish, feed, restart}
use ipdbg.BusAccess.Target.Cut.{low, cut-low}
use ipdbg.BusAccess.Target.Frames.{feed-opening, feed-field, dispatch-address}
use ipdbg.BusAccess.Coherent.{
  aligned, performed, kept, Coherent, nothing_kept, feed-write_frame, feed-read_frame,
  Coherent-Exchanged,
}

module _ (os : Os) (fuel : ℕ) (quiet : IsQuiet os fuel) where
  -- For an operating system that drains within the fuel after a shutdown, on a valid handle with
  -- enough bytes of address and data, and with the address register that the core has after all
  -- that was sent equal to the shadow cut to its width, IpdbgBusAccess_write_ctrllock returns; if
  -- the core has answered, then all that has been sent by then makes the core do exactly this one
  -- access more, a write with the lock, whose address and data are the numbers of the bytes
  -- modulo 2 to the power of their widths, and the register is the new shadow, cut to its width,
  -- again.
  pub write_ctrllock-Coherent :
      (before : Mode × Target) (address bytes : List ℕ) (locked : Bool) (s : State BusCore)
      (t : Target)
      → IsValid s
      → s.core.sizes.address_width_bytes ≤ length address
      → s.core.sizes.write_data_width_bytes ≤ length bytes
      → Coherent before s t
      → Returns
          (λ r s'.
            is_answer r ≡ true
            → Coherent before s' (
                performed
                  (write_access locked
                    (low s.core.sizes.address_width (take s.core.sizes.address_width_bytes address))
                    (low s.core.sizes.write_data_width
                      (take s.core.sizes.write_data_width_bytes bytes)))
                  t))
          (write_ctrllock os fuel this address bytes locked s)
  write_ctrllock-Coherent before address bytes locked s t v has_address has_data c =
      weaken (write_ctrllock-WritePost os fuel quiet address bytes locked s v has_address has_data)
        λ r s' p answered.
          rw (← cut-low s.core.sizes.address_width _, ← cut-low s.core.sizes.write_data_width _)
            (Coherent-Exchanged before s s' t _ (write_frame s.core address bytes locked) _ address
              c has_address
              (λ shadow at.
                feed-write_frame s.core shadow address bytes locked t at has_address has_data
                  (p.has_field answered))
              (p.answered answered))

  -- For an operating system that drains within the fuel after a shutdown, on a valid handle with
  -- enough bytes of address, and with the address register that the core has after all that was
  -- sent equal to the shadow cut to its width, IpdbgBusAccess_read_ctrllock returns; if the core
  -- has answered, then all that has been sent by then makes the core do exactly this one access
  -- more, a read with the lock, whose address is the number of the bytes modulo 2 to the power of
  -- its width, and the register is the new shadow, cut to its width, again.
  pub read_ctrllock-Coherent :
      (before : Mode × Target) (address : List ℕ) (locked : Bool) (s : State BusCore) (t : Target)
      → IsValid s
      → s.core.sizes.address_width_bytes ≤ length address
      → Coherent before s t
      → Returns
          (λ (r, result) s'.
            is_answer r ≡ true
            → Coherent before s' (
                performed
                  (read_access locked (
                    low s.core.sizes.address_width (take s.core.sizes.address_width_bytes address)))
                  t))
          (read_ctrllock os fuel this address locked s)
  read_ctrllock-Coherent before address locked s t v has_address c =
      weaken (read_ctrllock-ReadPost os fuel quiet address locked s v has_address)
        λ (r, result) s' p answered.
          let a = p.answered answered in
          rw (← cut-low s.core.sizes.address_width _) (
            Coherent-Exchanged before s s' t _ (read_frame s.core address locked) _ address c
              has_address
              (λ shadow at.
                feed-read_frame s.core shadow address locked t at has_address a.has_field)
              a.exchanged)

  -- What open sends.
  Opened-Coherent :
      (before : Mode × Target) (s : State BusCore) → Opened s → (t : Target) × Coherent before s t
  unfolding address_command feed finish
  Opened-Coherent before s o =
      let (u, restarted) = feed-opening z before.0 before.1 (address_command s.core (zeros z)) in
      (
        restart z u,
        record {
          shadow = zeros z;
          address_shadow = o.shadowed;
          long_enough = enough;
          fed = ap (feed z before.0 before.1) o.wire_is ∙ restarted ∙ addressed u;
        },
      )
    where
      z : Sizes
      z = s.core.sizes

      n : ℕ
      n = z.address_width_bytes

      enough : n ≤ length (zeros z)
      enough = omega (arith, length-replicate {A = ℕ} (max_size n 1) 0, le-max_size n)

      addressed :
          (u : Target)
          → feed z normal (restart z u) (address_command s.core (zeros z))
            ≡ (normal, aligned (restart z u) (kept z (zeros z)))
      addressed u = elim (Bool-cases (n == 0)) [
        | inl absent ↦
            rw absent
              (ap (λ a. (normal, aligned (restart z u) a)) (nothing_kept z (zeros z) absent))
        | inr present ↦ rw present (
            ap (feed z normal (restart z u))
              (sym (append-nil (set_addr_cmd ∷ escape_all (given s.core (zeros z)))))
            ∙ feed-field z to_address set_addr_cmd n (given s.core (zeros z)) (restart z u) [] refl
                refl (dispatch-address z (restart z u) present) present
                (length-given s.core (zeros z) enough))
      ]

  -- For an operating system that drains within the fuel after a shutdown, from a closed handle
  -- without buffers, and whatever the core and its escaping entity were doing before,
  -- IpdbgBusAccess_open returns: with the address register that the core has after all that was
  -- sent equal to the shadow cut to its width, or with no socket, no buffers and an error.
  pub open_connection-Coherent :
      (before : Mode × Target) (host port : Option ℕ) (s : State BusCore)
      → s.socket ≡ none
      → IsFreed s.core
      → Returns
          (Outcome (λ s'. (t : Target) × Coherent before s' t) NotOpened)
          (open_connection os fuel this host port s)
  open_connection-Coherent before host port s closed freed =
      weaken (open_connection-Opened os fuel quiet host port s closed freed) go
    where
      go :
          (r : Ret) (s' : State BusCore)
          → Outcome Opened NotOpened r s'
          → Outcome (λ s'. (t : Target) × Coherent before s' t) NotOpened r s'
      go ok s' o = Opened-Coherent before s' o
      go error s' n = n
      go nak s' o = absurd o
      go ack s' o = absurd o
