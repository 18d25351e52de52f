-- ===== src/BusAccess/Hprot.antt =====
-- IpdbgAhbAccess_setHprotHsize: which masters it takes, and what they get.
use ipdbg.Prelude.{
  ℕ, ◌*◌, ◌%◌, ◌^◌, ◌<◌, ◌≡◌, refl, false, inl, inr, List, [], ◌∷◌, arith, take, ◌==◌, ==_iff, ltb,
  Bool-cases,
}
use ipdbg.Os.{Os, IsQuiet}
use ipdbg.Command.{
  Ret, error, ok, nak, ack, this, State, Run, done, with_error, blank, is_none, is_blank, Message,
  not_connected, not_an_ahb_master, hsize_too_big,
}
use ipdbg.Escaping.{escape_all}
use ipdbg.Link.{begin, reject_if}
use ipdbg.Link.Returns.{Returns, returned, Outcome, weaken}
use ipdbg.BusAccess.Core.{BusCore, set_misc_cmd}
use ipdbg.BusAccess.Access.{set_miscellaneous}
use ipdbg.BusAccess.Masters.{hprot_width_of, is_hprot_width, set_hprot_hsize}
use ipdbg.BusAccess.Invariant.{IsValid, Sound, Sound-with_error, Moved, Moved-begin}
use ipdbg.BusAccess.Steps.{Step}
use ipdbg.BusAccess.Signals.{set_miscellaneous-Step}
use ipdbg.BusAccess.Ahb.{
  IsAhb, ahb_bytes, hprot_width-IsAhb, IsAhb-hprot_width, size_of, bytes_of_ahb, two_bytes,
}

pub record HprotSet (hprot hsize : ℕ) (s s' : State BusCore) : Type 0 where
  pub ahb : IsAhb hsize s.core.sizes
  pub moved :
      Moved
        (set_misc_cmd
          ∷ escape_all (
              take s.core.sizes.misc_data_width_bytes
                (ahb_bytes s.core.sizes.misc_data_width hprot hsize)))
        []
        s.core.address_shadow
        s
        s'

and_equal :
    {P : Ret → State BusCore → Type 0} {run : Run BusCore Ret}
    → Returns P run
    → Returns (λ r s'. P r s' × (run ≡ done r s')) run
and_equal (returned p) = returned (p, refl)

module _ (os : Os) (fuel : ℕ) where
  -- What the call does with any handle.
  pub record HprotPost (hprot hsize : ℕ) (s : State BusCore) (r : Ret) (s' : State BusCore)
      : Type 0 where
    pub outcome : Outcome (HprotSet hprot hsize s) (Sound error) r s'
    pub refused : (IsAhb hsize s.core.sizes → ⊥) → (r ≡ error) × (s'.trace ≡ s.trace)
    pub passed_on :
        is_none s.socket ≡ false
        → IsAhb hsize s.core.sizes
        → set_miscellaneous os fuel this
            (ahb_bytes s.core.sizes.misc_data_width hprot hsize)
            (with_error s blank)
          ≡ done r s'

module _ (os : Os) (fuel : ℕ) (quiet : IsQuiet os fuel) where
  taken-HprotPost :
      (hprot hsize : ℕ) (s : State BusCore)
      → IsValid s
      → is_none s.socket ≡ false
      → IsAhb hsize s.core.sizes
      → Returns (HprotPost os fuel hprot hsize s) (
          set_miscellaneous os fuel this
            (ahb_bytes s.core.sizes.misc_data_width hprot hsize)
            (with_error s blank))
  taken-HprotPost hprot hsize s v opened ahb =
      weaken
        (and_equal (
          set_miscellaneous-Step os fuel quiet bytes (with_error s blank)
            (record { closed = v.closed; opened = v.opened })
            (rw (v.opened opened).rounded.misc
              (two_bytes s.core.sizes.misc_data_width ahb.signals))))
        λ r s' (step, same). record {
          outcome = go r s' step;
          refused = λ other. absurd (other ahb);
          passed_on = λ _ _. same;
        }
    where
      bytes : List ℕ
      bytes = ahb_bytes s.core.sizes.misc_data_width hprot hsize

      go :
          (r : Ret) (s' : State BusCore)
          → Step
              (set_misc_cmd ∷ escape_all (take s.core.sizes.misc_data_width_bytes bytes))
              []
              s.core.address_shadow
              (with_error s blank)
              r
              s'
          → Outcome (HprotSet hprot hsize s) (Sound error) r s'
      go ok s' m = record { ahb = ahb; moved = Moved-begin s blank m }
      go error s' sound = sound
      go nak s' m = absurd m
      go ack s' m = absurd m

  -- For an operating system that drains within the fuel after a shutdown, and on a valid handle
  -- whose number of signals is a 32 bit number, IpdbgAhbAccess_setHprotHsize returns. A master is
  -- taken if it has 3, 7 or 10 signals, one width for reading and writing, and at least 8 * 2 ^
  -- (hsize % 8) bits of data. With any other master the result is RET_ERROR and nothing is sent.
  -- With such a master and a connection the call ends exactly as IpdbgBusAccess_setMiscellaneous
  -- does for two bytes: with p for the protection modulo 2 ^ (signals - 3), the low byte of hsize
  -- % 8 + 8 * p, and p / 8. After RET_OK the master is such a master, and the command and these
  -- bytes, as many as the signals have, have been sent with their escape symbols; after RET_ERROR
  -- the handle is valid and has an error.
  pub set_hprot_hsize-HprotSet :
      (hprot hsize : ℕ) (s : State BusCore)
      → IsValid s
      → s.core.sizes.misc_data_width < 2 ^ 32
      → Returns (HprotPost os fuel hprot hsize s) (set_hprot_hsize os fuel this hprot hsize s)
  unfolding set_hprot_hsize begin reject_if
  set_hprot_hsize-HprotSet hprot hsize s v bounded = elim (Bool-cases (is_none s.socket)) [
    | inl closed ↦ rw closed (
        returned (record {
          outcome = Sound-with_error error not_connected v refl;
          refused = λ _. (refl, refl);
          passed_on = λ opened. cc (closed, opened);
        }))
    | inr opened ↦
        rw opened
          (elim (Bool-cases (is_hprot_width (hprot_width_of s.core.sizes.misc_data_width))) [
            | inr other ↦ rw other (
                returned (
                  turned_away not_an_ahb_master refl (λ ahb.
                    cc (other, IsAhb-hprot_width s.core.sizes.misc_data_width ahb.signals))))
            | inl wide ↦
                rw wide
                  (elim (Bool-cases
                    (s.core.sizes.write_data_width == s.core.sizes.read_data_width)) [
                      | inr differ ↦ rw differ (
                          returned (
                            turned_away not_an_ahb_master refl
                              (λ ahb. cc (differ, (==_iff _ _).1 ahb.same_widths))))
                      | inl same ↦
                          rw (same, size_of hsize)
                            (elim (Bool-cases
                              (ltb s.core.sizes.write_data_width (8 * 2 ^ (hsize % 8)))) [
                                | inl big ↦ rw big (
                                    returned (
                                      turned_away hsize_too_big refl
                                        (λ ahb. let h = ahb.size_fits in ground (arith, big, h))))
                                | inr small ↦
                                    let signals =
                                      hprot_width-IsAhb s.core.sizes.misc_data_width bounded wide in
                                    rw
                                      (
                                        small,
                                        bytes_of_ahb s.core.sizes.misc_data_width hprot hsize
                                            signals,
                                      )
                                      (taken-HprotPost hprot hsize s v opened (record {
                                        signals = signals;
                                        same_widths = (==_iff _ _).0 same;
                                        size_fits = ground (arith, small);
                                      }))
                              ])
                    ])
          ])
  ]
    where
      turned_away :
          (message : Message)
          → is_blank message ≡ false
          → (IsAhb hsize s.core.sizes → ⊥)
          → HprotPost os fuel hprot hsize s error (with_error (with_error s blank) message)
      turned_away message set other = record {
        outcome =
            Sound-with_error {s = with_error s blank} error message
              (record { closed = v.closed; opened = v.opened }) set;
        refused = λ _. (refl, refl);
        passed_on = λ _ ahb. absurd (other ahb);
      }
