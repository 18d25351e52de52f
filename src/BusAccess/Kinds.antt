-- ===== src/BusAccess/Kinds.antt =====
-- The signals of the kinds of bus master.
use ipdbg.Prelude.{
  ℕ, ◌≡◌, refl, ap, ◌∙◌, subst, Bool, true, false, not, List, [], ◌∷◌, arith, take, ◌==◌, ==_iff,
  if◌then◌else◌,
}
use ipdbg.Os.{Os, IsQuiet}
use ipdbg.Command.{
  Ret, error, ok, nak, ack, this, State, with_error, blank, Message, is_blank, and_then, if_ok,
  not_an_axi4l_master, not_an_apb_master, not_an_avalon_master, not_a_dtm,
}
use ipdbg.Link.{reject_if}
use ipdbg.Escaping.{escape_all}
use ipdbg.Link.Returns.{Returns, Outcome, weaken}
use ipdbg.BusAccess.Core.{BusCore, set_misc_cmd, round_up}
use ipdbg.BusAccess.Access.{set_miscellaneous}
use ipdbg.BusAccess.Masters.{
  axprot_misc, pprot_misc, resets_misc, set_axprot, set_pprot, set_debug_access, set_resets,
}
use ipdbg.BusAccess.Invariant.{IsValid, IsLive, IsValid-IsLive, Sound, Moved, Moved-begin}
use ipdbg.BusAccess.Steps.{Step, begin-Returns, reject_if-Returns}
use ipdbg.BusAccess.Signals.{set_miscellaneous-Step}

-- The signals went out to a master that has `width` of them and one width for data.
pub record Signalled (width : ℕ) (bytes : List ℕ) (s s' : State BusCore) : Type 0 where
  pub is_wide : s.core.sizes.misc_data_width ≡ width
  pub same_widths : s.core.sizes.write_data_width ≡ s.core.sizes.read_data_width
  pub moved : Moved (set_misc_cmd ∷ escape_all bytes) [] s.core.address_shadow s s'

pub pass : (b : Bool) → not b ≡ false → b ≡ true
pass true h = refl
pass false h = cc

module _ (os : Os) (fuel : ℕ) (quiet : IsQuiet os fuel) where
  -- Two guards, then one byte of signals.
  one_byte-Signalled :
      (width b : ℕ) (message : Message) (s : State BusCore)
      → round_up width ≡ 1
      → is_blank message ≡ false
      → IsLive (with_error s blank)
      → Returns (Outcome (Signalled width (b ∷ []) s) (Sound error)) (
          and_then
            (reject_if (not (s.core.sizes.misc_data_width == width)) message (with_error s blank))
            λ ret. if_ok ret (λ s₁.
              and_then
                (reject_if
                  (not (s.core.sizes.write_data_width == s.core.sizes.read_data_width))
                  message
                  s₁)
                λ ret. if_ok ret (set_miscellaneous os fuel this (b ∷ []))))
  one_byte-Signalled width b message s one set l =
      reject_if-Returns _ message (with_error s blank) _ set l
        (λ wide.
          reject_if-Returns _ message (with_error s blank) _ set l
            (λ same.
              weaken
                (set_miscellaneous-Step os fuel quiet (b ∷ []) (with_error s blank)
                  (IsValid-IsLive l) (omega (arith, count wide)))
                (go wide same))
            failed)
        failed
    where
      failed : (s' : State BusCore) → Sound error s' → Sound error s'
      failed s' sound = sound

      count :
          not (s.core.sizes.misc_data_width == width) ≡ false
          → s.core.sizes.misc_data_width_bytes ≡ 1
      count wide = l.ready.rounded.misc ∙ ap round_up ((==_iff _ width).0 (pass _ wide)) ∙ one

      go :
          not (s.core.sizes.misc_data_width == width) ≡ false
          → not (s.core.sizes.write_data_width == s.core.sizes.read_data_width) ≡ false
          → (r : Ret) (s' : State BusCore)
          → Step
              (set_misc_cmd ∷ escape_all (take s.core.sizes.misc_data_width_bytes (b ∷ [])))
              []
              s.core.address_shadow
              (with_error s blank)
              r
              s'
          → Outcome (Signalled width (b ∷ []) s) (Sound error) r s'
      go wide same ok s' m = record {
        is_wide = (==_iff _ width).0 (pass _ wide);
        same_widths = (==_iff _ _).0 (pass _ same);
        moved =
            subst
              (λ n.
                Moved (set_misc_cmd ∷ escape_all (take n (b ∷ []))) [] s.core.address_shadow s s')
              (count wide) (Moved-begin s blank m);
      }
      go wide same error s' sound = sound
      go wide same nak s' m = absurd m
      go wide same ack s' m = absurd m

  -- For an operating system that drains within the fuel after a shutdown, and on a valid handle,
  -- IpdbgAxi4lAccess_setAxprot returns. After RET_OK the master has six signals and one width for
  -- data, and the command and the one escaped byte have been sent; after RET_ERROR the handle is
  -- valid and has an error.
  pub set_axprot-Signalled :
      (arprot awprot : ℕ) (s : State BusCore)
      → IsValid s
      → Returns
          (Outcome (Signalled 6 (axprot_misc arprot awprot ∷ []) s) (Sound error))
          (set_axprot os fuel this arprot awprot s)
  unfolding set_axprot round_up
  set_axprot-Signalled arprot awprot s v =
      begin-Returns s _ v
        (λ l. one_byte-Signalled 6 (axprot_misc arprot awprot) not_an_axi4l_master s refl refl l)
        (λ s' sound. sound)

  -- For an operating system that drains within the fuel after a shutdown, and on a valid handle,
  -- IpdbgApbAccess_setPprot returns. After RET_OK the master has three signals and one width for
  -- data, and the command and the one escaped byte have been sent; after RET_ERROR the handle is
  -- valid and has an error.
  pub set_pprot-Signalled :
      (pprot : ℕ) (s : State BusCore)
      → IsValid s
      → Returns
          (Outcome (Signalled 3 (pprot_misc pprot ∷ []) s) (Sound error))
          (set_pprot os fuel this pprot s)
  unfolding set_pprot round_up
  set_pprot-Signalled pprot s v =
      begin-Returns s _ v
        (λ l. one_byte-Signalled 3 (pprot_misc pprot) not_an_apb_master s refl refl l)
        (λ s' sound. sound)

  -- For an operating system that drains within the fuel after a shutdown, and on a valid handle,
  -- IpdbgDtm_setResets returns. After RET_OK the core has two signals and one width for data, and
  -- the command and the one escaped byte have been sent; after RET_ERROR the handle is valid and
  -- has an error.
  pub set_resets-Signalled :
      (reset hardreset : Bool) (s : State BusCore)
      → IsValid s
      → Returns
          (Outcome (Signalled 2 (resets_misc reset hardreset ∷ []) s) (Sound error))
          (set_resets os fuel this reset hardreset s)
  unfolding set_resets round_up
  set_resets-Signalled reset hardreset s v =
      begin-Returns s _ v
        (λ l. one_byte-Signalled 2 (resets_misc reset hardreset) not_a_dtm s refl refl l)
        (λ s' sound. sound)

  -- For an operating system that drains within the fuel after a shutdown, and on a valid handle,
  -- IpdbgAvalonAccess_setDebugAccess returns. After RET_OK the master has one signal and one
  -- width for data, and the command and one byte, 0 or 1, have been sent; after RET_ERROR the
  -- handle is valid and has an error.
  pub set_debug_access-Signalled :
      (debug : ℕ) (s : State BusCore)
      → IsValid s
      → Returns
          (Outcome (Signalled 1 ((if debug == 0 then 0x0 else 0x1) ∷ []) s) (Sound error))
          (set_debug_access os fuel this debug s)
  unfolding set_debug_access round_up
  set_debug_access-Signalled debug s v =
      begin-Returns s _ v
        (λ l.
          one_byte-Signalled 1 (if debug == 0 then 0x0 else 0x1) not_an_avalon_master s refl refl l)
        (λ s' sound. sound)
