-- ===== src/WaveformGenerator/Invariant.antt =====
-- The invariant of a waveform generator handle, and what failures leave behind.
use ipdbg.Prelude.{
  ℕ, ◌≡◌, refl, ap, ◌∙◌, subst, sym, Bool, true, false, none, ◌⊎◌, inl, inr, ◌==◌, Bool-cases,
}
use ipdbg.Os.{Os}
use ipdbg.Command.{
  Ret, error, this, is_none, is_blank, Message, blank, Handle, State, Cmd, with_error, and_then,
  if_ok,
}
use ipdbg.Link
use ipdbg.Link.{reject_if}
use ipdbg.Link.Returns.{Returns, returned}
use ipdbg.Link.Closing.{Broken}
use ipdbg.WaveformGenerator.Core.{WfgCore, wfg_env, round_up}
use ipdbg.WaveformGenerator.Connection.{begin}

-- The widths are there, and in bytes they are what they are in bits.
pub record IsSized (c : WfgCore) : Type 0 where
  pub data_width : (c.data_width == 0) ≡ false
  pub address_width : (c.address_width == 0) ≡ false
  pub data_width_bytes : c.data_width_bytes ≡ round_up c.data_width
  pub address_width_bytes : c.address_width_bytes ≡ round_up c.address_width

abbrev pub IsValid : State WfgCore → Type 0
IsValid s = is_none s.socket ≡ false → IsSized s.core

-- An error is recorded, and the handle is valid.
pub record Failed (s : State WfgCore) : Type 0 where
  pub reported : is_blank s.last_error ≡ false
  pub valid : IsValid s

module _ (os : Os) (fuel : ℕ) where
  pub Failed-Broken :
      (h : Handle WfgCore) (s' : State WfgCore)
      → (is_none h.socket ≡ false → IsSized h.core)
      → Broken (wfg_env os fuel) h s'
      → Failed s'
  unfolding wfg_env
  Failed-Broken h s' v b = record { reported = b.reported; valid = go b.shape }
    where
      go :
          (s'.socket ≡ h.socket) × (s'.core ≡ h.core) ⊎ (s'.socket ≡ none) × (s'.core ≡ h.core)
          → IsValid s'
      go (inl (socket, core)) opened =
          subst IsSized (sym core) (v (sym (ap is_none socket) ∙ opened))
      go (inr (socket, core)) opened = cc (opened, ap is_none socket)

module _ {Q : Ret → State WfgCore → Type 0} where
  pub reject_if-Returns :
      (refused : Bool) (message : Message) (s : State WfgCore) (k : Cmd WfgCore Ret)
      → is_blank message ≡ false
      → IsValid s
      → (refused ≡ false → Returns Q (k s))
      → ((s' : State WfgCore) → Failed s' → Q error s')
      → Returns Q (and_then (reject_if refused message s) (λ ret. if_ok ret k))
  unfolding reject_if
  reject_if-Returns true message s k set v next failed =
      returned (failed _ (record { reported = set; valid = v }))
  reject_if-Returns false message s k set v next failed = next refl

  -- A call on a handle that is not open ends with an error, any other goes on with an empty one.
  pub begin-Returns :
      (s : State WfgCore) (k : Cmd WfgCore Ret)
      → IsValid s
      → (is_none s.socket ≡ false → Returns Q (k (with_error s blank)))
      → ((s' : State WfgCore) → Failed s' → Q error s')
      → Returns Q (and_then (begin this true s) (λ ret. if_ok ret k))
  unfolding begin Link.begin
  begin-Returns s k v next failed = elim (Bool-cases (is_none s.socket)) [
    | inl closed ↦ rw closed (returned (failed _ (record { reported = refl; valid = v })))
    | inr opened ↦ rw opened (next opened)
  ]
