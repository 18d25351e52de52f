-- ===== src/BusAccess/Masters.antt =====
-- sw/BusAccess/BusAccess.c: the miscellaneous signals of the kinds of bus master.
use Prim.Native.Nat.{bit_and, bit_or}
use ipdbg.Prelude.{
  ℕ, zero, suc, ◌+◌, ◌-◌, ◌*◌, ◌%◌, ◌^◌, Bool, true, not, ◌&&◌, List, [], ◌∷◌, ltb, ◌==◌,
  if◌then◌else◌,
}
use ipdbg.Prelude.Bits.{shl, shr, ones}
use ipdbg.Os.{Os}
use ipdbg.Command.{
  Ret, Ref, not_an_axi4l_master, not_an_apb_master, not_an_avalon_master, not_an_ahb_master,
  not_a_dtm, hsize_too_big, Cmd, ◌>>=◌, ◌>>◌,
}
use ipdbg.Link.{begin, reject_if}
use ipdbg.BusAccess.Core.{BusCore, get_core}
use ipdbg.BusAccess.Access.{set_miscellaneous}

-- A value stored in a `uint8_t`.
abbrev pub u8 : ℕ → ℕ
u8 x = x % 2 ^ 8

unfoldable pub axprot_misc : ℕ → ℕ → ℕ
axprot_misc arprot awprot = u8 (bit_or (shl (bit_and awprot 0x7) 3) (bit_and arprot 0x7))

unfoldable pub pprot_misc : ℕ → ℕ
pprot_misc pprot = u8 (bit_and pprot 0x7)

-- `MiscDataWidth - 3` in `uint32_t` arithmetic.
unfoldable pub hprot_width_of : ℕ → ℕ
hprot_width_of misc_data_width = (misc_data_width + 2 ^ 32 - 3) % 2 ^ 32

unfoldable pub is_hprot_width : ℕ → Bool
is_hprot_width w = not (not (w == 0) && not (w == 4) && not (w == 7))

-- `sz = 8; for (i = 0; i < hsize; ++i) sz *= 2;` in a `uint16_t`.
unfoldable pub size_loop : ℕ → ℕ → ℕ
size_loop zero sz = sz
size_loop (suc i) sz = size_loop i (sz * 2 % 2 ^ 16)

unfoldable pub hprot_hsize_misc : ℕ → ℕ → List ℕ
hprot_hsize_misc hprot hsize = u8 (bit_or hsize (shl hprot 3)) ∷ u8 (shr hprot 3) ∷ []

unfoldable pub resets_misc : Bool → Bool → ℕ
resets_misc reset hardreset = u8 (bit_or (if reset then 1 else 0) (if hardreset then 2 else 0))

module _ (os : Os) (fuel : ℕ) where
  unfoldable pub set_axprot : Ref → ℕ → ℕ → Cmd BusCore Ret
  unfolding set_miscellaneous
  set_axprot handle arprot awprot = do
    begin handle true
    c ← get_core
    reject_if (not (c.sizes.misc_data_width == 6)) not_an_axi4l_master
    reject_if (not (c.sizes.write_data_width == c.sizes.read_data_width)) not_an_axi4l_master
    set_miscellaneous os fuel handle (axprot_misc arprot awprot ∷ [])

  unfoldable pub set_pprot : Ref → ℕ → Cmd BusCore Ret
  unfolding set_miscellaneous
  set_pprot handle pprot = do
    begin handle true
    c ← get_core
    reject_if (not (c.sizes.misc_data_width == 3)) not_an_apb_master
    reject_if (not (c.sizes.write_data_width == c.sizes.read_data_width)) not_an_apb_master
    set_miscellaneous os fuel handle (pprot_misc pprot ∷ [])

  unfoldable pub set_debug_access : Ref → ℕ → Cmd BusCore Ret
  unfolding set_miscellaneous
  set_debug_access handle debug = do
    begin handle true
    c ← get_core
    reject_if (not (c.sizes.misc_data_width == 1)) not_an_avalon_master
    reject_if (not (c.sizes.write_data_width == c.sizes.read_data_width)) not_an_avalon_master
    set_miscellaneous os fuel handle ((if debug == 0 then 0x0 else 0x1) ∷ [])

  unfoldable pub set_hprot_hsize : Ref → ℕ → ℕ → Cmd BusCore Ret
  unfolding set_miscellaneous
  set_hprot_hsize handle hprot hsize = do
    begin handle true
    c ← get_core
    let hprot_width = hprot_width_of c.sizes.misc_data_width
    reject_if (not (is_hprot_width hprot_width)) not_an_ahb_master
    reject_if (not (c.sizes.write_data_width == c.sizes.read_data_width)) not_an_ahb_master
    let hsize' = bit_and hsize 0x7
    let hprot' = bit_and hprot (ones hprot_width)
    reject_if (ltb c.sizes.write_data_width (size_loop hsize' 8)) hsize_too_big
    set_miscellaneous os fuel handle (hprot_hsize_misc hprot' hsize')

  unfoldable pub set_resets : Ref → Bool → Bool → Cmd BusCore Ret
  unfolding set_miscellaneous
  set_resets handle reset hardreset = do
    begin handle true
    c ← get_core
    reject_if (not (c.sizes.misc_data_width == 2)) not_a_dtm
    reject_if (not (c.sizes.write_data_width == c.sizes.read_data_width)) not_a_dtm
    set_miscellaneous os fuel handle (resets_misc reset hardreset ∷ [])
