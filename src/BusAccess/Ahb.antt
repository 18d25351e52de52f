-- ===== src/BusAccess/Ahb.antt =====
-- The AHB masters that sw/BusAccess/BusAccess.c takes, and the bytes that they get.
use Prim.Native.Nat.{bit_and}
use ipdbg.Prelude.{
  ℕ, ◌+◌, ◌-◌, ◌*◌, ◌/◌, ◌%◌, ◌^◌, ◌≤◌, ◌<◌, ◌≡◌, refl, ap, ◌∙◌, true, ◌⊎◌, inl, inr, List, [], ◌∷◌,
  arith, ◌==◌, ==_iff, Bool-cases,
}
use native.Mathlib.Nat.{pow-le-pow_right}
use ipdbg.Prelude.Bits.{ones, bit_and-ones}
use ipdbg.BusAccess.Core.{Sizes, round_up}
use ipdbg.BusAccess.Masters.{hprot_width_of, is_hprot_width, size_loop, hprot_hsize_misc}
use ipdbg.BusAccess.Words.{hprot_hsize_misc_lem, size_loop_lem}

-- An AHB master with 0, 4 or 7 protection signals above the three of the size, one width for data,
-- and a transfer size that it has.
pub record IsAhb (hsize : ℕ) (z : Sizes) : Type 0 where
  pub signals : (z.misc_data_width ≡ 3) ⊎ (z.misc_data_width ≡ 7) ⊎ (z.misc_data_width ≡ 10)
  pub same_widths : z.write_data_width ≡ z.read_data_width
  pub size_fits : 8 * 2 ^ (hsize % 8) ≤ z.write_data_width

-- The size in the lowest three bits and the protection above it, cut to its width; the second byte
-- is the protection without its lowest three bits.
abbrev pub ahb_bytes : ℕ → ℕ → ℕ → List ℕ
ahb_bytes misc_data_width hprot hsize =
    let p = hprot % 2 ^ (misc_data_width - 3) in (hsize % 8 + 8 * p) % 256 ∷ p / 8 ∷ []

-- The widths that the guard lets through.
pub hprot_width-IsAhb :
    (w : ℕ) → w < 2 ^ 32 → is_hprot_width (hprot_width_of w) ≡ true → (w ≡ 3) ⊎ (w ≡ 7) ⊎ (w ≡ 10)
unfolding is_hprot_width hprot_width_of
hprot_width-IsAhb w fits wide = elim (Bool-cases (w == 3)) [
  | inl three ↦ inl ((==_iff w 3).0 three)
  | inr not_three ↦ elim (Bool-cases (w == 7)) [
    | inl seven ↦ inr (inl ((==_iff w 7).0 seven))
    | inr not_seven ↦ inr (inr (ground (arith, not_three, not_seven, wide)))
  ]
]

pub IsAhb-hprot_width :
    (w : ℕ) → (w ≡ 3) ⊎ (w ≡ 7) ⊎ (w ≡ 10) → is_hprot_width (hprot_width_of w) ≡ true
unfolding is_hprot_width hprot_width_of
IsAhb-hprot_width w (inl three) = rw three refl
IsAhb-hprot_width w (inr (inl seven)) = rw seven refl
IsAhb-hprot_width w (inr (inr ten)) = rw ten refl

pub size_of : (hsize : ℕ) → size_loop (bit_and hsize 0x7) 8 ≡ 8 * 2 ^ (hsize % 8)
size_of hsize =
    let below : hsize % 8 ≤ 7 = omega arith in
    let most : 2 ^ (hsize % 8) ≤ 2 ^ 7 = pow-le-pow_right (omega arith) below in
    ap (λ (k : ℕ). size_loop k 8) (bit_and-ones 3 hsize)
    ∙ size_loop_lem (hsize % 8) 8 (omega (arith, most))

-- Four and seven bits of protection above the size.
pub bytes_of_ahb :
    (w hprot hsize : ℕ)
    → (w ≡ 3) ⊎ (w ≡ 7) ⊎ (w ≡ 10)
    → hprot_hsize_misc (bit_and hprot (ones (hprot_width_of w))) (bit_and hsize 0x7)
      ≡ ahb_bytes w hprot hsize
unfolding hprot_width_of
bytes_of_ahb w hprot hsize signals =
    ap (λ (k : ℕ). hprot_hsize_misc (bit_and hprot (ones k)) (bit_and hsize 0x7)) width
    ∙ ap (λ (p : ℕ). hprot_hsize_misc p (bit_and hsize 0x7)) (bit_and-ones (w - 3) hprot)
    ∙ ap (hprot_hsize_misc (hprot % 2 ^ (w - 3))) (bit_and-ones 3 hsize)
    ∙ hprot_hsize_misc_lem (hprot % 2 ^ (w - 3)) (hsize % 2 ^ 3) (omega arith) (narrow w signals)
  where
    width : hprot_width_of w ≡ w - 3
    width = elim signals [
      | inl three ↦ rw three refl
      | inr (inl seven) ↦ rw seven refl
      | inr (inr ten) ↦ rw ten refl
    ]

    narrow : (w : ℕ) → (w ≡ 3) ⊎ (w ≡ 7) ⊎ (w ≡ 10) → hprot % 2 ^ (w - 3) < 2 ^ 7
    narrow w (inl three) = rw three (omega arith)
    narrow w (inr (inl seven)) = rw seven (omega arith)
    narrow w (inr (inr ten)) = rw ten (omega arith)

-- Three, seven or ten signals are at most two bytes.
pub two_bytes : (w : ℕ) → (w ≡ 3) ⊎ (w ≡ 7) ⊎ (w ≡ 10) → round_up w ≤ 2
unfolding round_up
two_bytes w (inl three) = omega arith
two_bytes w (inr (inl seven)) = omega arith
two_bytes w (inr (inr ten)) = omega arith
