-- ===== src/IoView/Panel/RoundTrip.antt =====
-- The buffer that the boxes are packed into, and the boxes that a buffer sets.
use ipdbg.Prelude.{
  ℕ, zero, suc, ◌+◌, ◌-◌, ◌/◌, ◌^◌, ◌≤◌, ◌<◌, ◌≡◌, refl, ap, ◌∙◌, Bool, false, ◌&&◌, List, [], ◌∷◌,
  ltb, leb, ◌==◌, ==_iff, if◌then◌else◌, length, get_or, replicate, length-replicate, Bool-cases,
  inl, inr, arith,
}
use ipdbg.IoView.Protocol.{port_bytes}
use ipdbg.IoView.Panel.{update, test_bit, set_bit, pack_loop, pack, show_loop}
use ipdbg.IoView.Panel.Bit.{get-update, length-update, test_bit-pack_loop, test_bit-zeros}

pub length-pack_loop :
    (k idx n : ℕ) (boxes : List Bool) (buffer : List ℕ)
    → length (pack_loop k idx n boxes buffer) ≡ length buffer
unfolding pack_loop set_bit
length-pack_loop zero idx n boxes buffer = refl
length-pack_loop (suc k) idx n boxes buffer = elim (Bool-cases (get_or boxes (n - 1 - idx) false)) [
  | inl checked ↦
      rw checked (
        length-pack_loop k (suc idx) n boxes (set_bit idx buffer)
        ∙ length-update (idx / 8) _ buffer)
  | inr unchecked ↦ rw unchecked (length-pack_loop k (suc idx) n boxes buffer)
]

pub length-pack : (n : ℕ) (boxes : List Bool) → length (pack n boxes) ≡ port_bytes n
unfolding pack
length-pack n boxes =
    length-pack_loop n 0 n boxes (replicate (port_bytes n) 0) ∙ length-replicate (port_bytes n) 0

-- The bit of each output is its box, from the last box on, and the surplus bits are 0.
pub test_bit-pack :
    (n : ℕ) (boxes : List Bool) (j : ℕ)
    → n + 7 < 2 ^ 32
    → test_bit j (pack n boxes) ≡ (ltb j n && get_or boxes (n - 1 - j) false)
unfolding pack port_bytes
test_bit-pack n boxes j small =
    test_bit-pack_loop n 0 n boxes (replicate (port_bytes n) 0) j
      (omega (arith, length-replicate {A = ℕ} (port_bytes n) 0))
    ∙ rw (test_bit-zeros j (port_bytes n)) (ground arith)

length-show_loop :
    (k idx n : ℕ) (buffer : List ℕ) (boxes : List Bool)
    → length (show_loop k idx n buffer boxes) ≡ length boxes
unfolding show_loop
length-show_loop zero idx n buffer boxes = refl
length-show_loop (suc k) idx n buffer boxes =
    length-show_loop k (suc idx) n buffer _ ∙ length-update (n - 1 - idx) _ boxes

-- Box `i` gets the bit of its output.
get-show_loop :
    (k idx n : ℕ) (buffer : List ℕ) (boxes : List Bool) (i : ℕ)
    → length boxes ≡ n
    → idx + k ≤ n
    → i < n
    → get_or (show_loop k idx n buffer boxes) i false ≡ (
        if leb idx (n - 1 - i) && ltb (n - 1 - i) (idx + k)
        then test_bit (n - 1 - i) buffer
        else get_or boxes i false)
unfolding show_loop
get-show_loop zero idx n buffer boxes i same inside h = ground arith
get-show_loop (suc k) idx n buffer boxes i same inside h =
    get-show_loop k (suc idx) n buffer (update (n - 1 - idx) (λ _. test_bit idx buffer) boxes) i
      (length-update (n - 1 - idx) _ boxes ∙ same) (omega arith) h
    ∙ rw (get-update (n - 1 - idx) i (λ _. test_bit idx buffer) boxes false (omega (arith, same)))
        (elim (Bool-cases (idx == n - 1 - i)) [
          | inl here ↦ rw (← (==_iff idx (n - 1 - i)).0 here) (ground arith)
          | inr other ↦ ground (arith, other)
        ])

same_elements :
    (xs ys : List Bool)
    → length xs ≡ length ys
    → ((i : ℕ) → i < length xs → get_or xs i false ≡ get_or ys i false)
    → xs ≡ ys
same_elements [] [] n h = refl
same_elements [] (y ∷ ys) n h = absurd (omega (arith, n))
same_elements (x ∷ xs) [] n h = absurd (omega (arith, n))
same_elements (x ∷ xs) (y ∷ ys) n h =
    ap (λ z. z ∷ xs) (h 0 (omega arith))
    ∙ ap (λ zs. y ∷ zs) (same_elements xs ys (omega (arith, n)) λ i l. h (suc i) (omega (arith, l)))

-- For fewer than 2 ^ 32 - 7 boxes, the buffer that they are packed into sets as many other boxes,
-- whatever they were, to the same.
pub show_loop-pack :
    (boxes others : List Bool)
    → length boxes + 7 < 2 ^ 32
    → length others ≡ length boxes
    → show_loop (length boxes) 0 (length boxes) (pack (length boxes) boxes) others ≡ boxes
show_loop-pack boxes others small same =
    same_elements _ boxes (length-show_loop n 0 n (pack n boxes) others ∙ same)
      λ i h. each i (omega (arith, h, length-show_loop n 0 n (pack n boxes) others, same))
  where
    n : ℕ
    n = length boxes

    each :
        (i : ℕ)
        → i < n
        → get_or (show_loop n 0 n (pack n boxes) others) i false ≡ get_or boxes i false
    each i h =
        get-show_loop n 0 n (pack n boxes) others i same (omega arith) h
        ∙ rw (test_bit-pack n boxes (n - 1 - i) small, mirrored) (ground arith)
      where
        mirrored : n - 1 - (n - 1 - i) ≡ i
        mirrored = omega arith
