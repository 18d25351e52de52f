-- ===== src/Cxx/Bus/Delivered.antt =====
-- From the class to the bus: the core does the accesses that the numbers stand for.
use ipdbg.Prelude.{
  ℕ, ◌%◌, ◌^◌, ◌≤◌, ◌<◌, ◌≡◌, refl, ap, ◌∙◌, subst, Bool, true, false, Option, List, [], ◌∷◌, ◌++◌,
  inl, inr, arith, length, Bool-cases, append_assoc, ltb,
}
use native.Mathlib.Nat.{mod-lt}
use ipdbg.Os.{Os, IsQuiet, heard}
use ipdbg.Command.{is_none, State}
use ipdbg.Escaping.{Mode}
use ipdbg.Link.Returns.{Returns, returned, weaken, bind_rule}
use ipdbg.BusAccess.Core.{Sizes, BusCore, ack_resp}
use ipdbg.BusAccess.Invariant.{IsValid, IsReady}
use ipdbg.BusAccess.Write.{write_frame}
use ipdbg.BusAccess.Read.{read_frame}
use ipdbg.BusAccess.Target.{write_access, read_access, Access, Target}
use ipdbg.BusAccess.Coherent.{
  performed, Coherent, feed-write_frame, feed-read_frame, Coherent-Exchanged,
}
use ipdbg.Cxx.{Result, value, thrown, if_value}
use ipdbg.Cxx.Bytes.{digits}
use ipdbg.Cxx.Bytes.RoundTrip.{little_endian, value_of, pow_mono, pow_pos}
use ipdbg.Cxx.Bus.{changed, write, read, read_modify_write}
use ipdbg.Cxx.Bus.Written.{is_value, field_bytes, field_bytes-enough, Written, write-Written}
use ipdbg.Cxx.Bus.Cut.{cut-field_bytes}
use ipdbg.Cxx.Bus.ReadBack.{ReadBack, read-ReadBack}

-- The accesses of the bus that numbers stand for.
abbrev pub number_write : Sizes → Bool → ℕ → ℕ → Access
number_write z locked address number =
    write_access locked (little_endian z.address_width_bytes address)
      (little_endian z.write_data_width_bytes number)

abbrev pub number_read : Sizes → Bool → ℕ → Access
number_read z locked address = read_access locked (little_endian z.address_width_bytes address)

-- What is refused does not get as far as a value.
fits_of : (n bound : ℕ) (done : Bool) → done ≡ true → (bound ≤ n → done ≡ false) → n < bound
fits_of n bound done passed refused = elim (Bool-cases (ltb n bound)) [
  | inl fits ↦ ground (arith, fits)
  | inr big ↦ cc (passed, refused (ground (arith, big)))
]

-- A handle that was closed does not get as far as a value.
ready_of : {s : State BusCore} → IsValid s → (is_none s.socket ≡ true → ⊥) → IsReady s.core
ready_of {s} v open_handle = elim (Bool-cases (is_none s.socket)) [
  | inl closed ↦ absurd (open_handle closed)
  | inr opened ↦ v.opened opened
]

module _ (os : Os) (fuel : ℕ) (quiet : IsQuiet os fuel) where
  -- For an operating system that drains within the fuel after a shutdown, on a valid handle whose
  -- shadow, cut to its width, is the address register that the core has, for an address and a
  -- number of their types, the C++ `write` returns and leaves a valid handle. A closed handle, an
  -- address or a number that is too big for its field throws and sends nothing; if it does not
  -- throw, the core has acknowledged, and what has been sent makes it do exactly one access more,
  -- a write with the lock of the bytes that the two numbers stand for.
  pub write-Delivered :
      (before : Mode × Target) (a d address number : ℕ) (locked : Bool) (s : State BusCore)
      (t : Target)
      → address < 2 ^ digits a
      → number < 2 ^ digits d
      → IsValid s
      → Coherent before s t
      → Returns
          (λ result s'.
            Written address number locked s result s'
            × (is_value result ≡ true
                → Coherent before s'
                    (performed (number_write s.core.sizes locked address number) t)))
          (write os fuel a d address number locked s)
  write-Delivered before a d address number locked s t small_address small_number v c =
      weaken (write-Written os fuel quiet a d address number locked s small_address small_number v)
        λ result s' p. (p, delivered result s' p)
    where
      delivered :
          (result : Result (Unit {0})) (s' : State BusCore)
          → Written address number locked s result s'
          → is_value result ≡ true
          → Coherent before s' (performed (number_write s.core.sizes locked address number) t)
      delivered result s' p done =
          let ready = ready_of v (λ closed. cc (done, (p.refused (inl closed)).0)) in
          let fits = field_bytes-enough _ _ address ready.rounded.address in
          let small_enough = fits_of address _ _ done (λ big. (p.refused (inr (inl big))).0) in
          let enough = field_bytes-enough _ _ number ready.rounded.write_data in
          rw
            (
              ← cut-field_bytes _ _ address ready.rounded.address small_enough,
              ← cut-field_bytes _ _ number ready.rounded.write_data
                  (fits_of number _ _ done (λ big. (p.refused (inr (inr big))).0)),
            )
            (Coherent-Exchanged before s s' t _
              (write_frame s.core (field_bytes s.core.sizes.address_width address)
                (field_bytes s.core.sizes.write_data_width number) locked)
              _ (field_bytes s.core.sizes.address_width address) c fits
              (λ shadow at.
                feed-write_frame s.core shadow _ _ locked t at fits enough (p.has_field done))
              (p.acknowledged done))

  read-Delivered :
      (before : Mode × Target) (a d address : ℕ) (locked : Bool) (s : State BusCore) (t : Target)
      → d ≤ 8
      → address < 2 ^ digits a
      → IsValid s
      → Coherent before s t
      → Returns
          (λ result s'.
            ReadBack d address locked s result s'
            × ((number : ℕ)
                → result ≡ value number
                → Coherent before s' (performed (number_read s.core.sizes locked address) t)))
          (read os fuel a d address locked s)
  read-Delivered before a d address locked s t small small_address v c =
      weaken (read-ReadBack os fuel quiet a d address locked s small small_address v)
        λ result s' p. (p, delivered result s' p)
    where
      delivered :
          (result : Result ℕ) (s' : State BusCore)
          → ReadBack d address locked s result s'
          → (number : ℕ) → result ≡ value number
          → Coherent before s' (performed (number_read s.core.sizes locked address) t)
      delivered result s' p number done =
          let ready = ready_of v (λ closed. cc (ap is_value done, (p.refused (inl closed)).0)) in
          let fits = field_bytes-enough _ _ address ready.rounded.address in
          let r = p.back number done in
          let small_enough =
            fits_of address _ _ (ap is_value done) (λ big. (p.refused (inr (inl big))).0) in
          rw (← cut-field_bytes _ _ address ready.rounded.address small_enough) (
            Coherent-Exchanged before s s' t _
              (read_frame s.core (field_bytes s.core.sizes.address_width address) locked) _
              (field_bytes s.core.sizes.address_width address) c fits
              (λ shadow at. feed-read_frame s.core shadow _ locked t at fits r.has_field)
              r.exchanged)

-- One locked read, and one unlocked write of what the function makes of the number, at one address.
pub record Modified (before : Mode × Target) (address : ℕ) (modify : Option (ℕ → ℕ))
    (s : State BusCore) (t : Target) (s' : State BusCore) : Type 0 where
  pub bytes : List ℕ
  pub length_bytes : length bytes ≡ s.core.sizes.read_data_width_bytes
  pub heard_grows : heard s'.trace ≡ heard s.trace ++ ((ack_resp ∷ bytes) ++ (ack_resp ∷ []))
  pub coherent : Coherent before s' (
      performed
        (number_write s.core.sizes false address
          (changed modify (value_of bytes % 2 ^ s.core.sizes.read_data_width)))
        (performed (number_read s.core.sizes true address) t))

module _ (os : Os) (fuel : ℕ) (quiet : IsQuiet os fuel) where
  -- For an operating system that drains within the fuel after a shutdown, on a valid handle whose
  -- shadow, cut to its width, is the address register that the core has, for data of up to eight
  -- bytes, an address of its type and a function that stays within the type of the data (or
  -- none), the C++ `read_modify_write` returns and leaves a valid handle. If it does not throw,
  -- what has been sent by then makes the core do exactly two accesses more, a locked read and an
  -- unlocked write at that address, and the number that is written is what the function makes of
  -- the number that the core's bytes stand for.
  pub read_modify_write-Modified :
      (before : Mode × Target) (a d address : ℕ) (modify : Option (ℕ → ℕ)) (s : State BusCore)
      (t : Target)
      → d ≤ 8
      → address < 2 ^ digits a
      → ((n : ℕ) → n < 2 ^ digits d → changed modify n < 2 ^ digits d)
      → IsValid s
      → Coherent before s t
      → Returns
          (λ result s'.
            IsValid s' × (is_value result ≡ true → Modified before address modify s t s'))
          (read_modify_write os fuel a d address modify s)
  unfolding read_modify_write
  read_modify_write-Modified before a d address modify s t small small_address stays v c =
      bind_rule (read-Delivered os fuel quiet before a d address true s t small small_address v c)
        go
    where
      z : Sizes
      z = s.core.sizes

      within :
          (number : ℕ) (s₁ : State BusCore)
          → ReadBack d address true s (value number) s₁
          → number < 2 ^ digits d
      within number s₁ p = elim (Bool-cases (ltb (digits d) z.read_data_width)) [
        | inl wide ↦ cc ((p.refused (inr (inr (ground (arith, wide))))).0)
        | inr holds ↦
            let narrow : z.read_data_width ≤ digits d = ground (arith, holds) in
            let r = p.back number refl in
            omega (
              arith,
              r.number_is,
              mod-lt (value_of r.bytes) (pow_pos z.read_data_width),
              pow_mono z.read_data_width (digits d) narrow,
            )
      ]

      finished :
          (number : ℕ) (s₁ : State BusCore) (p : ReadBack d address true s (value number) s₁)
          (result : Result (Unit {0})) (s' : State BusCore)
          → Written address (changed modify number) false s₁ result s'
          → is_value result ≡ true
          → Coherent before s' (
              performed
                (number_write s₁.core.sizes false address (changed modify number))
                (performed (number_read z true address) t))
          → Modified before address modify s t s'
      finished number s₁ p result s' q h c₂ =
          let r = p.back number refl in
          record {
            bytes = r.bytes;
            length_bytes = r.length_bytes;
            heard_grows =
                (q.acknowledged h).heard_grows
                ∙ ap (λ l. l ++ (ack_resp ∷ [])) r.exchanged.heard_grows
                ∙ append_assoc (heard s.trace) (ack_resp ∷ r.bytes) (ack_resp ∷ []);
            coherent = rw (← r.number_is) (
                subst
                  (λ (y : Sizes). Coherent before s' (
                    performed (number_write y false address (changed modify number))
                      (performed (number_read z true address) t)))
                  r.exchanged.sizes c₂);
          }

      go :
          (result : Result ℕ) (s₁ : State BusCore)
          → ReadBack d address true s result s₁
            × ((number : ℕ)
                → result ≡ value number
                → Coherent before s₁ (performed (number_read s.core.sizes true address) t))
          → Returns
              (λ result s'.
                IsValid s' × (is_value result ≡ true → Modified before address modify s t s'))
              (if_value result
                (λ number. write os fuel a d address (changed modify number) false)
                s₁)
      go (thrown e) s₁ (p, c₁) = returned (p.valid, λ h. cc)
      go (value number) s₁ (p, c₁) =
          weaken
            (write-Delivered os fuel quiet before a d address (changed modify number) false s₁ _
              small_address (stays number (within number s₁ p)) p.valid (c₁ number refl))
            λ result s' (q, c₂). (q.valid, λ h. finished number s₁ p result s' q h (c₂ h))
