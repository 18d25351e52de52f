-- ===== src/BusAccess/Coherent.antt =====
-- The core behind the library: what a frame of the library makes it do, and when it is coherent with the
-- shadow of the address.
use ipdbg.Prelude.{
  ℕ, zero, suc, ◌≤◌, ◌≡◌, refl, ap, ◌∙◌, sym, Bool, true, false, some, List, [], ◌∷◌, ◌++◌, arith,
  length, length-take, length-append, replicate, ◌==◌, take, drop, take-append, append-nil,
  same_bytes, same_bytes-eq, Bool-cases, inl, inr,
}
use ipdbg.Os.{wire}
use ipdbg.Command.{State}
use ipdbg.Escaping.{is_special, escape_all, Mode, normal}
use ipdbg.BusAccess.Core.{Sizes, BusCore, overwrite, set_addr_cmd}
use ipdbg.BusAccess.Exchange.{Exchanged}
use ipdbg.BusAccess.Address.{given, address_command, address_frame, matches-eq, length-given}
use ipdbg.BusAccess.Write.{write_command, write_frame}
use ipdbg.BusAccess.Read.{read_command, read_frame}
use ipdbg.BusAccess.Target.{
  to_address, to_bus, idle, Access, write_access, read_access, Target, cut, finish, take_in, feed,
}
use ipdbg.BusAccess.Target.Frames.{
  feed-append, feed-plain, feed-field, dispatch-write, dispatch-read, dispatch-address,
}

-- The core between two commands, with an address in its register.
abbrev pub aligned : Target → List ℕ → Target
aligned t address = record t { phase = idle; address = address }

abbrev pub performed : Access → Target → Target
performed access t = record t { accesses = t.accesses ++ (access ∷ []) }

-- The address that a core with such widths keeps of the bytes.
abbrev pub kept : Sizes → List ℕ → List ℕ
kept z address = cut z.address_width (take z.address_width_bytes address)

-- From what it was before the connection, all that has been sent has brought the core to `t`, up to
-- its address, which is that of the shadow, as many bits as the core has.
pub record Coherent (before : Mode × Target) (s : State BusCore) (t : Target) : Type 0 where
  pub shadow : List ℕ
  pub address_shadow : s.core.address_shadow ≡ some shadow
  pub long_enough : s.core.sizes.address_width_bytes ≤ length shadow
  pub fed :
      feed s.core.sizes before.0 before.1 (wire s.trace)
      ≡ (normal, aligned t (kept s.core.sizes shadow))

pub nothing_kept :
    (z : Sizes) (xs : List ℕ)
    → (z.address_width_bytes == 0) ≡ true
    → replicate z.address_width_bytes 0 ≡ kept z xs
unfolding cut
nothing_kept z xs absent = go z.address_width_bytes absent
  where
    go : (n : ℕ) → (n == 0) ≡ true → replicate n 0 ≡ cut z.address_width (take n xs)
    go zero h = refl
    go (suc n) h = ground arith

no_bytes : (n : ℕ) (xs ys : List ℕ) → (n == 0) ≡ true → same_bytes (take n xs) (take n ys) ≡ true
no_bytes zero xs ys absent = refl
no_bytes (suc n) xs ys absent = ground arith

-- The address register after the address has been sent, or left out.
feed-address_frame :
    (c : BusCore) (shadow address : List ℕ) (t : Target) (rest : List ℕ)
    → c.address_shadow ≡ some shadow
    → c.sizes.address_width_bytes ≤ length address
    → feed c.sizes normal (aligned t (kept c.sizes shadow)) (address_frame c address ++ rest)
      ≡ feed c.sizes normal (aligned t (kept c.sizes address)) rest
unfolding address_frame address_command finish
feed-address_frame c shadow address t rest at fits =
    elim (Bool-cases (same_bytes (given c address) (take n shadow))) [
      | inl same ↦ rw (matches-eq c.address_shadow shadow n address at ∙ same) (
          ap (λ a. feed c.sizes normal (aligned t (cut c.sizes.address_width a)) rest)
            (sym (same_bytes-eq _ _ same)))
      | inr differs ↦
          rw (matches-eq c.address_shadow shadow n address at ∙ differs)
            (elim (Bool-cases (n == 0)) [
              | inl absent ↦ cc (differs, no_bytes n address shadow absent)
              | inr present ↦ rw present (
                  feed-field c.sizes to_address set_addr_cmd n (given c address)
                    (aligned t (kept c.sizes shadow)) rest refl refl
                    (dispatch-address c.sizes (aligned t (kept c.sizes shadow)) present) present
                    (length-given c address fits))
            ])
    ]
  where
    n : ℕ
    n = c.sizes.address_width_bytes

-- A write access.
pub feed-write_frame :
    (c : BusCore) (shadow address bytes : List ℕ) (locked : Bool) (t : Target)
    → c.address_shadow ≡ some shadow
    → c.sizes.address_width_bytes ≤ length address
    → c.sizes.write_data_width_bytes ≤ length bytes
    → (c.sizes.write_data_width_bytes == 0) ≡ false
    → feed c.sizes normal (aligned t (kept c.sizes shadow)) (write_frame c address bytes locked) ≡ (
      normal,
      aligned
          (performed
            (write_access locked
              (kept c.sizes address)
              (cut c.sizes.write_data_width (take c.sizes.write_data_width_bytes bytes)))
            t)
          (kept c.sizes address),
    )
unfolding write_frame feed finish
feed-write_frame c shadow address bytes locked t at fits has_data has_field =
    feed-address_frame c shadow address t
      (write_command locked ∷ escape_all (take c.sizes.write_data_width_bytes bytes)) at fits
    ∙ ap (feed c.sizes normal (aligned t (kept c.sizes address))) (
        sym (
          append-nil
            (write_command locked ∷ escape_all (take c.sizes.write_data_width_bytes bytes))))
    ∙ feed-field c.sizes (to_bus locked) (write_command locked) c.sizes.write_data_width_bytes
        (take c.sizes.write_data_width_bytes bytes) (aligned t (kept c.sizes address)) []
        (plain locked) refl
        (dispatch-write c.sizes locked (aligned t (kept c.sizes address)) has_field) has_field
        (omega (arith, length-take c.sizes.write_data_width_bytes bytes))
  where
    plain : (locked : Bool) → is_special (write_command locked) ≡ false
    plain true = refl
    plain false = refl

-- A read access.
pub feed-read_frame :
    (c : BusCore) (shadow address : List ℕ) (locked : Bool) (t : Target)
    → c.address_shadow ≡ some shadow
    → c.sizes.address_width_bytes ≤ length address
    → (c.sizes.read_data_width_bytes == 0) ≡ false
    → feed c.sizes normal (aligned t (kept c.sizes shadow)) (read_frame c address locked) ≡ (
      normal,
      aligned (performed (read_access locked (kept c.sizes address)) t) (kept c.sizes address),
    )
unfolding read_frame feed take_in
feed-read_frame c shadow address locked t at fits has_field =
    feed-address_frame c shadow address t (read_command locked ∷ []) at fits
    ∙ feed-plain c.sizes (aligned t (kept c.sizes address)) (read_command locked) [] (plain locked)
    ∙ ap (λ u. (normal, u))
        (dispatch-read c.sizes locked (aligned t (kept c.sizes address)) has_field)
  where
    plain : (locked : Bool) → is_special (read_command locked) ≡ false
    plain true = refl
    plain false = refl

-- After an access that has been answered, the shadow and the register agree again.
pub Coherent-Exchanged :
    (before : Mode × Target) (s s' : State BusCore) (t u : Target) (sent got address : List ℕ)
    → Coherent before s t
    → s.core.sizes.address_width_bytes ≤ length address
    → ((shadow : List ℕ)
        → s.core.address_shadow ≡ some shadow
        → feed s.core.sizes normal (aligned t (kept s.core.sizes shadow)) sent
          ≡ (normal, aligned u (kept s.core.sizes address)))
    → Exchanged sent got (overwrite s.core.address_shadow (given s.core address)) s s'
    → Coherent before s' u
unfolding overwrite
Coherent-Exchanged before s s' t u sent got address c fits fed e = record {
  shadow = stored;
  address_shadow = e.shadowed ∙ ap (λ p. overwrite p known) c.address_shadow;
  long_enough =
      rw e.sizes (omega (arith, length-append known (drop (length known) c.shadow), size));
  fed =
      ap (λ z. feed z before.0 before.1 (wire s'.trace)) e.sizes
      ∙ ap (feed s.core.sizes before.0 before.1) e.wire_grows
      ∙ feed-append s.core.sizes before.0 before.1 (wire s.trace) sent
      ∙ ap (λ (p : Mode × Target). feed s.core.sizes p.0 p.1 sent) c.fed
      ∙ fed c.shadow c.address_shadow
      ∙ ap (λ a. (normal, aligned u (cut s.core.sizes.address_width a))) (sym start)
      ∙ ap (λ z. (normal, aligned u (kept z stored))) (sym e.sizes);
}
  where
    known : List ℕ
    known = given s.core address

    size : length known ≡ s.core.sizes.address_width_bytes
    size = length-given s.core address fits

    stored : List ℕ
    stored = known ++ drop (length known) c.shadow

    start : take s.core.sizes.address_width_bytes stored ≡ known
    start = ap (λ n. take n stored) (sym size) ∙ take-append known _
