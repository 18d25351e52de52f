-- ===== src/BusAccess/Address.antt =====
-- The address is sent only if it differs from the shadow, and the shadow follows it.
use ipdbg.Prelude.{
  ℕ, ◌≤◌, ◌≡◌, ap, ◌∙◌, sym, Bool, true, Option, none, some, List, [], ◌∷◌, ◌++◌, arith, length,
  zero, suc, ◌==◌, if◌then◌else◌, inl, inr, take, drop, take?-eq-some, take-append-drop, same_bytes,
  same_bytes-eq, Bool-cases, length-take, length-overwrite,
}
use mathlib.Core.Path.{fun_ext}
use ipdbg.Os.{Os, IsQuiet}
use ipdbg.Command.{State, pure, and_then, if_ok}
use ipdbg.Escaping.{escape_all}
use ipdbg.Link.Frames.{send_with_escaping}
use ipdbg.Link.Returns.{Returns, returned, then_rule}
use ipdbg.BusAccess.Core.{Sizes, BusCore, bus_env, max_size, overwrite, set_addr_cmd, load, load_at}
use ipdbg.BusAccess.Query.{send_address}
use ipdbg.BusAccess.Access.{set_address, store_shadow}
use ipdbg.BusAccess.Invariant.{IsReady, IsLive, Moved, Moved-nothing}
use ipdbg.BusAccess.Steps.{Step, Step-then, send_command-Step, send_with_escaping-Step}

abbrev pub given : BusCore → List ℕ → List ℕ
given c address = take c.sizes.address_width_bytes address

-- SET_ADDR_CMD and the escaped address, or nothing where the core has no address.
unfoldable pub address_command : BusCore → List ℕ → List ℕ
address_command c address =
    if c.sizes.address_width_bytes == 0 then [] else set_addr_cmd ∷ escape_all (given c address)

pub address_command-sizes :
    (c d : BusCore) (address : List ℕ)
    → c.sizes ≡ d.sizes
    → address_command c address ≡ address_command d address
unfolding address_command
address_command-sizes c d address same =
    ap
      (λ (z : Sizes).
        if z.address_width_bytes == 0
        then []
        else set_addr_cmd ∷ escape_all (take z.address_width_bytes address))
      same

unfoldable pub shadow_matches : Option (List ℕ) → ℕ → List ℕ → Bool
shadow_matches none n address = true
shadow_matches (some shadow) n address = same_bytes (take n address) (take n shadow)

-- What `setAddress` sends: nothing where the shadow has the address already.
unfoldable pub address_frame : BusCore → List ℕ → List ℕ
address_frame c address =
    if shadow_matches c.address_shadow c.sizes.address_width_bytes address
    then []
    else address_command c address

pub load-eq : (bytes : List ℕ) (n : ℕ) → n ≤ length bytes → load bytes n ≡ pure (take n bytes)
unfolding load
load-eq bytes n fits = fun_ext λ s. rw (take?-eq-some n bytes fits, load)

pub load_at-eq :
    (pointer : Option (List ℕ)) (bytes : List ℕ) (n : ℕ)
    → pointer ≡ some bytes
    → n ≤ length bytes
    → load_at pointer n ≡ pure (take n bytes)
unfolding load_at
load_at-eq pointer bytes n e fits = rw e (load-eq bytes n fits)

matches_absent :
    (pointer : Option (List ℕ)) (n : ℕ) (address : List ℕ)
    → (n == 0) ≡ true
    → shadow_matches pointer n address ≡ true
unfolding shadow_matches
matches_absent pointer zero address absent = ground arith
matches_absent pointer (suc n) address absent = ground arith

pub matches-eq :
    (pointer : Option (List ℕ)) (shadow : List ℕ) (n : ℕ) (address : List ℕ)
    → pointer ≡ some shadow
    → shadow_matches pointer n address ≡ same_bytes (take n address) (take n shadow)
unfolding shadow_matches
matches-eq pointer shadow n address at = rw at

-- Writing what is there already changes nothing.
overwrite_matching :
    (pointer : Option (List ℕ)) (shadow : List ℕ) (n : ℕ) (address : List ℕ)
    → pointer ≡ some shadow
    → n ≤ length address
    → n ≤ length shadow
    → shadow_matches pointer n address ≡ true
    → overwrite pointer (take n address) ≡ pointer
unfolding overwrite
overwrite_matching pointer shadow n address at fits room same = rw at (ap some whole)
  where
    equal : take n address ≡ take n shadow
    equal = same_bytes-eq _ _ (sym (matches-eq pointer shadow n address at) ∙ same)

    count : length (take n address) ≡ n
    count = omega (arith, length-take n address)

    whole : take n address ++ drop (length (take n address)) shadow ≡ shadow
    whole = rw (count, equal) (take-append-drop n shadow)

IsReady-shadow :
    (c : BusCore) (bytes : List ℕ)
    → length bytes ≤ max_size c.sizes.address_width_bytes 1
    → IsReady c
    → IsReady (record c { address_shadow = overwrite c.address_shadow bytes })
unfolding overwrite
IsReady-shadow c bytes fits r = record {
  rounded = r.rounded;
  bytes = r.bytes;
  buffer = r.buffer;
  length_buffer = r.length_buffer;
  shadow = bytes ++ drop (length bytes) r.shadow;
  address_shadow = ap (λ b. overwrite b bytes) r.address_shadow;
  length_shadow =
      length-overwrite bytes r.shadow (omega (arith, r.length_shadow)) ∙ r.length_shadow;
}

pub le-max_size : (n : ℕ) → n ≤ max_size n 1
unfolding max_size
le-max_size n = ground arith

pub length-given :
    (c : BusCore) (address : List ℕ)
    → c.sizes.address_width_bytes ≤ length address
    → length (given c address) ≡ c.sizes.address_width_bytes
length-given c address fits = omega (arith, length-take c.sizes.address_width_bytes address)

module _ (os : Os) (fuel : ℕ) (quiet : IsQuiet os fuel) where
  pub send_address-Step :
      (address : List ℕ) {s : State BusCore}
      → s.core.sizes.address_width_bytes ≤ length address
      → IsLive s
      → Returns
          (Step (address_command s.core address) [] s.core.address_shadow s)
          (send_address os fuel address s)
  unfolding send_address address_command
  send_address-Step address {s} fits l = elim (Bool-cases (s.core.sizes.address_width_bytes == 0)) [
    | inl absent ↦ rw absent (returned (Moved-nothing l))
    | inr present ↦ rw present (
        Step-then (send_with_escaping (bus_env os fuel) address s.core.sizes.address_width_bytes)
          (send_command-Step os fuel quiet set_addr_cmd l)
          λ s₁ m. send_with_escaping-Step os fuel quiet address _ fits m.live)
  ]

  set_address-differs :
      (address : List ℕ) {s : State BusCore}
      → s.core.sizes.address_width_bytes ≤ length address
      → IsLive s
      → Returns
          (Step
            (address_command s.core address)
            []
            (overwrite s.core.address_shadow (given s.core address))
            s)
          (and_then
            (send_address os fuel address s)
            λ ret. if_ok ret (store_shadow (given s.core address)))
  unfolding store_shadow
  set_address-differs address {s} fits l =
      then_rule (send_address-Step address fits l)
        (λ s₁ m. returned (record {
          live = record {
            connected = m.live.connected;
            ready =
                IsReady-shadow s₁.core (given s.core address)
                  (rw (m.sizes, length-given s.core address fits) (le-max_size _)) m.live.ready;
            no_error = m.live.no_error;
          };
          sizes = m.sizes;
          shadowed = ap (λ p. overwrite p (given s.core address)) m.shadowed;
          wire_grows = m.wire_grows;
          heard_grows = m.heard_grows;
        }))
        (λ s' sound. sound)

  -- For an operating system that drains within the fuel after a shutdown, and on a connected
  -- handle in the middle of a call with enough bytes of address, IpdbgBusAccess_setAddress sends
  -- nothing if the shadow has the address and otherwise the command and the escaped address. If
  -- it succeeds the shadow has the address and nothing else of the handle has changed; if it
  -- fails the handle is valid and has an error.
  pub set_address-Step :
      (address : List ℕ) {s : State BusCore}
      → s.core.sizes.address_width_bytes ≤ length address
      → IsLive s
      → Returns
          (Step
            (address_frame s.core address)
            []
            (overwrite s.core.address_shadow (given s.core address))
            s)
          (set_address os fuel address s)
  unfolding set_address address_frame
  set_address-Step address {s} fits l = elim (Bool-cases (n == 0)) [
    | inl absent ↦
        rw (absent, matches_absent s.core.address_shadow n address absent)
          (returned (unchanged (matches_absent s.core.address_shadow n address absent)))
    | inr present ↦
        rw (present, load-eq address n fits, load_at-eq s.core.address_shadow shadow n at room)
          (elim (Bool-cases (same_bytes (take n address) (take n shadow))) [
            | inl same ↦ rw (same, equal ∙ same) (returned (unchanged (equal ∙ same)))
            | inr differs ↦
                rw (differs, equal ∙ differs) (set_address-differs address {s = s} fits l)
          ])
  ]
    where
      n : ℕ
      n = s.core.sizes.address_width_bytes

      shadow : List ℕ
      shadow = l.ready.shadow

      at : s.core.address_shadow ≡ some shadow
      at = l.ready.address_shadow

      room : n ≤ length shadow
      room = omega (arith, l.ready.length_shadow, le-max_size n)

      equal :
          shadow_matches s.core.address_shadow n address
          ≡ same_bytes (take n address) (take n shadow)
      equal = matches-eq s.core.address_shadow shadow n address at

      unchanged :
          shadow_matches s.core.address_shadow n address ≡ true
          → Moved [] [] (overwrite s.core.address_shadow (given s.core address)) s s
      unchanged same =
          rw (overwrite_matching s.core.address_shadow shadow n address at fits room same)
            (Moved-nothing l)
