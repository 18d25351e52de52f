-- ===== src/BusAccess/Modified.antt =====
-- What IpdbgBusAccess_read_modify_write sends: the frames of its read and of its write.
use ipdbg.Prelude.{
  ℕ, ◌≤◌, ◌≡◌, refl, ap, ◌∙◌, sym, true, false, Option, none, some, List, [], ◌∷◌, ◌++◌, arith,
  length, take, append_assoc, same_bytes, drop, take-append, drop-append,
}
use ipdbg.Os.{wire, heard}
use ipdbg.Command.{State}
use ipdbg.Escaping.{escape_all}
use ipdbg.BusAccess.Core.{BusCore, overwrite, write_cmd_unlock, ack_resp}
use ipdbg.BusAccess.Access.{modified}
use ipdbg.BusAccess.Exchange.{Exchanged}
use ipdbg.BusAccess.Address.{given, address_frame, shadow_matches, matches-eq, length-given}
use ipdbg.BusAccess.Write.{write_frame}
use ipdbg.BusAccess.Read.{read_frame}

-- What goes over the connection: the address once, the locked read, the unlocked write of what
-- `modify` made of the data.
pub record Modified (address : List ℕ) (modify : Option (List ℕ → List ℕ)) (s s' : State BusCore)
    : Type 0 where
  pub bytes : List ℕ
  pub length_bytes : length bytes ≡ s.core.sizes.read_data_width_bytes
  pub exchanged :
      Exchanged
        (read_frame s.core address true
          ++ (write_cmd_unlock
              ∷ escape_all (take s.core.sizes.write_data_width_bytes (modified modify bytes))))
        ((ack_resp ∷ bytes) ++ (ack_resp ∷ []))
        (overwrite s.core.address_shadow (given s.core address))
        s
        s'

same_bytes_refl : (xs : List ℕ) → same_bytes xs xs ≡ true
same_bytes_refl [] = refl
same_bytes_refl (x ∷ xs) = ground (arith, same_bytes_refl xs)

-- Over `shadow`, twice the same bytes are once.
overwrite_twice :
    (pointer : Option (List ℕ)) (bytes : List ℕ)
    → overwrite (overwrite pointer bytes) bytes ≡ overwrite pointer bytes
unfolding overwrite
overwrite_twice none bytes = refl
overwrite_twice (some old) bytes =
    ap (λ l. some (bytes ++ l)) (drop-append bytes (drop (length bytes) old))

-- An address that has just been set is not sent again.
address_frame_again :
    (c d : BusCore) (shadow address : List ℕ)
    → d.sizes.address_width_bytes ≡ c.sizes.address_width_bytes
    → c.address_shadow ≡ some shadow
    → c.sizes.address_width_bytes ≤ length address
    → d.address_shadow ≡ overwrite c.address_shadow (given c address)
    → address_frame d address ≡ []
unfolding address_frame overwrite
address_frame_again c d shadow address sizes at fits shadowed = rw found refl
  where
    known : List ℕ
    known = given c address

    stored : List ℕ
    stored = known ++ drop (length known) shadow

    at' : d.address_shadow ≡ some stored
    at' = shadowed ∙ ap (λ p. overwrite p known) at

    start : take c.sizes.address_width_bytes stored ≡ known
    start = ap (λ n. take n stored) (sym (length-given c address fits)) ∙ take-append known _

    found : shadow_matches d.address_shadow d.sizes.address_width_bytes address ≡ true
    found =
        matches-eq d.address_shadow stored d.sizes.address_width_bytes address at'
        ∙ ap (λ n. same_bytes (take n address) (take n stored)) sizes
        ∙ ap (λ l. same_bytes known l) start
        ∙ same_bytes_refl known

module _ (address : List ℕ) (modify : Option (List ℕ → List ℕ)) (s s₁ : State BusCore) where
  -- The read and the write one after the other.
  pub Modified-Exchanged :
      (s' : State BusCore) (bytes shadow : List ℕ)
      → s.core.address_shadow ≡ some shadow
      → s.core.sizes.address_width_bytes ≤ length address
      → length bytes ≡ s.core.sizes.read_data_width_bytes
      → Exchanged
          (read_frame s.core address true)
          (ack_resp ∷ bytes)
          (overwrite s.core.address_shadow (given s.core address))
          s
          s₁
      → Exchanged
          (write_frame s₁.core address (modified modify bytes) false)
          (ack_resp ∷ [])
          (overwrite s₁.core.address_shadow (given s₁.core address))
          s₁
          s'
      → Modified address modify s s'
  unfolding write_frame
  Modified-Exchanged s' bytes shadow at fits count e e' = record {
    bytes = bytes;
    length_bytes = count;
    exchanged = record {
      connected = e'.connected;
      sizes = e'.sizes ∙ e.sizes;
      shadowed =
          e'.shadowed
          ∙ ap (λ z. overwrite s₁.core.address_shadow (take z.address_width_bytes address)) e.sizes
          ∙ ap (λ p. overwrite p (given s.core address)) e.shadowed
          ∙ overwrite_twice s.core.address_shadow (given s.core address);
      wire_grows =
          e'.wire_grows
          ∙ ap (λ l. l ++ write_frame s₁.core address (modified modify bytes) false) e.wire_grows
          ∙ append_assoc (wire s.trace) _ _
          ∙ ap (λ l. wire s.trace ++ (read_frame s.core address true ++ l)) frame;
      heard_grows =
          e'.heard_grows
          ∙ ap (λ l. l ++ (ack_resp ∷ [])) e.heard_grows
          ∙ append_assoc (heard s.trace) (ack_resp ∷ bytes) (ack_resp ∷ []);
    };
  }
    where
      frame :
          write_frame s₁.core address (modified modify bytes) false
          ≡ write_cmd_unlock
            ∷ escape_all (take s.core.sizes.write_data_width_bytes (modified modify bytes))
      frame =
          ap
            (λ l.
              l
              ++ (write_cmd_unlock
                  ∷ escape_all (take s₁.core.sizes.write_data_width_bytes (modified modify bytes))))
            (address_frame_again s.core s₁.core shadow address
              (ap (λ z. z.address_width_bytes) e.sizes) at fits e.shadowed)
          ∙ ap
              (λ z.
                write_cmd_unlock
                ∷ escape_all (take z.write_data_width_bytes (modified modify bytes)))
              e.sizes
