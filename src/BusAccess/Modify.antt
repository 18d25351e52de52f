-- ===== src/BusAccess/Modify.antt =====
-- IpdbgBusAccess_read_modify_write: one locked read and one unlocked write at the same address.
use ipdbg.Prelude.{
  ℕ, ◌≤◌, ◌≡◌, ◌≢◌, refl, ap, ◌∙◌, sym, subst, true, false, not, Option, none, some, List, [], ◌∷◌,
  arith, length, ◌==◌, ==_iff,
}
use ipdbg.Os.{Os, IsQuiet, did_malloc}
use ipdbg.Command.{
  Ret, error, ok, nak, ack, this, State, with_trace, with_error, blank, widths_differ,
  out_of_memory,
}
use ipdbg.Link.{os_malloc}
use ipdbg.Link.Returns.{Returns, returned, weaken, bind_rule}
use ipdbg.BusAccess.Core.{BusCore, bus_env, overwrite, ack_resp, max_size, round_up}
use ipdbg.BusAccess.Access.{read_modify_write, write_back, modified}
use ipdbg.BusAccess.Invariant.{IsValid, IsValid-IsLive, IsLive, IsLive-same, Sound}
use ipdbg.BusAccess.Kinds.{pass}
use ipdbg.BusAccess.Steps.{begin-Returns, reject_if-Returns}
use ipdbg.BusAccess.Exchange.{Exchanged, is_answer, status_byte}
use ipdbg.BusAccess.Address.{given}
use ipdbg.BusAccess.Write.{write_frame, write_ctrllock-WritePost}
use ipdbg.BusAccess.Read.{ReadPost, read_frame, read_ctrllock-ReadPost}
use ipdbg.BusAccess.Modified.{Modified, Modified-Exchanged}

pub record ModifyPost (address : List ℕ) (modify : Option (List ℕ → List ℕ)) (s : State BusCore)
    (r : Ret) (s' : State BusCore) : Type 0 where
  pub sound : Sound r s'
  pub not_ok : r ≢ ok
  pub acknowledged : r ≡ ack → Modified address modify s s'

module _ (os : Os) (fuel : ℕ) (quiet : IsQuiet os fuel) where
  write_back-ModifyPost :
      (address : List ℕ) (modify : Option (List ℕ → List ℕ)) (s : State BusCore) (shadow : List ℕ)
      → s.core.address_shadow ≡ some shadow
      → s.core.sizes.address_width_bytes ≤ length address
      → s.core.sizes.write_data_width_bytes ≡ s.core.sizes.read_data_width_bytes
      → ((bytes : List ℕ) → length (modified modify bytes) ≡ length bytes)
      → (r : Ret) (result : Option (List ℕ)) (s₁ : State BusCore)
      → ReadPost address true s (r, result) s₁
      → Returns
          (ModifyPost address modify s)
          (write_back os fuel this address modify (r, result) s₁)
  unfolding write_back
  write_back-ModifyPost address modify s shadow at fits same in_place error result s₁ p =
      returned (record { sound = p.sound; not_ok = p.not_ok; acknowledged = λ h. cc })
  write_back-ModifyPost address modify s shadow at fits same in_place nak result s₁ p =
      returned (record { sound = p.sound; not_ok = p.not_ok; acknowledged = λ h. cc })
  write_back-ModifyPost address modify s shadow at fits same in_place ok result s₁ p =
      absurd (p.not_ok refl)
  write_back-ModifyPost address modify s shadow at fits same in_place ack none s₁ p =
      cc ((p.answered refl).stored)
  write_back-ModifyPost address modify s shadow at fits same in_place ack (some bytes) s₁ p =
      weaken
        (write_ctrllock-WritePost os fuel quiet address (modified modify bytes) false s₁
          p.sound.valid (rw e.sizes fits) (rw e.sizes (omega (arith, same, in_place bytes, count))))
        λ r s' w. record {
          sound = w.sound;
          not_ok = w.not_ok;
          acknowledged = λ is_ack.
              Modified-Exchanged address modify s s₁ s' bytes shadow at fits count e (
                subst
                  (λ q.
                    Exchanged (write_frame s₁.core address (modified modify bytes) false)
                      (status_byte q ∷ [])
                      (overwrite s₁.core.address_shadow (given s₁.core address)) s₁ s')
                  is_ack (w.answered (ap is_answer is_ack)));
        }
    where
      given_back : bytes ≡ (p.answered refl).bytes
      given_back = cc ((p.answered refl).stored)

      e :
          Exchanged
            (read_frame s.core address true)
            (ack_resp ∷ bytes)
            (overwrite s.core.address_shadow (given s.core address))
            s
            s₁
      e = rw given_back (p.answered refl).exchanged

      count : length bytes ≡ s.core.sizes.read_data_width_bytes
      count = rw given_back (p.answered refl).length_bytes

  -- For an operating system that drains within the fuel after a shutdown, on a valid handle with
  -- enough bytes of address, and with a `modify` that keeps the number of bytes,
  -- IpdbgBusAccess_read_modify_write returns and leaves a valid handle whose last error is empty
  -- exactly for RET_ACK. For RET_ACK the bytes sent are the address if it is new, the locked
  -- read, and the unlocked write of what `modify` makes of the bytes read; the address is not
  -- sent again.
  pub read_modify_write-ModifyPost :
      (address : List ℕ) (modify : Option (List ℕ → List ℕ)) (s : State BusCore)
      → IsValid s
      → s.core.sizes.address_width_bytes ≤ length address
      → ((bytes : List ℕ) → length (modified modify bytes) ≡ length bytes)
      → Returns (ModifyPost address modify s) (read_modify_write os fuel this address modify s)
  unfolding read_modify_write os_malloc bus_env
  read_modify_write-ModifyPost address modify s v fits in_place =
      begin-Returns s _ v
        (λ l.
          reject_if-Returns _ widths_differ s₀ _ refl l
            (λ same.
              reject_if-Returns _ out_of_memory s₁ _ refl (IsLive-same s₁ refl l)
                (λ _.
                  bind_rule
                    (read_ctrllock-ReadPost os fuel quiet address true s₁
                      (IsValid-IsLive (IsLive-same s₁ refl l)) fits)
                    λ (r, result) s₂ p.
                      weaken
                        (write_back-ModifyPost address modify s₁ l.ready.shadow
                          l.ready.address_shadow fits (widths l same) in_place r result s₂ p)
                        from_start)
                failed)
            failed)
        failed
    where
      s₀ : State BusCore
      s₀ = with_error s blank

      n : ℕ
      n = max_size s.core.sizes.read_data_width_bytes 1

      s₁ : State BusCore
      s₁ = with_trace s₀ (did_malloc n (os.malloc s.trace n) ∷ s.trace)

      failed : (s' : State BusCore) → Sound error s' → ModifyPost address modify s error s'
      failed s' sound = record { sound = sound; not_ok = λ h. cc; acknowledged = λ h. cc }

      widths :
          IsLive s₀
          → not (s.core.sizes.read_data_width == s.core.sizes.write_data_width) ≡ false
          → s.core.sizes.write_data_width_bytes ≡ s.core.sizes.read_data_width_bytes
      widths l same =
          l.ready.rounded.write_data
          ∙ ap round_up (sym ((==_iff _ _).0 (pass _ same)))
          ∙ sym l.ready.rounded.read_data

      from_start :
          (r : Ret) (s' : State BusCore)
          → ModifyPost address modify s₁ r s'
          → ModifyPost address modify s r s'
      from_start r s' p = record {
        sound = p.sound;
        not_ok = p.not_ok;
        acknowledged = λ is_ack.
            let m = p.acknowledged is_ack in
            record {
              bytes = m.bytes;
              length_bytes = m.length_bytes;
              exchanged = started m.exchanged;
            };
      }
        where
          started :
              {sent got : List ℕ} {shadow : Option (List ℕ)}
              → Exchanged sent got shadow s₁ s'
              → Exchanged sent got shadow s s'
          started e = record {
            connected = e.connected;
            sizes = e.sizes;
            shadowed = e.shadowed;
            wire_grows = e.wire_grows;
            heard_grows = e.heard_grows;
          }
