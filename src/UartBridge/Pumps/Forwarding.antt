-- ===== src/UartBridge/Pumps/Forwarding.antt =====
-- Both directions are forwarded byte for byte and in order, whatever the two threads do.
use ipdbg.Prelude.{
  ℕ, ◌≡◌, refl, ◌∙◌, sym, true, false, List, [], ◌∷◌, ◌++◌, ◌⊎◌, inl, inr, append-nil,
}
use ipdbg.UartBridge.Pumps.{
  Down, Up, Pumps, DownStep, UpStep, Step, down_step, up_step, Reach, here, next,
}
use ipdbg.UartBridge.Pumps.Invariant.{
  Inv, DownInv, UpInv-clear, UpInv-shut, DownInv-clear, DownInv-shut, DownInv-failed, all_given,
  some_given, down_at, up_at, settled, moved,
}

DownStep-Inv : {p q : Pumps} → DownStep p q → Inv p → Inv q
DownStep-Inv (DownStep.goes_on at runs) i = record {
  down_inv = settled Down.recv (down_at at i) (λ _ h. h) tt;
  up_inv = i.up_inv;
}
DownStep-Inv (DownStep.stops at halts) i = record {
  down_inv = settled Down.clear (down_at at i) (λ _ h. inr h) tt;
  up_inv = i.up_inv;
}
DownStep-Inv {p} (DownStep.received b bytes fits at) i =
    let j = down_at at i in
    record {
      down_inv = record {
        unwritten = b ∷ bytes;
        bytes = all_given p.from_client p.to_serial j.unwritten (b ∷ bytes) j.bytes j.left;
        left = refl;
        ends = tt;
      };
      up_inv = i.up_inv;
    }
DownStep-Inv (DownStep.ended at) i = record {
  down_inv = settled Down.clear (down_at at i) (λ _ h. inr h) tt;
  up_inv = i.up_inv;
}
DownStep-Inv {p} (DownStep.written bytes at) i =
    let j = down_at at i in
    record {
      down_inv = record {
        unwritten = [];
        bytes =
            some_given p.from_client p.to_serial j.unwritten bytes [] j.bytes
              (j.left ∙ sym (append-nil bytes));
        left = refl;
        ends = tt;
      };
      up_inv = i.up_inv;
    }
DownStep-Inv {p} (DownStep.not_written sent rest at) i =
    let j = down_at at i in
    record {
      down_inv = record {
        unwritten = rest;
        bytes = some_given p.from_client p.to_serial j.unwritten sent rest j.bytes j.left;
        left = refl;
        ends = tt;
      };
      up_inv = i.up_inv;
    }
DownStep-Inv (DownStep.fails rest at) i = record {
  down_inv = settled Down.clear (down_at at i) (λ _ h. inl refl) tt;
  up_inv = i.up_inv;
}
DownStep-Inv (DownStep.clears at) i = record {
  down_inv = settled Down.shut (down_at at i) (λ _ h. h) refl;
  up_inv = UpInv-clear i.up_inv;
}
DownStep-Inv (DownStep.shuts at) i =
    let j = down_at at i in
    record {
      down_inv = settled Down.done j (λ _ h. h) (j.ends, refl);
      up_inv = UpInv-shut i.up_inv;
    }

UpStep-Inv : {p q : Pumps} → UpStep p q → Inv p → Inv q
UpStep-Inv (UpStep.has_events at) i = record {
  down_inv = i.down_inv;
  up_inv = moved Up.test (up_at at i) (λ _ h. h) tt tt;
}
UpStep-Inv (UpStep.no_events made at) i = record {
  down_inv = i.down_inv;
  up_inv = moved Up.set_up_failed (up_at at i) (λ _ h. h) tt tt;
}
UpStep-Inv (UpStep.set_up_fails at) i = record {
  down_inv = DownInv-failed i.down_inv;
  up_inv = moved Up.set_up_clear (up_at at i) (λ _ h. h) tt tt;
}
UpStep-Inv (UpStep.set_up_clears at) i = record {
  down_inv = DownInv-clear i.down_inv;
  up_inv = moved Up.set_up_shut (up_at at i) (λ _ h. h) refl tt;
}
UpStep-Inv (UpStep.set_up_shuts at) i =
    let j = up_at at i in
    record {
      down_inv = DownInv-shut i.down_inv;
      up_inv = moved Up.set_up_free j (λ _ h. h) (j.ends, refl) tt;
    }
UpStep-Inv (UpStep.set_up_frees at) i =
    let j = up_at at i in
    record { down_inv = i.down_inv; up_inv = moved Up.done j (λ _ h. tt) j.ends refl }
UpStep-Inv (UpStep.goes_on at runs) i = record {
  down_inv = i.down_inv;
  up_inv = moved Up.wait (up_at at i) (λ _ h. h) tt tt;
}
UpStep-Inv (UpStep.stops at halts) i = record {
  down_inv = i.down_inv;
  up_inv = moved Up.free (up_at at i) (λ _ h. tt) tt tt;
}
UpStep-Inv (UpStep.waited at) i = record {
  down_inv = i.down_inv;
  up_inv = moved Up.read (up_at at i) (λ _ h. h) tt tt;
}
UpStep-Inv (UpStep.wait_fails at) i = record {
  down_inv = i.down_inv;
  up_inv = moved Up.failed (up_at at i) (λ _ h. h) tt tt;
}
UpStep-Inv (UpStep.read_fails at) i = record {
  down_inv = i.down_inv;
  up_inv = moved Up.failed (up_at at i) (λ _ h. h) tt tt;
}
UpStep-Inv (UpStep.nothing at) i = record {
  down_inv = i.down_inv;
  up_inv = moved Up.test (up_at at i) (λ _ h. h) tt tt;
}
UpStep-Inv (UpStep.nothing_early at few) i = record {
  down_inv = i.down_inv;
  up_inv = moved Up.test (up_at at i) (λ _ h. h) tt tt;
}
UpStep-Inv (UpStep.closed_by_system at many) i = record {
  down_inv = i.down_inv;
  up_inv = moved Up.failed (up_at at i) (λ _ h. h) tt tt;
}
UpStep-Inv {p} (UpStep.has_read b bytes fits at) i =
    let j = up_at at i in
    record {
      down_inv = i.down_inv;
      up_inv = record {
        unsent = b ∷ bytes;
        bytes = all_given p.from_serial p.to_client j.unsent (b ∷ bytes) j.bytes j.left;
        left = refl;
        ends = tt;
        kept = tt;
      };
    }
UpStep-Inv {p} (UpStep.sends b sent rest at) i =
    let j = up_at at i in
    record {
      down_inv = i.down_inv;
      up_inv = record {
        unsent = rest;
        bytes = some_given p.from_serial p.to_client j.unsent (b ∷ sent) rest j.bytes j.left;
        left = refl;
        ends = tt;
        kept = tt;
      };
    }
UpStep-Inv (UpStep.all_sent at) i = record {
  down_inv = i.down_inv;
  up_inv = moved Up.test (up_at at i) (λ _ h. h) tt tt;
}
UpStep-Inv (UpStep.send_fails b rest at) i = record {
  down_inv = i.down_inv;
  up_inv = moved Up.free (up_at at i) (λ _ h. tt) tt tt;
}
UpStep-Inv (UpStep.fails at) i = record {
  down_inv = DownInv-failed i.down_inv;
  up_inv = moved Up.free (up_at at i) (λ _ h. tt) tt tt;
}
UpStep-Inv (UpStep.frees at) i = record {
  down_inv = i.down_inv;
  up_inv = moved Up.clear (up_at at i) (λ _ h. tt) tt refl;
}
UpStep-Inv (UpStep.clears at) i =
    let j = up_at at i in
    record { down_inv = DownInv-clear i.down_inv; up_inv = moved Up.shut j (λ _ h. tt) refl j.kept }
UpStep-Inv (UpStep.shuts at) i =
    let j = up_at at i in
    record {
      down_inv = DownInv-shut i.down_inv;
      up_inv = moved Up.done j (λ _ h. tt) (j.ends, refl) j.kept;
    }

pub Step-Inv : {p q : Pumps} → Step p q → Inv p → Inv q
Step-Inv (down_step d) i = DownStep-Inv d i
Step-Inv (up_step u) i = UpStep-Inv u i

pub Reach-Inv : {p : Pumps} → Reach p → Inv p
Reach-Inv here = record {
  down_inv = record { unwritten = []; bytes = refl; left = refl; ends = tt };
  up_inv = record { unsent = []; bytes = refl; left = refl; ends = tt; kept = refl };
}
Reach-Inv (next r s) = Step-Inv s (Reach-Inv r)

-- What has gone out is a prefix of what has come in, in both directions; and where the first thread
-- is at its end with no failure of the serial port, it is everything.
pub record Forwarded (p : Pumps) : Type 0 where
  pub unwritten : List ℕ
  pub to_serial_prefix : p.from_client ≡ p.to_serial ++ unwritten
  pub unsent : List ℕ
  pub to_client_prefix : p.from_serial ≡ p.to_client ++ unsent
  pub all_written : p.down ≡ Down.done → p.serial_failed ≡ false → p.from_client ≡ p.to_serial
  pub all_sent : p.up ≡ Up.test → p.from_serial ≡ p.to_client
  pub ended : (p.down ≡ Down.done) ⊎ (p.up ≡ Up.done) → (p.running ≡ false) × (p.shut_down ≡ true)
  pub freed : p.up ≡ Up.done → p.events ≡ false

-- After any interleaving of the two threads of a session: the bytes written to the serial port
-- are a prefix of those received from the client, and all of them when that thread has ended
-- without a failure of the port; the bytes sent to the client are a prefix of those read from the
-- port, and all of them at the test of `running`; a thread that has ended has cleared `running`
-- and shut the socket down; and the event set is freed.
pub Reach-Forwarded : {p : Pumps} → Reach p → Forwarded p
Reach-Forwarded {p} r = record {
  unwritten = i.down_inv.unwritten;
  to_serial_prefix = i.down_inv.bytes;
  unsent = i.up_inv.unsent;
  to_client_prefix = i.up_inv.bytes;
  all_written = λ at sound. written sound (down_at at i);
  all_sent = λ at. let j = up_at at i in given p.from_serial p.to_client j.unsent j.bytes j.left;
  ended = flags;
  freed = λ at. (up_at at i).kept;
}
  where
    i : Inv p
    i = Reach-Inv r

    given : (xs ys rest : List ℕ) → xs ≡ ys ++ rest → rest ≡ [] → xs ≡ ys
    given xs ys rest e none = e ∙ rw none (append-nil ys)

    written :
        p.serial_failed ≡ false
        → DownInv Down.done p.running p.shut_down p.serial_failed p.from_client p.to_serial
        → p.from_client ≡ p.to_serial
    written sound j = cases j.left
      where
        cases : (p.serial_failed ≡ true) ⊎ (j.unwritten ≡ []) → p.from_client ≡ p.to_serial
        cases (inl failed) = cc (sound, failed)
        cases (inr none) = given p.from_client p.to_serial j.unwritten j.bytes none

    flags : (p.down ≡ Down.done) ⊎ (p.up ≡ Up.done) → (p.running ≡ false) × (p.shut_down ≡ true)
    flags (inl at) = (down_at at i).ends
    flags (inr at) = (up_at at i).ends
