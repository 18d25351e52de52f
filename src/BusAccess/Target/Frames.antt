-- ===== src/BusAccess/Target/Frames.antt =====
-- What the frames of the host library do to the core.
use ipdbg.Prelude.{
  ℕ, zero, suc, ◌-◌, ◌≡◌, refl, ap, ◌∙◌, Bool, true, false, not, List, [], ◌∷◌, ◌++◌, arith, length,
  ◌==◌, ◌&&◌, append_assoc, if◌then◌else◌, Bool-cases, inl, inr,
}
use ipdbg.Escaping.{
  reset_symbol, escape_symbol, is_special, escape, escape_all, Mode, normal, escaping, receive_byte,
}
use ipdbg.BusAccess.Core.{
  Sizes, write_cmd_lock, write_cmd_unlock, read_cmd_lock, read_cmd_unlock, set_addr_cmd,
  read_widths_cmd,
}
use ipdbg.BusAccess.Target.{
  Sink, to_address, to_misc, to_strobe, to_bus, Phase, idle, collecting, Target, finish, collect,
  read_now, dispatch, take_in, react, feed, restart,
}

pub feed-append :
    (z : Sizes) (mode : Mode) (t : Target) (xs ys : List ℕ)
    → feed z mode t (xs ++ ys) ≡ feed z (feed z mode t xs).0 (feed z mode t xs).1 ys
unfolding feed
feed-append z mode t [] ys = refl
feed-append z mode t (x ∷ xs) ys =
    feed-append z (receive_byte mode x).0 (react z (receive_byte mode x).1 t) xs ys

pub feed-plain :
    (z : Sizes) (t : Target) (b : ℕ) (rest : List ℕ)
    → is_special b ≡ false
    → feed z normal t (b ∷ rest) ≡ feed z normal (take_in z t.phase b t) rest
unfolding feed react receive_byte
feed-plain z t b rest plain = elim (Bool-cases (b == escape_symbol)) [
  | inl is_escape ↦ ground (arith, plain, is_escape)
  | inr other ↦ rw other (elim (Bool-cases (b == reset_symbol)) [
    | inl is_reset ↦ ground (arith, plain, is_reset)
    | inr other ↦ rw other refl
  ])
]

feed-escape :
    (z : Sizes) (t : Target) (b : ℕ) (rest : List ℕ)
    → feed z normal t (escape b ++ rest) ≡ feed z normal (take_in z t.phase b t) rest
unfolding escape feed react receive_byte
feed-escape z t b rest = elim (Bool-cases (is_special b)) [
  | inl special ↦ rw special refl
  | inr plain ↦ rw plain (feed-plain z t b rest plain)
]

finish-phase :
    (z : Sizes) (sink : Sink) (bytes : List ℕ) (t : Target) (p : Phase)
    → finish z sink bytes (record t { phase = p }) ≡ finish z sink bytes t
unfolding finish
finish-phase z to_address bytes t p = refl
finish-phase z to_misc bytes t p = refl
finish-phase z to_strobe bytes t p = refl
finish-phase z (to_bus locked) bytes t p = refl

collect-all :
    (z : Sizes) (sink : Sink) (bytes : List ℕ) (left : ℕ) (received : List ℕ) (t : Target)
    (rest : List ℕ)
    → length bytes ≡ suc left
    → feed z normal (record t { phase = collecting sink left received }) (escape_all bytes ++ rest)
      ≡ feed z normal (finish z sink (received ++ bytes) t) rest
unfolding escape_all take_in
collect-all z sink [] left received t rest count = absurd (omega arith)
collect-all z sink (b ∷ []) zero received t rest count =
    ap (feed z normal (record t { phase = collecting sink 0 received }))
      (append_assoc (escape b) [] rest)
    ∙ feed-escape z (record t { phase = collecting sink 0 received }) b rest
    ∙ ap (λ u. feed z normal u rest)
        (finish-phase z sink (received ++ (b ∷ [])) t (collecting sink 0 received))
collect-all z sink (b ∷ c ∷ bytes) zero received t rest count = absurd (omega arith)
collect-all z sink (b ∷ bytes) (suc left) received t rest count =
    ap (feed z normal (record t { phase = collecting sink (suc left) received }))
      (append_assoc (escape b) (escape_all bytes) rest)
    ∙ feed-escape z (record t { phase = collecting sink (suc left) received }) b
        (escape_all bytes ++ rest)
    ∙ collect-all z sink bytes left (received ++ (b ∷ [])) t rest (omega arith)
    ∙ ap (λ l. feed z normal (finish z sink l t) rest) (append_assoc received (b ∷ []) bytes)

-- A command with a field, from idle.
pub feed-field :
    (z : Sizes) (sink : Sink) (command n : ℕ) (bytes : List ℕ) (t : Target) (rest : List ℕ)
    → is_special command ≡ false
    → t.phase ≡ idle
    → dispatch z command t ≡ collect sink n t
    → (n == 0) ≡ false
    → length bytes ≡ n
    → feed z normal t ((command ∷ escape_all bytes) ++ rest)
      ≡ feed z normal (finish z sink bytes t) rest
unfolding take_in
feed-field z sink command n bytes t rest plain at_idle selected some_bytes count =
    feed-plain z t command (escape_all bytes ++ rest) plain
    ∙ ap (λ p. feed z normal (take_in z p command t) (escape_all bytes ++ rest)) at_idle
    ∙ ap (λ u. feed z normal u (escape_all bytes ++ rest)) selected
    ∙ collect-all z sink bytes (n - 1) [] t rest (predecessor n some_bytes count)
  where
    predecessor : (n : ℕ) → (n == 0) ≡ false → length bytes ≡ n → length bytes ≡ suc (n - 1)
    predecessor n some_bytes count = ground (arith, some_bytes, count)

and_false : (b : Bool) → (b && false) ≡ false
and_false true = refl
and_false false = refl

-- The commands of the host select what they mean, where the core has the field.
pub dispatch-write :
    (z : Sizes) (locked : Bool) (t : Target)
    → (z.write_data_width_bytes == 0) ≡ false
    → dispatch z (if locked then write_cmd_lock else write_cmd_unlock) t
      ≡ collect (to_bus locked) z.write_data_width_bytes t
unfolding dispatch
dispatch-write z true t given = rw given refl
dispatch-write z false t given = rw given refl

pub dispatch-read :
    (z : Sizes) (locked : Bool) (t : Target)
    → (z.read_data_width_bytes == 0) ≡ false
    → dispatch z (if locked then read_cmd_lock else read_cmd_unlock) t ≡ read_now locked t
unfolding dispatch
dispatch-read z true t given = rw (and_false (not (z.write_data_width_bytes == 0)), given) refl
dispatch-read z false t given = rw (and_false (not (z.write_data_width_bytes == 0)), given) refl

pub dispatch-address :
    (z : Sizes) (t : Target)
    → (z.address_width_bytes == 0) ≡ false
    → dispatch z set_addr_cmd t ≡ collect to_address z.address_width_bytes t
unfolding dispatch
dispatch-address z t given =
    rw
      (
        and_false (not (z.write_data_width_bytes == 0)),
        and_false (not (z.read_data_width_bytes == 0)),
        given,
      )
      refl

-- A query for the widths leaves the registers as they are.
pub dispatch-widths :
    (z : Sizes) (t : Target) → dispatch z read_widths_cmd t ≡ record t { phase = idle }
unfolding dispatch
dispatch-widths z t =
    rw
      (
        and_false (not (z.write_data_width_bytes == 0)),
        and_false (not (z.read_data_width_bytes == 0)),
        and_false (not (z.address_width_bytes == 0)),
        and_false (not (z.misc_data_width_bytes == 0)),
        and_false (not (z.strobe_width_bytes == 0)),
      )
      refl

-- Two resets and the query for the widths lead to the state after a reset, whatever the core was
-- doing, in the middle of an escape or of a command too.
pub feed-opening :
    (z : Sizes) (mode : Mode) (t : Target) (rest : List ℕ)
    → (u : Target) × (feed z mode t (reset_symbol ∷ reset_symbol ∷ read_widths_cmd ∷ rest)
        ≡ feed z normal (restart z u) rest)
unfolding feed react receive_byte take_in
feed-opening z normal t rest = (t, ap (λ u. feed z normal u rest) (dispatch-widths z (restart z t)))
feed-opening z escaping t rest =
    let u = take_in z t.phase reset_symbol t in
    (u, ap (λ u. feed z normal u rest) (dispatch-widths z (restart z u)))
