-- ===== src/BusAccess/Opening/Sizing.antt =====
-- IpdbgBusAccess_getSizes: the widths are those that the core has answered.
use ipdbg.Prelude.{
  ℕ, ◌≡◌, refl, ap, ◌∙◌, sym, List, [], ◌∷◌, ◌++◌, arith, length, ◌==◌, ==_iff, inl, inr,
  append-nil, append_assoc, subst, length-append, Bool-cases,
}
use ipdbg.Os.{Os, IsQuiet}
use ipdbg.Command.{Ret, error, ok, nak, ack, State, Cmd, and_then, if_ok}
use ipdbg.Link.{receive, reject_if}
use ipdbg.Link.Returns.{Returns, returned, Outcome, then_rule, bind_rule}
use ipdbg.Link.Receiving.{RecvPost, receive-Received}
use ipdbg.Link.Frames.{send_command-Sent}
use ipdbg.BusAccess.Core.{
  BusCore, bus_env, sizes_of, read_widths_cmd, protocol_id, get_protocol_id, word_at,
}
use ipdbg.BusAccess.Query.{get_sizes, get_widths}
use ipdbg.BusAccess.Opening.{Failed, Setting, Setting-same, Setting-SendPost, Failed-Broken}

-- The six words of the answer are the widths, and the first names the protocol.
pub record Sized (before sent : List ℕ) (core : BusCore) (s : State BusCore) : Type 0 where
  pub answer : List ℕ
  pub length_answer : length answer ≡ 24
  pub protocol : get_protocol_id (sizes_of answer).version_and_id ≡ protocol_id
  pub setting : Setting sent (before ++ answer) (record core { sizes = sizes_of answer }) s

word_at-first :
    (first rest : List ℕ) → length first ≡ 4 → word_at (first ++ rest) 0 ≡ word_at first 0
unfolding word_at
word_at-first (a ∷ b ∷ c ∷ d ∷ []) rest h = refl
word_at-first [] rest h = absurd (omega arith)
word_at-first (a ∷ []) rest h = absurd (omega arith)
word_at-first (a ∷ b ∷ []) rest h = absurd (omega arith)
word_at-first (a ∷ b ∷ c ∷ []) rest h = absurd (omega arith)
word_at-first (a ∷ b ∷ c ∷ d ∷ e ∷ l) rest h = absurd (omega arith)

module _ (os : Os) (fuel : ℕ) (quiet : IsQuiet os fuel) where
  receive-Setting :
      (n : ℕ) {sent got : List ℕ} {core : BusCore} {s : State BusCore}
      {Q : Ret → State BusCore → Type 0} (k : List ℕ → Cmd BusCore Ret)
      → Setting sent got core s
      → ((bytes : List ℕ) (s' : State BusCore)
          → length bytes ≡ n
          → Setting sent (got ++ bytes) core s'
          → Returns Q (k bytes s'))
      → ((s' : State BusCore) → Failed s' → Q error s')
      → Returns Q (and_then (receive (bus_env os fuel) n s) (λ (ret, bytes). if_ok ret (k bytes)))
  unfolding bus_env
  receive-Setting n {sent} {got} {core} {s} {Q} k q next failed =
      bind_rule (receive-Received (bus_env os fuel) quiet n s) go
    where
      go :
          (a : Ret × List ℕ) (s' : State BusCore)
          → RecvPost (bus_env os fuel) [] n s a s'
          → Returns Q (if_ok a.0 (k a.1) s')
      go (ok, bytes) s' p = next bytes s' (rw p.bytes_new p.length_new) (
          subst (λ l. Setting l (got ++ bytes) core s') (append-nil sent)
            (Setting-same [] bytes s' q p.handle (p.wire_kept ∙ sym (append-nil _))
              (rw p.bytes_new p.heard_grows)))
      go (error, bytes) s' p = returned (failed s' (Failed-Broken os fuel q.connected p.broken))
      go (nak, bytes) s' p = absurd p
      go (ack, bytes) s' p = absurd p

  get_widths-Sized :
      (before first : List ℕ) {sent : List ℕ} {core : BusCore} {s : State BusCore}
      → length first ≡ 4
      → Setting sent (before ++ first) core s
      → Returns (Outcome (Sized before sent core) Failed) (get_widths os fuel first s)
  unfolding get_widths reject_if sizes_of
  get_widths-Sized before first {sent} {core} {s} count q =
      elim (Bool-cases (get_protocol_id (word_at first 0) == protocol_id)) [
        | inr other ↦
            rw other (returned (record { reported = refl; freed = λ h. cc (h, q.connected) }))
        | inl same ↦ rw same (
            receive-Setting 20 _ q
              (λ rest s' count' q'. returned (record {
                answer = first ++ rest;
                length_answer = omega (arith, length-append first rest, count, count');
                protocol =
                    ap get_protocol_id (word_at-first first rest count) ∙ (==_iff _ _).0 same;
                setting = record {
                  connected = q'.connected;
                  no_error = q'.no_error;
                  core_is =
                      ap (λ (c : BusCore). record c { sizes = sizes_of (first ++ rest) })
                        q'.core_is;
                  wire_is = q'.wire_is;
                  heard_is = q'.heard_is ∙ append_assoc before first rest;
                };
              }))
              (λ s' failed. failed))
      ]

  pub get_sizes-Sized :
      (before : List ℕ) {sent : List ℕ} {core : BusCore} {s : State BusCore}
      → Setting sent before core s
      → Returns
          (Outcome (Sized before (sent ++ (read_widths_cmd ∷ [])) core) Failed)
          (get_sizes os fuel s)
  unfolding get_sizes bus_env
  get_sizes-Sized before {s} q =
      then_rule
        (Setting-SendPost os fuel q (send_command-Sent (bus_env os fuel) quiet read_widths_cmd s))
        (λ s₁ q₁.
          receive-Setting 4 _ q₁ (λ first s₂ count q₂. get_widths-Sized before first count q₂)
            (λ s' failed. failed))
        (λ s' failed. failed)
