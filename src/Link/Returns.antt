-- ===== src/Link/Returns.antt =====
-- Total correctness of commands: no fault, no endless wait, and a postcondition.
use ipdbg.Command.{Ret, error, ok, nak, ack, State, Run, done, Cmd, and_then, if_ok}

pub data Returns {X A : Type 0} (P : A → State X → Type 0) : Run X A → Type 0 where
  returned : {a : A} {s : State X} → P a s → Returns P (done a s)

-- A call that only ends in RET_OK or RET_ERROR.
abbrev pub Outcome : {X : Type 0} → (State X → Type 0) → (State X → Type 0) → Ret → State X → Type 0
Outcome S F ok s = S s
Outcome S F error s = F s
Outcome S F nak s = ⊥
Outcome S F ack s = ⊥

module _ {X A : Type 0} {P : A → State X → Type 0} where
  pub bind_rule :
      {B : Type 0} {Q : B → State X → Type 0} {r : Run X A} {k : A → Cmd X B}
      → Returns P r
      → ((a : A) (s : State X) → P a s → Returns Q (k a s))
      → Returns Q (and_then r k)
  bind_rule (returned p) next = next _ _ p

  pub weaken :
      {Q : A → State X → Type 0} {r : Run X A}
      → Returns P r
      → ((a : A) (s : State X) → P a s → Q a s)
      → Returns Q r
  weaken (returned p) next = returned (next _ _ p)

module _ {X : Type 0} {S F : State X → Type 0} {Q : Ret → State X → Type 0} where
  -- The rest of a function runs after RET_OK, and an error is passed on.
  pub then_rule :
      {r : Run X Ret} {k : Cmd X Ret}
      → Returns (Outcome S F) r
      → ((s : State X) → S s → Returns Q (k s))
      → ((s : State X) → F s → Q error s)
      → Returns Q (and_then r (λ ret. if_ok ret k))
  then_rule (returned {a = ok} p) next failed = next _ p
  then_rule (returned {a = error} p) next failed = returned (failed _ p)
  then_rule (returned {a = nak} p) next failed = absurd p
  then_rule (returned {a = ack} p) next failed = absurd p
