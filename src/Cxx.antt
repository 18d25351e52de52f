-- ===== src/Cxx.antt =====
-- The C++ wrappers of the host libraries: what they throw, and calls that may throw.
pub mod Bytes
pub mod Bus
pub mod Waveform
use ipdbg.Prelude.{ℕ, Bool, Option, none, some, if◌then◌else◌}
use ipdbg.Command.{Ret, this, Message, State, Run, Cmd, pure, done, fault, and_then, is_ok}
use ipdbg.Link.{get_last_error}
use ipdbg.Link.Returns.{Returns, returned}

-- The `fieldName` of `toBytes`.
pub data FieldName : Type 0 where
  address write_data misc_value strobe_value : FieldName

-- One constructor for each text of a `std::runtime_error`, with its arguments.
pub data Thrown : Type 0 where
  unable_to_allocate not_open : Thrown
  last_error_text : Message → Thrown
  exceeds : FieldName → ℕ → ℕ → Thrown
  does_not_fit : ℕ → ℕ → Thrown
  master_has_no_write_data master_has_no_read_data : Thrown
  write_nak read_nak : ℕ → Thrown
  write_failed read_failed : ℕ → Message → Thrown
  misc_failed strobe_failed : Message → Thrown
  data_width_too_wide : ℕ → Thrown
  samples_empty : Thrown
  exceeds_memory : ℕ → ℕ → Thrown
  outside_the_range : ℕ → Thrown

pub data Result (A : Type 0) : Type 0 where
  value : A → Result A
  thrown : Thrown → Result A

abbrev pub Call : Type 0 → Type 0 → Type 0
Call X A = Cmd X (Result A)

abbrev pub if_value : {X A B : Type 0} → Result A → (A → Call X B) → Call X B
if_value (value a) k = k a
if_value (thrown e) k = pure (thrown e)

infixl 5 ◌>>=◌ ◌>>◌
abbrev pub ◌>>=◌ : {X A B : Type 0} → Call X A → (A → Call X B) → Call X B
m >>= k = λ s. and_then (m s) (λ r. if_value r k)

abbrev pub ◌>>◌ : {X B : Type 0} → Call X (Unit {0}) → Call X B → Call X B
m >> k = m >>= λ _. k

abbrev pub throw : {X A : Type 0} → Thrown → Call X A
throw e = pure (thrown e)

abbrev pub returns : {X A : Type 0} → A → Call X A
returns a = pure (value a)

-- A function of the C library, which does not throw.
abbrev pub call : {X A : Type 0} → Cmd X A → Call X A
call m s = and_then (m s) (λ a. pure (value a))

-- A function that uses no handle.
abbrev pub lift : {X A : Type 0} → Result A → Call X A
lift r = pure r

-- `if (refused) throw e;`
abbrev pub throw_if : {X : Type 0} → Bool → Thrown → Call X (Unit {0})
throw_if refused e = if refused then throw e else returns tt

module _ {X : Type 0} where
  -- `std::string` of a null pointer is undefined.
  unfoldable pub last_error : Call X Message
  last_error s = elim (get_last_error this s) [ none ↦ fault | some m ↦ done (value m) s ]

  unfoldable pub check_result : Ret → Call X (Unit {0})
  unfolding last_error
  check_result ret =
      if is_ok ret then returns tt else (do m ← last_error; throw (last_error_text m))

  -- A local that only a successful query has set.
  unfoldable pub result_of : Ret × Option ℕ → Call X ℕ
  unfolding check_result
  result_of (ret, result) = do
    check_result ret
    elim result [ none ↦ λ s. fault | some n ↦ returns n ]

module _ {X A B : Type 0} {P : A → State X → Type 0} {Q : Result B → State X → Type 0} where
  pub call_rule :
      {r : Run X A} {k : A → Call X B}
      → Returns P r
      → ((a : A) (s' : State X) → P a s' → Returns Q (k a s'))
      → Returns Q (and_then (and_then r (λ a. pure (value a))) (λ x. if_value x k))
  call_rule (returned p) next = next _ _ p
