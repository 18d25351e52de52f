-- ===== src/UartBridge/Options.antt =====
-- sw/UartBridge/UartBridge.cpp: parseInt and parseOptions. Texts are lists of bytes without the
-- final 0; `long` has 64 bits.
pub mod Bounds
pub mod Accepted
use ipdbg.Prelude.{
  ℕ, zero, suc, ◌+◌, ◌-◌, ◌*◌, ◌^◌, Bool, true, false, not, ◌&&◌, ◌||◌, Option, none, some, List,
  [], ◌∷◌, ltb, leb, ◌==◌, if◌then◌else◌, same_bytes, ◌⊎◌, inl, inr,
}
use ipdbg.Prelude.Int.{ℤ, pos, negsuc, ltb_ℤ}
use ipdbg.Prelude.Text.{codes}

-- The bytes of `isspace`.
unfoldable pub is_space : ℕ → Bool
is_space c = c == 0x20 || leb 0x09 c && leb c 0x0D

unfoldable pub is_digit : ℕ → Bool
is_digit c = leb 0x30 c && leb c 0x39

-- The number that the digits at the start stand for, and what follows them.
unfoldable pub digits_of : ℕ → List ℕ → ℕ × List ℕ
unfolding is_digit
digits_of n [] = (n, [])
digits_of n (c ∷ s) =
    let more = digits_of (n * 10 + (c - 0x30)) s in if is_digit c then more else (n, c ∷ s)

unfoldable pub begins_with_digit : List ℕ → Bool
unfolding is_digit
begins_with_digit [] = false
begins_with_digit (c ∷ s) = is_digit c

unfoldable pub skip_space : List ℕ → List ℕ
unfolding is_space
skip_space [] = []
skip_space (c ∷ s) = if is_space c then skip_space s else c ∷ s

-- LONG_MAX and LONG_MIN stand for what does not fit.
unfoldable pub saturated : Bool → ℕ → ℤ
saturated true n =
    if leb n (2 ^ 63) then (if n == 0 then pos 0 else negsuc (n - 1)) else negsuc (2 ^ 63 - 1)
saturated false n = if ltb n (2 ^ 63) then pos n else pos (2 ^ 63 - 1)

-- Without a digit there is no conversion.
unfoldable pub signed_digits : Bool → List ℕ → Option (ℤ × List ℕ)
unfolding digits_of begins_with_digit saturated
signed_digits negative s =
    let (n, rest) = digits_of 0 s in
    if begins_with_digit s then some (saturated negative n, rest) else none

unfoldable pub after_sign : List ℕ → Option (ℤ × List ℕ)
unfolding signed_digits
after_sign [] = none
after_sign (c ∷ s) =
    if c == 0x2D
    then signed_digits true s
    else if c == 0x2B
    then signed_digits false s
    else signed_digits false (c ∷ s)

-- `strtol(s, &end, 10)`, with what `end` points to; `none` is `end == s`.
unfoldable pub strtol : List ℕ → Option (ℤ × List ℕ)
unfolding skip_space after_sign
strtol s = after_sign (skip_space s)

-- `static_cast<int>` of a number within the bounds, which are not negative.
unfoldable pub to_int : ℤ → ℕ
to_int (pos n) = n
to_int (negsuc n) = 0

unfoldable pub within : ℕ → ℕ → ℤ × List ℕ → Option ℕ
unfolding to_int
within least most (v, []) =
    if ltb_ℤ v (pos least) || ltb_ℤ (pos most) v then none else some (to_int v)
within least most (v, c ∷ rest) = none

unfoldable pub checked : ℕ → ℕ → Option (ℤ × List ℕ) → Option ℕ
unfolding within
checked least most none = none
checked least most (some found) = within least most found

unfoldable pub parse_int : List ℕ → ℕ → ℕ → Option ℕ
unfolding strtol checked
parse_int s least most = checked least most (strtol s)

pub record Options : Type 0 where
  pub device : List ℕ
  pub baudrate : ℕ
  pub tcp_port : ℕ
  pub bind : List ℕ

abbrev pub no_options : Options
no_options = record { device = []; baudrate = 0; tcp_port = 0; bind = codes "127.0.0.1" }

pub record Parse : Type 0 where
  pub options : Options
  pub list : Bool
  pub positional : ℕ

abbrev pub nothing_parsed : Parse
nothing_parsed = record { options = no_options; list = false; positional = 0 }

-- The options with `list`, `return false`, or `std::exit(0)` after the help or the version.
pub data Parsed : Type 0 where
  run : Options → Bool → Parsed
  refused exits : Parsed

-- An argument is taken, wants the next one as its value, or ends the parsing.
pub data Taken : Type 0 where
  next : Parse → Taken
  value_wanted : Taken
  stop : Parsed → Taken

unfoldable pub take_number : Option ℕ → (ℕ → Parse) → Taken
take_number none set = Taken.stop Parsed.refused
take_number (some n) set = Taken.next (set n)

-- `switch (positional++)`
unfoldable pub take_positional : ℕ → List ℕ → Parse → Taken
unfolding take_number
take_positional zero a p =
    Taken.next (record p { options = record p.options { device = a }; positional = 1 })
take_positional (suc zero) a p =
    take_number (parse_int a 1 100000000)
      λ n. record p { options = record p.options { baudrate = n }; positional = 2 }
take_positional (suc (suc zero)) a p =
    take_number (parse_int a 1 65535)
      λ n. record p { options = record p.options { tcp_port = n }; positional = 3 }
take_positional (suc (suc (suc n))) a p = Taken.stop Parsed.refused

unfoldable pub is_option : List ℕ → Bool
is_option [] = false
is_option (c ∷ a) = c == 0x2D

unfoldable pub take_argument : List ℕ → Parse → Taken
unfolding take_positional is_option
take_argument a p =
    if same_bytes a (codes "-h") || same_bytes a (codes "--help")
    then Taken.stop Parsed.exits
    else if same_bytes a (codes "--version")
    then Taken.stop Parsed.exits
    else if same_bytes a (codes "--list")
    then Taken.next (record p { list = true })
    else if same_bytes a (codes "--bind")
    then Taken.value_wanted
    else if is_option a
    then Taken.stop Parsed.refused
    else take_positional p.positional a p

-- The arguments from `argv[i]` on.
unfoldable mutual
  pub parse_loop : Parse → List (List ℕ) → Parse ⊎ Parsed
  parse_loop p [] = inl p
  parse_loop p (a ∷ args) = elim (take_argument a p) [
    | next q ↦ parse_loop q args
    | value_wanted ↦ parse_bind p args
    | stop result ↦ inr result
  ]

  -- `--bind` takes the next argument, if there is one.
  pub parse_bind : Parse → List (List ℕ) → Parse ⊎ Parsed
  parse_bind p [] = inr Parsed.refused
  parse_bind p (v ∷ args) = parse_loop (record p { options = record p.options { bind = v } }) args

unfoldable pub complete : Parse → Parsed
complete p = if p.list || p.positional == 3 then Parsed.run p.options p.list else Parsed.refused

unfoldable pub finished : Parse ⊎ Parsed → Parsed
unfolding complete
finished (inl p) = complete p
finished (inr result) = result

unfoldable pub parse_options : List (List ℕ) → Parsed
unfolding parse_loop parse_bind finished
parse_options args = finished (parse_loop nothing_parsed args)
