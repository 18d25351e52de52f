-- ===== src/UartBridge/Options/Accepted.antt =====
-- Decimal numbers are read as what they are, and three plain arguments are accepted exactly if the
-- two numbers are in their ranges.
use ipdbg.Prelude.{
  ℕ, ◌+◌, ◌-◌, ◌*◌, ◌^◌, ◌≤◌, ◌<◌, ◌≡◌, refl, ap, ◌∙◌, Bool, true, false, ◌&&◌, ◌||◌, none, some,
  List, [], ◌∷◌, ltb, leb, ◌==◌, if◌then◌else◌, arith, ◌⊎◌, inl, inr, Bool-cases,
}
use ipdbg.UartBridge.Options.{
  is_space, is_digit, is_option, digits_of, begins_with_digit, skip_space, saturated, signed_digits,
  after_sign, strtol, to_int, within, checked, parse_int, no_options, Parse, nothing_parsed, Parsed,
  run, Taken, take_number, take_positional, take_argument, parse_loop, parse_bind, complete,
  finished, parse_options,
}

-- Decimal digits, the most significant first, as text and as a number.
abbrev pub AreDigits : List ℕ → Type 0
AreDigits [] = Unit {0}
AreDigits (d ∷ ds) = (d ≤ 9) × AreDigits ds

unfoldable pub text_of : List ℕ → List ℕ
text_of [] = []
text_of (d ∷ ds) = (0x30 + d) ∷ text_of ds

unfoldable pub number_from : ℕ → List ℕ → ℕ
number_from n [] = n
number_from n (d ∷ ds) = number_from (n * 10 + d) ds

digits_of-text_of :
    (n : ℕ) (ds : List ℕ) → AreDigits ds → digits_of n (text_of ds) ≡ (number_from n ds, [])
unfolding digits_of text_of number_from is_digit
digits_of-text_of n [] h = refl
digits_of-text_of n (d ∷ ds) (small, others) =
    rw (digit, value) (digits_of-text_of (n * 10 + d) ds others)
  where
    digit : (leb 0x30 (0x30 + d) && leb (0x30 + d) 0x39) ≡ true
    digit = ground arith

    value : 0x30 + d - 0x30 ≡ d
    value = omega arith

-- A digit is no blank and no sign.
strtol-plain :
    (c : ℕ) (s : List ℕ)
    → 0x30 ≤ c
    → c ≤ 0x39
    → strtol (c ∷ s) ≡ some (saturated false (digits_of 0 (c ∷ s)).0, (digits_of 0 (c ∷ s)).1)
unfolding strtol skip_space after_sign signed_digits begins_with_digit is_space is_digit
strtol-plain c s least most = rw (blank, minus, plus, digit) refl
  where
    blank : (c == 0x20 || leb 0x09 c && leb c 0x0D) ≡ false
    blank = ground arith

    minus : (c == 0x2D) ≡ false
    minus = ground arith

    plus : (c == 0x2B) ≡ false
    plus = ground arith

    digit : (leb 0x30 c && leb c 0x39) ≡ true
    digit = ground arith

pub strtol-text_of :
    (d : ℕ) (ds : List ℕ)
    → AreDigits (d ∷ ds)
    → strtol (text_of (d ∷ ds)) ≡ some (saturated false (number_from 0 (d ∷ ds)), [])
unfolding text_of
strtol-text_of d ds h =
    strtol-plain (0x30 + d) (text_of ds) (omega arith) (omega (arith, h.0))
    ∙ ap (λ (found : ℕ × List ℕ). some (saturated false found.0, found.1))
        (digits_of-text_of 0 (d ∷ ds) h)

within-saturated :
    (least most n : ℕ)
    → most < 2 ^ 63 - 1
    → within least most (saturated false n, [])
      ≡ (if leb least n && leb n most then some n else none)
unfolding within saturated to_int
within-saturated least most n small = elim (Bool-cases (ltb n (2 ^ 63))) [
  | inl fits ↦ rw fits (ground arith)
  | inr big ↦ rw big (ground (arith, big))
]

-- A number is taken exactly if it is within the bounds, which are far below LONG_MAX.
pub parse_int-text_of :
    (d : ℕ) (ds : List ℕ) (least most : ℕ)
    → AreDigits (d ∷ ds)
    → most < 2 ^ 63 - 1
    → parse_int (text_of (d ∷ ds)) least most ≡ (
        if leb least (number_from 0 (d ∷ ds)) && leb (number_from 0 (d ∷ ds)) most
        then some (number_from 0 (d ∷ ds))
        else none)
unfolding parse_int checked
parse_int-text_of d ds least most h small =
    rw (strtol-text_of d ds h) (bounded (number_from 0 (d ∷ ds)))
  where
    bounded :
        (n : ℕ)
        → within least most (saturated false n, [])
          ≡ (if leb least n && leb n most then some n else none)
    bounded n = within-saturated least most n small

-- An argument without a dash is the next of the three.
take_argument-plain :
    (a : List ℕ) (p : Parse)
    → is_option a ≡ false
    → take_argument a p ≡ take_positional p.positional a p
unfolding take_argument is_option
take_argument-plain [] p h = refl
take_argument-plain (c ∷ a) p h = rw h refl

is_option-text_of :
    (d : ℕ) (ds : List ℕ) → AreDigits (d ∷ ds) → is_option (text_of (d ∷ ds)) ≡ false
unfolding is_option text_of
is_option-text_of d ds (small, others) = ground arith

abbrev pub is_within : ℕ → ℕ → ℕ → Bool
is_within least most n = leb least n && leb n most

-- One round of the loop.
after : Taken → Parse → List (List ℕ) → Parse ⊎ Parsed
after (Taken.next q) p args = parse_loop q args
after Taken.value_wanted p args = parse_bind p args
after (Taken.stop result) p args = inr result

parse_loop-after :
    (p : Parse) (a : List ℕ) (args : List (List ℕ)) (t : Taken)
    → take_argument a p ≡ t
    → parse_loop p (a ∷ args) ≡ after t p args
unfolding parse_loop after
parse_loop-after p a args (Taken.next q) e = rw (e, parse_loop) refl
parse_loop-after p a args Taken.value_wanted e = rw (e, parse_loop) refl
parse_loop-after p a args (Taken.stop result) e = rw (e, parse_loop) refl

-- After one, two and three arguments.
abbrev one : List ℕ → Parse
one device = record nothing_parsed {
  options = record no_options { device = device };
  positional = 1;
}

abbrev two : List ℕ → ℕ → Parse
two device n = record (one device) {
  options = record no_options { device = device; baudrate = n };
  positional = 2;
}

abbrev three : List ℕ → ℕ → ℕ → Parse
three device n m = record (two device n) {
  options = record no_options { device = device; baudrate = n; tcp_port = m };
  positional = 3;
}

device-taken : (device : List ℕ) → take_positional 0 device nothing_parsed ≡ Taken.next (one device)
unfolding take_positional
device-taken device = refl

parse_loop-end : (q : Parse) → parse_loop q [] ≡ inl q
unfolding parse_loop
parse_loop-end q = refl

baudrate-taken :
    (device : List ℕ) (d : ℕ) (ds : List ℕ)
    → AreDigits (d ∷ ds)
    → take_argument (text_of (d ∷ ds)) (one device) ≡ (
        if is_within 1 100000000 (number_from 0 (d ∷ ds))
        then Taken.next (two device (number_from 0 (d ∷ ds)))
        else Taken.stop Parsed.refused)
unfolding take_positional take_number
baudrate-taken device d ds h =
    take_argument-plain (text_of (d ∷ ds)) (one device) (is_option-text_of d ds h)
    ∙ rw (parse_int-text_of d ds 1 100000000 h (omega arith))
        (elim (Bool-cases (is_within 1 100000000 (number_from 0 (d ∷ ds)))) [
          | inl fits ↦ rw fits refl
          | inr out ↦ rw out refl
        ])

tcp_port-taken :
    (device : List ℕ) (n d : ℕ) (ds : List ℕ)
    → AreDigits (d ∷ ds)
    → take_argument (text_of (d ∷ ds)) (two device n) ≡ (
        if is_within 1 65535 (number_from 0 (d ∷ ds))
        then Taken.next (three device n (number_from 0 (d ∷ ds)))
        else Taken.stop Parsed.refused)
unfolding take_positional take_number
tcp_port-taken device n d ds h =
    take_argument-plain (text_of (d ∷ ds)) (two device n) (is_option-text_of d ds h)
    ∙ rw (parse_int-text_of d ds 1 65535 h (omega arith))
        (elim (Bool-cases (is_within 1 65535 (number_from 0 (d ∷ ds)))) [
          | inl fits ↦ rw fits refl
          | inr out ↦ rw out refl
        ])

-- For a device that is no option, and two texts of decimal digits, of any length, `parseOptions`
-- accepts the three arguments exactly if the numbers are within 1 to 100000000 and 1 to 65535,
-- and then with the device, the numbers that the digits stand for and the default address.
pub parse_options-decimal :
    (device : List ℕ) (b : ℕ) (bs : List ℕ) (p : ℕ) (ps : List ℕ)
    → is_option device ≡ false
    → AreDigits (b ∷ bs)
    → AreDigits (p ∷ ps)
    → parse_options (device ∷ text_of (b ∷ bs) ∷ text_of (p ∷ ps) ∷ []) ≡ (
        if is_within 1 100000000 (number_from 0 (b ∷ bs))
          && is_within 1 65535 (number_from 0 (p ∷ ps))
        then run
            (record no_options {
              device = device;
              baudrate = number_from 0 (b ∷ bs);
              tcp_port = number_from 0 (p ∷ ps);
            })
            false
        else Parsed.refused)
unfolding parse_options finished complete after
parse_options-decimal device b bs p ps plain hb hp =
    ap finished (
      first
      ∙ parse_loop-after (one device) (text_of (b ∷ bs)) (text_of (p ∷ ps) ∷ []) _
          (baudrate-taken device b bs hb))
    ∙ elim (Bool-cases (is_within 1 100000000 n)) [
      | inr out ↦ rw out refl
      | inl fits ↦ rw fits (
          ap finished (
            parse_loop-after (two device n) (text_of (p ∷ ps)) [] _
              (tcp_port-taken device n p ps hp))
          ∙ elim (Bool-cases (is_within 1 65535 m)) [
            | inr out ↦ rw out refl
            | inl holds ↦ rw holds (finish (three device n m))
          ])
    ]
  where
    n : ℕ
    n = number_from 0 (b ∷ bs)

    m : ℕ
    m = number_from 0 (p ∷ ps)

    first :
        parse_loop nothing_parsed (device ∷ text_of (b ∷ bs) ∷ text_of (p ∷ ps) ∷ [])
        ≡ parse_loop (one device) (text_of (b ∷ bs) ∷ text_of (p ∷ ps) ∷ [])
    first =
        parse_loop-after nothing_parsed device (text_of (b ∷ bs) ∷ text_of (p ∷ ps) ∷ [])
          (Taken.next (one device))
          (take_argument-plain device nothing_parsed plain ∙ device-taken device)

    finish : (q : Parse) → finished (parse_loop q []) ≡ finished (inl q)
    finish q = ap finished (parse_loop-end q)
