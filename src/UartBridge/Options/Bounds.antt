-- ===== src/UartBridge/Options/Bounds.antt =====
-- Options that parseOptions accepts are in their ranges; decimal numbers are read as what they are.
use ipdbg.Prelude.{
  ℕ, zero, suc, ◌≤◌, ◌≡◌, refl, Bool, true, false, ◌||◌, Option, none, some, List, [], ◌∷◌, ◌==◌,
  if◌then◌else◌, arith, ◌⊎◌, inl, inr, Bool-cases, ==_iff, subst, same_bytes,
}
use ipdbg.Prelude.Int.{ℤ, pos, negsuc}
use ipdbg.Prelude.Text.{codes}
use ipdbg.UartBridge.Options.{
  is_option, strtol, to_int, within, parse_int, Options, Parse, nothing_parsed, Parsed, run, Taken,
  next, value_wanted, stop, take_number, take_positional, take_argument, parse_loop, parse_bind,
  complete, parse_options, checked, finished,
}

-- Whatever the text is.
within-bounds :
    (least most : ℕ) (found : ℤ × List ℕ) (n : ℕ)
    → within least most found ≡ some n
    → (least ≤ n) × (n ≤ most)
unfolding within to_int
within-bounds least most (pos v, []) n h = ground arith
within-bounds least most (negsuc v, []) n h = ground arith
within-bounds least most (v, c ∷ rest) n h = cc

checked-bounds :
    (least most : ℕ) (found : Option (ℤ × List ℕ)) (n : ℕ)
    → checked least most found ≡ some n
    → (least ≤ n) × (n ≤ most)
unfolding checked
checked-bounds least most none n h = cc
checked-bounds least most (some found) n h = within-bounds least most found n h

parse_int-bounds :
    (s : List ℕ) (least most n : ℕ) → parse_int s least most ≡ some n → (least ≤ n) × (n ≤ most)
unfolding parse_int
parse_int-bounds s least most n h = checked-bounds least most (strtol s) n h

-- What has been taken so far is in its range.
pub record InBounds (p : Parse) : Type 0 where
  pub baudrate : 2 ≤ p.positional → (1 ≤ p.options.baudrate) × (p.options.baudrate ≤ 100000000)
  pub tcp_port : 3 ≤ p.positional → (1 ≤ p.options.tcp_port) × (p.options.tcp_port ≤ 65535)

abbrev TakenOk : Taken → Type 0
TakenOk (next q) = InBounds q
TakenOk value_wanted = Unit {0}
TakenOk (stop (run o l)) = ⊥
TakenOk (stop _) = Unit {0}

abbrev LoopOk : Parse ⊎ Parsed → Type 0
LoopOk (inl p) = InBounds p
LoopOk (inr (run o l)) = ⊥
LoopOk (inr _) = Unit {0}

take_number-TakenOk :
    (found : Option ℕ) (set : ℕ → Parse)
    → ((n : ℕ) → found ≡ some n → InBounds (set n))
    → TakenOk (take_number found set)
unfolding take_number
take_number-TakenOk none set h = tt
take_number-TakenOk (some n) set h = h n refl

take_positional-TakenOk :
    (k : ℕ) (a : List ℕ) (p : Parse)
    → p.positional ≡ k
    → InBounds p
    → TakenOk (take_positional k a p)
unfolding take_positional
take_positional-TakenOk zero a p at i = record {
  baudrate = λ h. absurd (omega arith);
  tcp_port = λ h. absurd (omega arith);
}
take_positional-TakenOk (suc zero) a p at i = take_number-TakenOk _ _ λ n found. record {
  baudrate = λ h. parse_int-bounds a 1 100000000 n found;
  tcp_port = λ h. absurd (omega arith);
}
take_positional-TakenOk (suc (suc zero)) a p at i = take_number-TakenOk _ _ λ n found. record {
  baudrate = λ h. i.baudrate (omega arith);
  tcp_port = λ h. parse_int-bounds a 1 65535 n found;
}
take_positional-TakenOk (suc (suc (suc k))) a p at i = tt

take_argument-TakenOk : (a : List ℕ) (p : Parse) → InBounds p → TakenOk (take_argument a p)
unfolding take_argument
take_argument-TakenOk a p i =
    branch (same_bytes a (codes "-h") || same_bytes a (codes "--help")) _ _ tt (
      branch (same_bytes a (codes "--version")) _ _ tt (
        branch (same_bytes a (codes "--list")) _ _
          (record { baudrate = i.baudrate; tcp_port = i.tcp_port })
          (branch (same_bytes a (codes "--bind")) _ _ tt
            (branch (is_option a) _ _ tt (take_positional-TakenOk p.positional a p refl i)))))
  where
    branch : (b : Bool) (x y : Taken) → TakenOk x → TakenOk y → TakenOk (if b then x else y)
    branch true x y h k = h
    branch false x y h k = k

after :
    (t : Taken)
    → TakenOk t
    → (k : Parse → Parse ⊎ Parsed) (l : Parse ⊎ Parsed) → ((q : Parse) → InBounds q → LoopOk (k q))
    → LoopOk l
    → LoopOk (elim t [ next q ↦ k q | value_wanted ↦ l | stop result ↦ inr result ])
after (next q) i k l h g = h q i
after value_wanted i k l h g = g
after (stop (run o b)) i k l h g = i
after (stop Parsed.refused) i k l h g = tt
after (stop Parsed.exits) i k l h g = tt

mutual
  unfolding parse_loop parse_bind

  parse_loop-LoopOk : (p : Parse) (args : List (List ℕ)) → InBounds p → LoopOk (parse_loop p args)
  parse_loop-LoopOk p [] i = i
  parse_loop-LoopOk p (a ∷ args) i =
      after (take_argument a p) (take_argument-TakenOk a p i) (λ q. parse_loop q args)
        (parse_bind p args) (λ q j. parse_loop-LoopOk q args j) (parse_bind-LoopOk p args i)

  parse_bind-LoopOk : (p : Parse) (args : List (List ℕ)) → InBounds p → LoopOk (parse_bind p args)
  parse_bind-LoopOk p [] i = tt
  parse_bind-LoopOk p (v ∷ args) i =
      parse_loop-LoopOk _ args (record { baudrate = i.baudrate; tcp_port = i.tcp_port })

abbrev pub InRanges : Options → Type 0
InRanges o = (1 ≤ o.baudrate) × (o.baudrate ≤ 100000000) × (1 ≤ o.tcp_port) × (o.tcp_port ≤ 65535)

InRanges-complete : (p : Parse) → p.positional ≡ 3 → InBounds p → InRanges p.options
InRanges-complete p at i =
    let (least, most) = i.baudrate (omega arith) in
    let (least', most') = i.tcp_port (omega arith) in (least, most, least', most')

finished-InRanges :
    (result : Parse ⊎ Parsed) (o : Options)
    → LoopOk result
    → finished result ≡ run o false
    → InRanges o
unfolding finished complete
finished-InRanges (inl p) o i h = elim (Bool-cases p.list) [
  | inl listing ↦ cc (rw listing at h)
  | inr running ↦ elim (Bool-cases (p.positional == 3)) [
    | inl three ↦
        let same : p.options ≡ o = ground (arith, h, running, three) in
        subst InRanges same (InRanges-complete p ((==_iff p.positional 3).0 three) i)
    | inr other ↦ ground (arith, h, running, other)
  ]
]
finished-InRanges (inr (run p l)) o i h = absurd i
finished-InRanges (inr Parsed.refused) o i h = cc
finished-InRanges (inr Parsed.exits) o i h = cc

-- Whatever the arguments, if `parseOptions` has the program run then the baud rate is within 1 to
-- 100000000 and the port within 1 to 65535.
pub parse_options-InRanges :
    (args : List (List ℕ)) (o : Options) → parse_options args ≡ run o false → InRanges o
unfolding parse_options
parse_options-InRanges args o h =
    finished-InRanges (parse_loop nothing_parsed args) o
      (parse_loop-LoopOk nothing_parsed args
        (record { baudrate = λ k. absurd (omega arith); tcp_port = λ k. absurd (omega arith) }))
      h
