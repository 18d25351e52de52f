-- ===== src/UartBridge/Pumps/Ending.antt =====
-- Once one of the two threads clears the flag, both end after a bounded number of steps.
use ipdbg.Prelude.{
  ℕ, suc, ◌+◌, ◌≤◌, ◌<◌, ◌≡◌, ◌≢◌, refl, ap, sym, subst, false, [], ◌∷◌, ◌++◌, inl, inr, arith,
  length, length-append, Bool-cases,
}
use ipdbg.UartBridge.Pumps.{
  buffer_size, Down, Up, Pumps, DownStep, UpStep, Step, down_step, up_step, Reach, here, next,
}

-- The steps that a thread can still take while the flag is false.
abbrev pub down_left : Down → ℕ
down_left Down.recv = 6
down_left (Down.write bytes) = 5
down_left (Down.write_failed bytes) = 4
down_left Down.test = 3
down_left Down.clear = 2
down_left Down.shut = 1
down_left Down.done = 0

abbrev pub up_left : Up → ℕ
up_left Up.wait = 4103
up_left Up.read = 4102
up_left (Up.send bytes) = 5 + length bytes
up_left Up.failed = 5
up_left Up.test = 4
up_left Up.free = 3
up_left Up.clear = 2
up_left Up.shut = 1
up_left Up.done = 0
up_left Up.set_up = 5
up_left Up.set_up_failed = 4
up_left Up.set_up_clear = 3
up_left Up.set_up_shut = 2
up_left Up.set_up_free = 1

abbrev pub steps_left : Pumps → ℕ
steps_left p = down_left p.down + up_left p.up

-- No step sets the flag again, and each uses one up.
DownStep-left :
    {p q : Pumps}
    → DownStep p q
    → p.running ≡ false
    → (q.running ≡ false) × (steps_left q < steps_left p)
DownStep-left {p} (DownStep.goes_on at runs) halted = cc
DownStep-left {p} (DownStep.stops at halts) halted = (halted, omega (arith, ap down_left at))
DownStep-left {p} (DownStep.received b bytes fits at) halted =
    (halted, omega (arith, ap down_left at))
DownStep-left {p} (DownStep.ended at) halted = (halted, omega (arith, ap down_left at))
DownStep-left {p} (DownStep.written bytes at) halted = (halted, omega (arith, ap down_left at))
DownStep-left {p} (DownStep.not_written sent rest at) halted =
    (halted, omega (arith, ap down_left at))
DownStep-left {p} (DownStep.fails rest at) halted = (halted, omega (arith, ap down_left at))
DownStep-left {p} (DownStep.clears at) halted = (refl, omega (arith, ap down_left at))
DownStep-left {p} (DownStep.shuts at) halted = (halted, omega (arith, ap down_left at))

UpStep-left :
    {p q : Pumps}
    → UpStep p q
    → p.running ≡ false
    → (q.running ≡ false) × (steps_left q < steps_left p)
UpStep-left (UpStep.has_events at) halted = (halted, omega (arith, ap up_left at))
UpStep-left (UpStep.no_events made at) halted = (halted, omega (arith, ap up_left at))
UpStep-left (UpStep.set_up_fails at) halted = (halted, omega (arith, ap up_left at))
UpStep-left (UpStep.set_up_clears at) halted = (refl, omega (arith, ap up_left at))
UpStep-left (UpStep.set_up_shuts at) halted = (halted, omega (arith, ap up_left at))
UpStep-left (UpStep.set_up_frees at) halted = (halted, omega (arith, ap up_left at))
UpStep-left (UpStep.goes_on at runs) halted = cc
UpStep-left (UpStep.stops at halts) halted = (halted, omega (arith, ap up_left at))
UpStep-left (UpStep.waited at) halted = (halted, omega (arith, ap up_left at))
UpStep-left (UpStep.wait_fails at) halted = (halted, omega (arith, ap up_left at))
UpStep-left (UpStep.read_fails at) halted = (halted, omega (arith, ap up_left at))
UpStep-left (UpStep.nothing at) halted = (halted, omega (arith, ap up_left at))
UpStep-left (UpStep.nothing_early at few) halted = (halted, omega (arith, ap up_left at))
UpStep-left (UpStep.closed_by_system at many) halted = (halted, omega (arith, ap up_left at))
UpStep-left (UpStep.has_read b bytes fits at) halted = (halted, omega (arith, ap up_left at))
UpStep-left (UpStep.sends b sent rest at) halted =
    (halted, omega (arith, ap up_left at, length-append sent rest))
UpStep-left (UpStep.all_sent at) halted = (halted, omega (arith, ap up_left at))
UpStep-left (UpStep.send_fails b rest at) halted = (halted, omega (arith, ap up_left at))
UpStep-left (UpStep.fails at) halted = (halted, omega (arith, ap up_left at))
UpStep-left (UpStep.frees at) halted = (halted, omega (arith, ap up_left at))
UpStep-left (UpStep.clears at) halted = (refl, omega (arith, ap up_left at))
UpStep-left (UpStep.shuts at) halted = (halted, omega (arith, ap up_left at))

Step-left :
    {p q : Pumps}
    → Step p q
    → p.running ≡ false
    → (q.running ≡ false) × (steps_left q < steps_left p)
Step-left (down_step d) halted = DownStep-left d halted
Step-left (up_step u) halted = UpStep-left u halted

-- What is left to send fits the buffer.
abbrev FitsBuffer : Up → Type 0
FitsBuffer (Up.send bytes) = length bytes ≤ buffer_size
FitsBuffer _ = Unit {0}

UpStep-FitsBuffer : {p q : Pumps} → UpStep p q → FitsBuffer p.up → FitsBuffer q.up
UpStep-FitsBuffer (UpStep.has_events at) h = tt
UpStep-FitsBuffer (UpStep.no_events made at) h = tt
UpStep-FitsBuffer (UpStep.set_up_fails at) h = tt
UpStep-FitsBuffer (UpStep.set_up_clears at) h = tt
UpStep-FitsBuffer (UpStep.set_up_shuts at) h = tt
UpStep-FitsBuffer (UpStep.set_up_frees at) h = tt
UpStep-FitsBuffer (UpStep.goes_on at runs) h = tt
UpStep-FitsBuffer (UpStep.stops at halts) h = tt
UpStep-FitsBuffer (UpStep.waited at) h = tt
UpStep-FitsBuffer (UpStep.wait_fails at) h = tt
UpStep-FitsBuffer (UpStep.read_fails at) h = tt
UpStep-FitsBuffer (UpStep.nothing at) h = tt
UpStep-FitsBuffer (UpStep.nothing_early at few) h = tt
UpStep-FitsBuffer (UpStep.closed_by_system at many) h = tt
UpStep-FitsBuffer (UpStep.has_read b bytes fits at) h = fits
UpStep-FitsBuffer (UpStep.sends b sent rest at) h =
    let all : length ((b ∷ sent) ++ rest) ≤ buffer_size = subst FitsBuffer at h in
    omega (arith, all, length-append sent rest)
UpStep-FitsBuffer (UpStep.all_sent at) h = tt
UpStep-FitsBuffer (UpStep.send_fails b rest at) h = tt
UpStep-FitsBuffer (UpStep.fails at) h = tt
UpStep-FitsBuffer (UpStep.frees at) h = tt
UpStep-FitsBuffer (UpStep.clears at) h = tt
UpStep-FitsBuffer (UpStep.shuts at) h = tt

DownStep-up : {p q : Pumps} → DownStep p q → q.up ≡ p.up
DownStep-up (DownStep.goes_on at runs) = refl
DownStep-up (DownStep.stops at halts) = refl
DownStep-up (DownStep.received b bytes fits at) = refl
DownStep-up (DownStep.ended at) = refl
DownStep-up (DownStep.written bytes at) = refl
DownStep-up (DownStep.not_written sent rest at) = refl
DownStep-up (DownStep.fails rest at) = refl
DownStep-up (DownStep.clears at) = refl
DownStep-up (DownStep.shuts at) = refl

Reach-FitsBuffer : {p : Pumps} → Reach p → FitsBuffer p.up
Reach-FitsBuffer here = tt
Reach-FitsBuffer (next r (down_step d)) =
    subst FitsBuffer (sym (DownStep-up d)) (Reach-FitsBuffer r)
Reach-FitsBuffer (next r (up_step u)) = UpStep-FitsBuffer u (Reach-FitsBuffer r)

abbrev pub most_steps : ℕ
most_steps = 4109

steps_left-le : (d : Down) (u : Up) → FitsBuffer u → down_left d + up_left u ≤ most_steps
steps_left-le d u fits = omega (arith, down_left-le d, up_left-le u fits)
  where
    down_left-le : (d : Down) → down_left d ≤ 6
    down_left-le Down.recv = omega arith
    down_left-le (Down.write bytes) = omega arith
    down_left-le (Down.write_failed bytes) = omega arith
    down_left-le Down.test = omega arith
    down_left-le Down.clear = omega arith
    down_left-le Down.shut = omega arith
    down_left-le Down.done = omega arith

    up_left-le : (u : Up) → FitsBuffer u → up_left u ≤ 4103
    up_left-le (Up.send bytes) h = omega arith
    up_left-le Up.wait h = omega arith
    up_left-le Up.read h = omega arith
    up_left-le Up.failed h = omega arith
    up_left-le Up.test h = omega arith
    up_left-le Up.free h = omega arith
    up_left-le Up.clear h = omega arith
    up_left-le Up.shut h = omega arith
    up_left-le Up.done h = omega arith
    up_left-le Up.set_up h = omega arith
    up_left-le Up.set_up_failed h = omega arith
    up_left-le Up.set_up_clear h = omega arith
    up_left-le Up.set_up_shut h = omega arith
    up_left-le Up.set_up_free h = omega arith

-- `n` steps.
pub data Steps (p : Pumps) : ℕ → Pumps → Type 0 where
  none_yet : Steps p 0 p
  one_more : {n : ℕ} {q r : Pumps} → Steps p n q → Step q r → Steps p (suc n) r

Steps-left :
    {p q : Pumps} {n : ℕ}
    → Steps p n q
    → p.running ≡ false
    → (q.running ≡ false) × (n + steps_left q ≤ steps_left p)
Steps-left none_yet halted = (halted, omega arith)
Steps-left (one_more s t) halted =
    let (halted', used) = Steps-left s halted in
    let (halted'', more) = Step-left t halted' in (halted'', omega (arith, used, more))

-- A thread that has not ended can go on, whatever its calls answer.
down_goes_on : (p : Pumps) (d : Down) → p.down ≡ d → d ≢ Down.done → (q : Pumps) × DownStep p q
down_goes_on p Down.test at n = elim (Bool-cases p.running) [
  | inl runs ↦ (_, DownStep.goes_on at runs)
  | inr halts ↦ (_, DownStep.stops at halts)
]
down_goes_on p Down.recv at n = (_, DownStep.ended at)
down_goes_on p (Down.write bytes) at n = (_, DownStep.written bytes at)
down_goes_on p (Down.write_failed rest) at n = (_, DownStep.fails rest at)
down_goes_on p Down.clear at n = (_, DownStep.clears at)
down_goes_on p Down.shut at n = (_, DownStep.shuts at)
down_goes_on p Down.done at n = absurd (n refl)

up_goes_on : (p : Pumps) (u : Up) → p.up ≡ u → u ≢ Up.done → (q : Pumps) × UpStep p q
up_goes_on p Up.set_up at n = (_, UpStep.has_events at)
up_goes_on p Up.set_up_failed at n = (_, UpStep.set_up_fails at)
up_goes_on p Up.set_up_clear at n = (_, UpStep.set_up_clears at)
up_goes_on p Up.set_up_shut at n = (_, UpStep.set_up_shuts at)
up_goes_on p Up.set_up_free at n = (_, UpStep.set_up_frees at)
up_goes_on p Up.test at n = elim (Bool-cases p.running) [
  | inl runs ↦ (_, UpStep.goes_on at runs)
  | inr halts ↦ (_, UpStep.stops at halts)
]
up_goes_on p Up.wait at n = (_, UpStep.waited at)
up_goes_on p Up.read at n = (_, UpStep.nothing at)
up_goes_on p Up.failed at n = (_, UpStep.fails at)
up_goes_on p (Up.send []) at n = (_, UpStep.all_sent at)
up_goes_on p (Up.send (b ∷ rest)) at n = (_, UpStep.send_fails b rest at)
up_goes_on p Up.free at n = (_, UpStep.frees at)
up_goes_on p Up.clear at n = (_, UpStep.clears at)
up_goes_on p Up.shut at n = (_, UpStep.shuts at)
up_goes_on p Up.done at n = absurd (n refl)

-- Once `running` is cleared, the two threads of a session take at most 4109 further steps
-- together, in any interleaving, and a thread that has not ended can always take a step: a
-- blocking call may end, and after the end of each call the next statement follows. So both
-- threads end if their calls return.
pub Steps-end :
    {p q : Pumps} {n : ℕ}
    → Reach p
    → p.running ≡ false
    → Steps p n q
    → (n ≤ most_steps)
      × (q.down ≢ Down.done → (r : Pumps) × DownStep q r)
      × (q.up ≢ Up.done → (r : Pumps) × UpStep q r)
Steps-end {p} {q} r halted s = (
  omega (arith, (Steps-left s halted).1, steps_left-le p.down p.up (Reach-FitsBuffer r)),
  λ n. down_goes_on q q.down refl n,
  λ n. up_goes_on q q.up refl n,
)
