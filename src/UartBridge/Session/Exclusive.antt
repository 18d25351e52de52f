-- ===== src/UartBridge/Session/Exclusive.antt =====
-- One session at a time, no descriptor is lost, and no thread object is overwritten.
use ipdbg.Prelude.{
  ℕ, ◌+◌, ◌≡◌, refl, ap, sym, subst, Bool, true, false, arith, inl, inr, Bool-cases,
}
use ipdbg.UartBridge.Pumps
use ipdbg.UartBridge.Pumps.{Down, Up, Pumps}
use ipdbg.UartBridge.Pumps.Forwarding.{Forwarded, Reach-Forwarded}
use ipdbg.UartBridge.Session.{
  Session, Main, Bridge, assign, after_test, MainStep, SessionStep, main_step, session_step, Reach,
  here, next,
}

-- The session has not yet cleared the flag.
abbrev pub is_busy : Session → Bool
is_busy Session.not_joinable = false
is_busy Session.returned = false
is_busy _ = true

-- The descriptors that are open, of the session and of `main`.
abbrev pub session_fds : Session → ℕ
session_fds (Session.pumping fd p) = 1
session_fds (Session.closing fd failed) = 1
session_fds _ = 0

abbrev pub main_fds : Main → ℕ
main_fds Main.accepting = 0
main_fds _ = 1

-- What `main` knows of the session.
abbrev pub Known : Main → Session → Bool → Type 0
Known (Main.joining fd) s active = is_busy s ≡ false
Known (Main.activating fd) s active = s ≡ Session.not_joinable
Known (Main.starting fd) s active = (s ≡ Session.not_joinable) × (active ≡ true)
Known _ s active = Unit {0}

-- The pumps of a session have been started once.
abbrev pub Started : Session → Type 0
Started (Session.pumping fd p) = Pumps.Reach p
Started _ = Unit {0}

pub record Inv (b : Bridge) : Type 0 where
  pub busy : is_busy b.session ≡ true → b.session_active ≡ true
  pub known : Known b.main b.session b.session_active
  pub counted : b.opened ≡ b.closed + session_fds b.session + main_fds b.main
  pub started : Started b.session
  pub sound : b.terminated ≡ false

Known-at : {b : Bridge} {m : Main} → b.main ≡ m → Inv b → Known m b.session b.session_active
Known-at {b} e i = subst (λ m. Known m b.session b.session_active) e i.known

-- While the session is busy, `main` is not about to join it or to start another.
Known-busy :
    (m : Main) (s s' : Session) (active active' : Bool)
    → is_busy s ≡ true
    → Known m s active
    → Known m s' active'
Known-busy Main.accepting s s' a a' busy h = tt
Known-busy (Main.accepted fd) s s' a a' busy h = tt
Known-busy (Main.rejecting fd) s s' a a' busy h = tt
Known-busy (Main.joining fd) s s' a a' busy h = cc
Known-busy (Main.activating fd) s s' a a' busy h = cc (busy, ap is_busy h)
Known-busy (Main.starting fd) s s' a a' busy h = cc (busy, ap is_busy h.0)

assign-eq :
    (s : Session) (fd : ℕ) (b : Bridge)
    → s ≡ Session.not_joinable
    → assign s fd b ≡ record b { main = Main.accepting; session = Session.pumping fd Pumps.start }
unfolding assign
assign-eq s fd b none = rw none refl

MainStep-Inv : {b c : Bridge} → MainStep b c → Inv b → Inv c
MainStep-Inv (MainStep.accept_fails at) i = i
MainStep-Inv {b} (MainStep.accepts fd at) i = record {
  busy = i.busy;
  known = tt;
  counted = omega (arith, i.counted, ap main_fds at);
  started = i.started;
  sound = i.sound;
}
MainStep-Inv {b} (MainStep.finds_active fd at active) i = record {
  busy = i.busy;
  known = tt;
  counted = omega (arith, i.counted, ap main_fds at);
  started = i.started;
  sound = i.sound;
}
MainStep-Inv {b} (MainStep.finds_free fd at free) i = record {
  busy = i.busy;
  known = elim (Bool-cases (is_busy b.session)) [
    | inl busy ↦ cc (i.busy busy, free)
    | inr idle ↦ idle
  ];
  counted = omega (arith, i.counted, ap main_fds at);
  started = i.started;
  sound = i.sound;
}
MainStep-Inv {b} (MainStep.rejects fd at) i = record {
  busy = i.busy;
  known = tt;
  counted = omega (arith, i.counted, ap main_fds at);
  started = i.started;
  sound = i.sound;
}
MainStep-Inv {b} (MainStep.skips_join fd at none) i = record {
  busy = i.busy;
  known = none;
  counted = omega (arith, i.counted, ap main_fds at);
  started = i.started;
  sound = i.sound;
}
MainStep-Inv {b} (MainStep.joins fd at done) i = record {
  busy = λ h. cc;
  known = refl;
  counted = omega (arith, i.counted, ap main_fds at, ap session_fds done);
  started = tt;
  sound = i.sound;
}
MainStep-Inv {b} (MainStep.activates fd at) i = record {
  busy = λ _. refl;
  known = (Known-at at i, refl);
  counted = omega (arith, i.counted, ap main_fds at);
  started = i.started;
  sound = i.sound;
}
MainStep-Inv {b} (MainStep.starts fd at) i =
    let (none, active) = Known-at at i in
    subst Inv (sym (assign-eq b.session fd b none)) (record {
      busy = λ _. active;
      known = tt;
      counted = omega (arith, i.counted, ap main_fds at, ap session_fds none);
      started = Pumps.here;
      sound = i.sound;
    })

SessionStep-Inv : {b c : Bridge} → SessionStep b c → Inv b → Inv c
unfolding after_test
SessionStep-Inv {b} (SessionStep.pumps fd p q at step) i = record {
  busy = λ _. i.busy (ap is_busy at);
  known = Known-busy b.main b.session _ _ _ (ap is_busy at) i.known;
  counted = omega (arith, i.counted, ap session_fds at);
  started = Pumps.next (subst Started at i.started) step;
  sound = i.sound;
}
SessionStep-Inv {b} (SessionStep.ends fd p at down up) i = record {
  busy = λ _. i.busy (ap is_busy at);
  known = Known-busy b.main b.session _ _ _ (ap is_busy at) i.known;
  counted = omega (arith, i.counted, ap session_fds at);
  started = tt;
  sound = i.sound;
}
SessionStep-Inv {b} (SessionStep.closes fd failed at) i = record {
  busy = λ _. i.busy (ap is_busy at);
  known = Known-busy b.main b.session _ _ _ (ap is_busy at) i.known;
  counted = omega (arith, i.counted, ap session_fds at);
  started = tt;
  sound = i.sound;
}
SessionStep-Inv {b} (SessionStep.tests failed at) i = tested failed
  where
    tested : (failed : Bool) → Inv (after_test failed b)
    tested true = record {
      busy = i.busy;
      known = i.known;
      counted = i.counted;
      started = i.started;
      sound = i.sound;
    }
    tested false = record {
      busy = λ _. i.busy (ap is_busy at);
      known = Known-busy b.main b.session _ _ _ (ap is_busy at) i.known;
      counted = omega (arith, i.counted, ap session_fds at);
      started = tt;
      sound = i.sound;
    }
SessionStep-Inv {b} (SessionStep.clears at) i = record {
  busy = λ h. cc;
  known = Known-busy b.main b.session _ _ _ (ap is_busy at) i.known;
  counted = omega (arith, i.counted, ap session_fds at);
  started = tt;
  sound = i.sound;
}

pub Reach-Inv : {b : Bridge} → Reach b → Inv b
Reach-Inv here = record {
  busy = λ h. cc;
  known = tt;
  counted = omega arith;
  started = tt;
  sound = refl;
}
Reach-Inv (next r (main_step _ _ m)) = MainStep-Inv m (Reach-Inv r)
Reach-Inv (next r (session_step _ _ s)) = SessionStep-Inv s (Reach-Inv r)

-- What a client can rely on, at any time.
pub record Exclusive (b : Bridge) : Type 0 where
  pub kept_alive : b.terminated ≡ false
  pub no_leak : b.opened ≡ b.closed + session_fds b.session + main_fds b.main
  pub free_is_idle : b.session_active ≡ false → is_busy b.session ≡ false
  pub joins_at_once : (fd : ℕ) → b.main ≡ Main.joining fd → is_busy b.session ≡ false
  pub starts_alone : (fd : ℕ) → b.main ≡ Main.starting fd → b.session ≡ Session.not_joinable
  pub forwards : (fd : ℕ) (p : Pumps) → b.session ≡ Session.pumping fd p → Forwarded p

-- After any interleaving of `main`, a session and its two threads: no thread object that is still
-- joinable is assigned to; every descriptor that was accepted is closed or still in use; if
-- `sessionActive` is false no session uses the serial port; a join in `main` waits for a session
-- that has released it; a session starts when there is no other; and in a session the bytes are
-- forwarded in order.
pub Reach-Exclusive : {b : Bridge} → Reach b → Exclusive b
Reach-Exclusive {b} r = record {
  kept_alive = i.sound;
  no_leak = i.counted;
  free_is_idle = λ free. elim (Bool-cases (is_busy b.session)) [
    | inl busy ↦ cc (i.busy busy, free)
    | inr idle ↦ idle
  ];
  joins_at_once = λ fd at. Known-at at i;
  starts_alone = λ fd at. (Known-at at i).0;
  forwards = λ fd p at. Reach-Forwarded (subst Started at i.started);
}
  where
    i : Inv b
    i = Reach-Inv r
