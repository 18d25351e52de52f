-- ===== src/UartBridge/Session.antt =====
-- sw/UartBridge/UartBridge.cpp: runSession, and the loop of `main` that accepts connections, one
-- step for each call and each access to `sessionActive`, in any order.
pub mod Exclusive
use ipdbg.Prelude.{ℕ, suc, ◌≡◌, Bool, true, false}
use ipdbg.UartBridge.Pumps
use ipdbg.UartBridge.Pumps.{Down, Up, Pumps}

-- `session`: no thread; one that runs, with the descriptor, and is in its pumps, before
-- `CLOSE_SOCKET`, before the test of `serialFailed`, before the flag is cleared; or one that has
-- returned and can be joined.
pub data Session : Type 0 where
  not_joinable : Session
  pumping : ℕ → Pumps → Session
  closing : ℕ → Bool → Session
  testing : Bool → Session
  clearing returned : Session

-- Where `main` is, with the descriptor of the new connection.
pub data Main : Type 0 where
  accepting : Main
  accepted rejecting joining activating starting : ℕ → Main

-- `opened` and `closed` count the descriptors that `accept` has given and that are closed;
-- `terminated` is `std::terminate`, which a joinable thread object calls when it is assigned to.
pub record Bridge : Type 0 where
  pub main : Main
  pub session : Session
  pub session_active : Bool
  pub opened : ℕ
  pub closed : ℕ
  pub exited : Bool
  pub terminated : Bool

abbrev pub start : Bridge
start = record {
  main = Main.accepting;
  session = Session.not_joinable;
  session_active = false;
  opened = 0;
  closed = 0;
  exited = false;
  terminated = false;
}

-- `session = std::thread(runSession, fd)`
unfoldable pub assign : Session → ℕ → Bridge → Bridge
assign Session.not_joinable fd b = record b {
  main = Main.accepting;
  session = Session.pumping fd Pumps.start;
}
assign _ fd b = record b { terminated = true }

-- `std::exit(1)` if the serial port has failed.
unfoldable pub after_test : Bool → Bridge → Bridge
after_test true b = record b { exited = true }
after_test false b = record b { session = Session.clearing }

-- A step of `main`.
pub data MainStep (b : Bridge) : Bridge → Type 0 where
  accept_fails : b.main ≡ Main.accepting → MainStep b b
  accepts :
      (fd : ℕ)
      → b.main ≡ Main.accepting
      → MainStep b (record b { main = Main.accepted fd; opened = suc b.opened })
  finds_active :
      (fd : ℕ)
      → b.main ≡ Main.accepted fd
      → b.session_active ≡ true
      → MainStep b (record b { main = Main.rejecting fd })
  finds_free :
      (fd : ℕ)
      → b.main ≡ Main.accepted fd
      → b.session_active ≡ false
      → MainStep b (record b { main = Main.joining fd })
  rejects :
      (fd : ℕ)
      → b.main ≡ Main.rejecting fd
      → MainStep b (record b { main = Main.accepting; closed = suc b.closed })
  -- not joinable
  skips_join :
      (fd : ℕ)
      → b.main ≡ Main.joining fd
      → b.session ≡ Session.not_joinable
      → MainStep b (record b { main = Main.activating fd })
  joins :
      (fd : ℕ)
      → b.main ≡ Main.joining fd
      → b.session ≡ Session.returned
      → MainStep b (record b { main = Main.activating fd; session = Session.not_joinable })
  activates :
      (fd : ℕ)
      → b.main ≡ Main.activating fd
      → MainStep b (record b { main = Main.starting fd; session_active = true })
  starts : (fd : ℕ) → b.main ≡ Main.starting fd → MainStep b (assign b.session fd b)

-- A step of the session.
pub data SessionStep (b : Bridge) : Bridge → Type 0 where
  pumps :
      (fd : ℕ) (p q : Pumps)
      → b.session ≡ Session.pumping fd p
      → Pumps.Step p q
      → SessionStep b (record b { session = Session.pumping fd q })
  -- both threads are joined
  ends :
      (fd : ℕ) (p : Pumps)
      → b.session ≡ Session.pumping fd p
      → p.down ≡ Down.done
      → p.up ≡ Up.done
      → SessionStep b (record b { session = Session.closing fd p.serial_failed })
  closes :
      (fd : ℕ) (failed : Bool)
      → b.session ≡ Session.closing fd failed
      → SessionStep b (record b { session = Session.testing failed; closed = suc b.closed })
  tests : (failed : Bool) → b.session ≡ Session.testing failed → SessionStep b (after_test failed b)
  clears :
      b.session ≡ Session.clearing
      → SessionStep b (record b { session = Session.returned; session_active = false })

-- An exit or `std::terminate` ends everything.
pub data Step (b : Bridge) : Bridge → Type 0 where
  main_step : {c : Bridge} → b.exited ≡ false → b.terminated ≡ false → MainStep b c → Step b c
  session_step : {c : Bridge} → b.exited ≡ false → b.terminated ≡ false → SessionStep b c → Step b c

pub data Reach : Bridge → Type 0 where
  here : Reach start
  next : {b c : Bridge} → Reach b → Step b c → Reach c
