-- ===== src/UartBridge/Pumps.antt =====
-- sw/UartBridge/UartBridge.cpp: the two threads of a session, one step for each call and for each
-- access to what they share, in any order. What the calls answer is up to the environment.
pub mod Invariant
pub mod Forwarding
pub mod Ending
use ipdbg.Prelude.{ℕ, suc, ◌≤◌, ◌≡◌, Bool, true, false, List, [], ◌∷◌, ◌++◌, length}

-- Where pumpSocketToSerial is, with the part of `buf` that is not yet written.
pub data Down : Type 0 where
  test recv : Down
  write write_failed : List ℕ → Down
  clear shut done : Down

-- Where pumpSerialToSocket is, with the part of `buf` that is not yet sent.
pub data Up : Type 0 where
  set_up set_up_failed set_up_clear set_up_shut set_up_free : Up
  test wait read failed : Up
  send : List ℕ → Up
  free clear shut done : Up

-- What the threads share, what each holds, and the bytes of both directions in order.
pub record Pumps : Type 0 where
  pub running : Bool
  pub serial_failed : Bool
  pub shut_down : Bool
  pub events : Bool
  pub end_of_file : ℕ
  pub down : Down
  pub up : Up
  pub from_client : List ℕ
  pub to_serial : List ℕ
  pub from_serial : List ℕ
  pub to_client : List ℕ

abbrev pub start : Pumps
start = record {
  running = true;
  serial_failed = false;
  shut_down = false;
  events = false;
  end_of_file = 0;
  down = Down.test;
  up = Up.set_up;
  from_client = [];
  to_serial = [];
  from_serial = [];
  to_client = [];
}

-- `char buf[4096]`
abbrev pub buffer_size : ℕ
buffer_size = 4096

-- A step of pumpSocketToSerial.
pub data DownStep (p : Pumps) : Pumps → Type 0 where
  goes_on : p.down ≡ Down.test → p.running ≡ true → DownStep p (record p { down = Down.recv })
  stops : p.down ≡ Down.test → p.running ≡ false → DownStep p (record p { down = Down.clear })
  -- `n > 0`
  received :
      (b : ℕ) (bytes : List ℕ)
      → length (b ∷ bytes) ≤ buffer_size
      → p.down ≡ Down.recv
      → DownStep p
          (record p { down = Down.write (b ∷ bytes); from_client = p.from_client ++ (b ∷ bytes) })
  -- `n <= 0`: closed by the client, an error, or the shutdown by the other pump
  ended : p.down ≡ Down.recv → DownStep p (record p { down = Down.clear })
  -- the blocking write without a timeout writes all
  written :
      (bytes : List ℕ)
      → p.down ≡ Down.write bytes
      → DownStep p (record p { down = Down.test; to_serial = p.to_serial ++ bytes })
  -- some of the bytes may have been written
  not_written :
      (sent rest : List ℕ)
      → p.down ≡ Down.write (sent ++ rest)
      → DownStep p (record p { down = Down.write_failed rest; to_serial = p.to_serial ++ sent })
  fails :
      (rest : List ℕ)
      → p.down ≡ Down.write_failed rest
      → DownStep p (record p { down = Down.clear; serial_failed = true })
  clears : p.down ≡ Down.clear → DownStep p (record p { down = Down.shut; running = false })
  shuts : p.down ≡ Down.shut → DownStep p (record p { down = Down.done; shut_down = true })

-- A step of pumpSerialToSocket.
pub data UpStep (p : Pumps) : Pumps → Type 0 where
  has_events : p.up ≡ Up.set_up → UpStep p (record p { up = Up.test; events = true })
  -- the event set may have been made
  no_events :
      (made : Bool)
      → p.up ≡ Up.set_up
      → UpStep p (record p { up = Up.set_up_failed; events = made })
  set_up_fails :
      p.up ≡ Up.set_up_failed → UpStep p (record p { up = Up.set_up_clear; serial_failed = true })
  set_up_clears :
      p.up ≡ Up.set_up_clear → UpStep p (record p { up = Up.set_up_shut; running = false })
  set_up_shuts :
      p.up ≡ Up.set_up_shut → UpStep p (record p { up = Up.set_up_free; shut_down = true })
  set_up_frees : p.up ≡ Up.set_up_free → UpStep p (record p { up = Up.done; events = false })
  goes_on : p.up ≡ Up.test → p.running ≡ true → UpStep p (record p { up = Up.wait })
  stops : p.up ≡ Up.test → p.running ≡ false → UpStep p (record p { up = Up.free })
  -- data, or the timeout
  waited : p.up ≡ Up.wait → UpStep p (record p { up = Up.read })
  wait_fails : p.up ≡ Up.wait → UpStep p (record p { up = Up.failed })
  read_fails : p.up ≡ Up.read → UpStep p (record p { up = Up.failed })
  -- nothing, after half of the timeout
  nothing : p.up ≡ Up.read → UpStep p (record p { up = Up.test })
  -- nothing, long before the timeout: the first and the second time
  nothing_early :
      p.up ≡ Up.read
      → suc p.end_of_file ≤ 2
      → UpStep p (record p { up = Up.test; end_of_file = suc p.end_of_file })
  -- the third time in a row
  closed_by_system :
      p.up ≡ Up.read
      → 3 ≤ suc p.end_of_file
      → UpStep p (record p { up = Up.failed; end_of_file = suc p.end_of_file })
  has_read :
      (b : ℕ) (bytes : List ℕ)
      → length (b ∷ bytes) ≤ buffer_size
      → p.up ≡ Up.read
      → UpStep p (record p {
        up = Up.send (b ∷ bytes);
        end_of_file = 0;
        from_serial = p.from_serial ++ (b ∷ bytes);
      })
  -- `s` of the bytes that are left, at least one
  sends :
      (b : ℕ) (sent rest : List ℕ)
      → p.up ≡ Up.send ((b ∷ sent) ++ rest)
      → UpStep p (record p { up = Up.send rest; to_client = p.to_client ++ (b ∷ sent) })
  all_sent : p.up ≡ Up.send [] → UpStep p (record p { up = Up.test })
  send_fails :
      (b : ℕ) (rest : List ℕ) → p.up ≡ Up.send (b ∷ rest) → UpStep p (record p { up = Up.free })
  fails : p.up ≡ Up.failed → UpStep p (record p { up = Up.free; serial_failed = true })
  frees : p.up ≡ Up.free → UpStep p (record p { up = Up.clear; events = false })
  clears : p.up ≡ Up.clear → UpStep p (record p { up = Up.shut; running = false })
  shuts : p.up ≡ Up.shut → UpStep p (record p { up = Up.done; shut_down = true })

-- Either thread.
pub data Step (p : Pumps) : Pumps → Type 0 where
  down_step : {q : Pumps} → DownStep p q → Step p q
  up_step : {q : Pumps} → UpStep p q → Step p q

pub data Reach : Pumps → Type 0 where
  here : Reach start
  next : {p q : Pumps} → Reach p → Step p q → Reach q
