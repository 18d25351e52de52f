-- ===== src/WaveformGenerator/Writing.antt =====
-- sw/WaveformGenerator/WaveformGenerator.c: IpdbgWaveformGenerator_write.
pub mod Frame
pub mod Length
use ipdbg.Prelude.{
  ℕ, zero, suc, ◌+◌, ◌-◌, ◌*◌, ◌/◌, ◌%◌, ◌^◌, ◌||◌, Bool, true, false, not, Option, none, some,
  List, [], ◌∷◌, ◌++◌, ltb, leb, ◌==◌, if◌then◌else◌, get_or, drop, length,
}
use ipdbg.Prelude.Bits.{shr}
use ipdbg.Os.{Os}
use ipdbg.Command.{
  Ret, error, ok, Ref, no_samples, sample_count, too_many_samples, out_of_memory,
  invalid_response_writing_samples, State, Cmd, pure, fault, forever, ◌>>=◌, ◌>>◌, if_ok,
}
use ipdbg.Escaping.{escape}
use ipdbg.Link.{reject_if, os_malloc}
use ipdbg.WaveformGenerator.Core.{
  set_number_of_samples_cmd, write_samples_cmd, write_progress_resp, write_done_resp, size_max,
  WfgCore, wfg_env, get_core, max_samples,
}
use ipdbg.WaveformGenerator.Connection.{begin, send, receive}

-- `for (i = AddressWidthBytes; i-- > 0;)`: the last index, the most significant byte first.
unfoldable pub count_loop : ℕ → ℕ → List ℕ
count_loop last_index zero = []
count_loop last_index (suc i) =
    escape (if ltb i 8 then shr last_index (i * 8) % 2 ^ 8 else 0) ++ count_loop last_index i

-- `for (i = DataWidthBytes; i-- > 0;)`: one sample, the most significant byte first.
unfoldable pub sample_loop : List ℕ → ℕ → List ℕ
sample_loop sample zero = []
sample_loop sample (suc i) = escape (get_or sample i 0) ++ sample_loop sample i

-- `for (s = 0; s < count; ++s)`, with `left` samples to go.
unfoldable pub samples_loop : ℕ → List ℕ → ℕ → ℕ → List ℕ
unfolding sample_loop
samples_loop data_width_bytes samples zero s = []
samples_loop data_width_bytes samples (suc left) s =
    sample_loop (drop (s * data_width_bytes) samples) data_width_bytes
    ++ samples_loop data_width_bytes samples left (suc s)

-- What the buffer holds at its first `n` bytes.
unfoldable pub frame : WfgCore → List ℕ → ℕ → List ℕ
unfolding count_loop samples_loop
frame c samples count =
    (set_number_of_samples_cmd ∷ count_loop (count - 1) c.address_width_bytes)
    ++ (write_samples_cmd ∷ samples_loop c.data_width_bytes samples count 0)

-- `a / b` ends the program if `b` is 0.
unfoldable pub divide : ℕ → ℕ → Cmd WfgCore ℕ
divide a zero = λ s. fault
divide a (suc b) = pure (a / suc b)

-- `SIZE_MAX / 2 - 2 - handle->AddressWidthBytes`
unfoldable pub room_for_samples : ℕ → ℕ
room_for_samples address_width_bytes = (2 ^ 63 - 3 + 2 ^ 64 - address_width_bytes) % 2 ^ 64

unfoldable pub payload_bytes : WfgCore → ℕ → ℕ
payload_bytes c count = (c.address_width_bytes + count * c.data_width_bytes % 2 ^ 64) % 2 ^ 64

unfoldable pub buffer_bytes : WfgCore → ℕ → ℕ
unfolding payload_bytes
buffer_bytes c count = (2 + 2 * payload_bytes c count % 2 ^ 64) % 2 ^ 64

-- Every byte of the frame is written behind the one before: the last index tells whether all are
-- inside of what `malloc` gave. The samples are read up to the last byte of the last one.
unfoldable pub stays_inside : WfgCore → List ℕ → ℕ → Cmd WfgCore Ret
unfolding frame buffer_bytes
stays_inside c samples count =
    if leb (length (frame c samples count)) (buffer_bytes c count)
    then (if leb (count * c.data_width_bytes) (length samples) then pure ok else λ s. fault)
    else λ s. fault

-- The two tests on an answer, with the rest of the loop.
unfoldable pub on_answer : Cmd WfgCore Ret → ℕ → Cmd WfgCore Ret
on_answer again resp =
    if resp == write_done_resp
    then pure ok
    else if resp == write_progress_resp
    then again
    else reject_if true (invalid_response_writing_samples resp)

module _ (os : Os) (fuel : ℕ) where
  -- `for (;;)`, with a bound on the answers.
  unfoldable pub wait_done : ℕ → Cmd WfgCore Ret
  unfolding on_answer
  wait_done zero = λ s. forever
  wait_done (suc rounds) = do
    (ret, resp) ← receive os fuel 1
    if_ok ret (on_answer (wait_done rounds) (get_or resp 0 0))

  -- The frame is built in a new buffer and sent from it.
  unfoldable pub send_samples : List ℕ → ℕ → Cmd WfgCore Ret
  unfolding stays_inside
  send_samples samples count = do
    c ← get_core
    allocated ← os_malloc (wfg_env os fuel) (buffer_bytes c count)
    reject_if (not allocated) out_of_memory
    stays_inside c samples count
    send os fuel (frame c samples count)

  -- The guards. `none` is a null pointer for the samples.
  unfoldable pub check_count : ℕ → Cmd WfgCore Ret
  check_count count = do
    c ← get_core
    reject_if (count == 0 || ltb (max_samples c) count) (sample_count count (max_samples c))
    most ← divide (room_for_samples c.address_width_bytes) c.data_width_bytes
    reject_if (ltb most count) too_many_samples

  unfoldable pub write : ℕ → Ref → Option (List ℕ) → ℕ → Cmd WfgCore Ret
  unfolding wait_done send_samples check_count
  write rounds handle none count = do begin handle true; reject_if true no_samples
  write rounds handle (some samples) count = do
    begin handle true
    check_count count
    send_samples samples count
    wait_done rounds
