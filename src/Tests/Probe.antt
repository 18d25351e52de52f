-- ===== src/Tests/Probe.antt =====
-- An IoProbe with eight inputs and eight outputs behind the user interface.
use ipdbg.Prelude.{
  ℕ, true, false, none, some, List, [], ◌∷◌, ◌++◌, take, drop, replicate, refl, arith,
}
use ipdbg.Os.{
  Os, call_send, call_recv, did_malloc, did_recv, did_send, did_set_timeout, did_connect,
  did_socket, did_resolve,
}
use ipdbg.Command.{blank}
use ipdbg.Link.{begin, apply_timeout, send, receive, os_malloc}
use ipdbg.Link.Frames.{send_reset, send_command}
use ipdbg.Link.Connecting.{connect_host}
use ipdbg.BusAccess.Core.{
  bus_env, sizes_of, word_at, round_up, max_size, get_buffe_size, get_protocol_id, get_core_type,
}
use ipdbg.BusAccess.Query.{get_sizes, send_address}
use ipdbg.BusAccess.Session.{
  new, open_connection, query, field_of, get_field_size, get_core_type_of,
}
use ipdbg.IoView.Protocol.{
  Protocol, Choice, handle_event, connect_menu, timer_expired, port_bytes, connected, port_widths,
  saved,
}
use ipdbg.IoView.Protocol.Invariant.{IsFine, Ends}
use ipdbg.IoView.Protocol.Events.{construct, Reaches, starts, handles, Reaches-Fine}
use ipdbg.Tests.{script_os, script_os-IsQuiet}

abbrev choice : Choice
choice = record {
  last_host = none;
  last_port = some 4245;
  default_host = 127;
  default_port = 4244;
  show_modal = λ host port. (true, (some host, some port));
}

-- The widths that the core answers: the version word, then eight bits to write and eight to read.
abbrev widths : List ℕ
widths = 0x1D ∷ 0 ∷ 1 ∷ 0 ∷ 8 ∷ 0 ∷ 0 ∷ 0 ∷ 8 ∷ 0 ∷ 0 ∷ 0 ∷ replicate 12 0

-- After them it acknowledges an access, with the inputs 0x42.
abbrev script : List ℕ
script = widths ++ (0x55 ∷ 0x42 ∷ [])

abbrev probe : Os
probe = script_os script

-- Connected, with eight inputs and eight outputs.
abbrev attached : Protocol
attached = record {
  handle = some (record {
    socket = some 3;
    timeout_ms = 5000;
    last_error = blank;
    core = record {
      sizes = record {
        version_and_id = 0x1001D;
        address_width = 0;
        read_data_width = 8;
        write_data_width = 8;
        misc_data_width = 0;
        strobe_width = 0;
        address_width_bytes = 0;
        read_data_width_bytes = 1;
        write_data_width_bytes = 1;
        misc_data_width_bytes = 0;
        strobe_width_bytes = 0;
      };
      buffer = some (0 ∷ 0 ∷ []);
      address_shadow = some (0 ∷ []);
    };
  });
  number_of_inputs = 8;
  number_of_outputs = 8;
  input_buffer = 0 ∷ [];
  failing = false;
  timer = true;
  pending = [];
  shown = connected 127 4245 8 8 ∷ port_widths 8 8 ∷ saved 127 4245 ∷ [];
  trace =
      did_malloc 1 true
      ∷ did_malloc 2 true
      ∷ did_recv (some 3) (drop 4 widths)
      ∷ did_recv (some 3) (take 4 widths)
      ∷ did_send (some 3) (0xAB ∷ [])
      ∷ did_send (some 3) (0xEE ∷ 0xEE ∷ [])
      ∷ did_set_timeout (some 3) 5000 true
      ∷ did_set_timeout (some 3) 5000 true
      ∷ did_connect (some 3) 1 true
      ∷ did_socket 1 (some 3)
      ∷ did_resolve
      ∷ [];
}

attached-Reaches : Reaches probe 1 [] attached
unfolding construct handle_event new open_connection begin connect_host bus_env apply_timeout
    send_reset send call_send get_sizes send_command receive call_recv get_protocol_id word_at
    get_buffe_size sizes_of round_up max_size query get_field_size get_core_type_of get_core_type
    field_of port_bytes os_malloc send_address
attached-Reaches = handles (connect_menu choice true) starts tt refl

-- The timer expires while it is connected.
Reaches-Fine_example : IsFine attached × Ends IsFine (handle_event probe 1 timer_expired attached)
Reaches-Fine_example =
    Reaches-Fine probe 1 (script_os-IsQuiet script) timer_expired attached-Reaches (omega arith)
