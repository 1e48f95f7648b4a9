-- ===== src/Exchange/Session.antt =====
-- include/Modbus/ModbusRtu/ModbusRtuSlave.h: a packet received, its request processed, and the slave
-- reset for the next one.
use modbus_basic.Common.{
  ℕ, ◌≡◌, refl, true, false, ok, ◌>>=◌, arith, length-append, replicate, write_at, length-write_at,
  write_at-IsByte, replicate-IsByte, pos,
}
use native.Mathlib.Nat.{add-zero}
use modbus_basic.External.{External, IsExternal}
use modbus_basic.View.{View}
use modbus_basic.Modbus.Function
use modbus_basic.Modbus.Frame
use modbus_basic.Modbus.Frame.{Frame}
use modbus_basic.Modbus.Frame.Laws.{clear_from_lem}
use modbus_basic.Modbus.Response.{new_response}
use modbus_basic.DataStores.Updating.{register_store, updating_store}
use modbus_basic.ModbusRtu.ReadContext
use modbus_basic.ModbusRtu.ReadContext.{PacketState, process_all}
use modbus_basic.ModbusRtu.Slave.{process_message, receive, slave_reset, reset_read}
use modbus_basic.ModbusRtu.Slave.Validate.{RegisterSlave}
use modbus_basic.ModbusRtu.Slave.Receive.{with_input, process_all-received, receive_lem}
use modbus_basic.Exchange.{Request, IsRequest, function_of, head_of, rest_of, packet_of}
use modbus_basic.Exchange.Arrival.{
  IsWindow, frame_of, length-body_of, length-head_of, length-rest_of, get_function-of,
  function_code_is_valid-of,
}
use modbus_basic.Exchange.Answer.{answer}
use modbus_basic.Exchange.Serving.{IsServing, IsAnswered, registers_of}

-- A slave that waits for a packet.
pub record IsIdle (s : RegisterSlave) : Type 0 where
  pub calm : s.base.ctx ≡ ReadContext.reset
  pub empty : s.base.framein.data_length ≡ 0
  pub window : IsWindow s.base.framein.data_array

-- The slave as `Reset` leaves it.
abbrev pub calmed : RegisterSlave → RegisterSlave
calmed s = record s {
  base = record {
    response = new_response;
    response_valid = false;
    framein = record {
      address = 0;
      function = Function.none;
      data_length = 0;
      data_array = record s.base.framein.data_array {
        storage =
            write_at s.base.framein.data_array.storage s.base.framein.data_array.start
              (replicate s.base.framein.data_array.size 0);
      };
    };
    ctx = ReadContext.reset;
  };
}

module _ (x : External) (laws : IsExternal x) where
  -- A reset of a slave that serves at an address and whose frame has a window of 256 bytes in
  -- memory succeeds, whatever its receiver was doing: the slave is then idle, has no response,
  -- serves on and keeps its registers.
  pub slave_reset-IsIdle :
      (a : ℕ) (s : RegisterSlave)
      → IsWindow s.base.framein.data_array
      → IsServing a s
      → (slave_reset x (updating_store x) (register_store x) s ≡ ok (calmed s))
        × IsIdle (calmed s)
        × IsServing a (calmed s)
  unfolding slave_reset reset_read Frame.reset
  slave_reset-IsIdle a s w h = (
    rw (clear_from_lem x laws v 0 v.size w.inside (omega arith), add-zero v.start),
    record {
      calm = refl;
      empty = refl;
      window = record {
        whole = w.whole;
        inside = omega (arith, length-write_at v.storage v.start (replicate v.size 0), w.inside);
        bytes =
            write_at-IsByte v.storage v.start (replicate v.size 0) w.bytes
              (replicate-IsByte v.size 0 (omega arith));
      };
    },
    record { store = h.store; reach = h.reach; byte = h.byte; mine = h.mine },
  )
    where
      v : View
      v = s.base.framein.data_array

  -- The packet of a request ends in the frame.
  pub arrives_in :
      (a : ℕ) (frame : Frame) (q : Request)
      → frame.data_length ≡ 0
      → IsWindow frame.data_array
      → IsRequest q
      → process_all x ReadContext.reset frame (packet_of x a q)
        ≡ ok (
          record { state = PacketState.done; bytes_to_read = pos 0 },
          frame_of x frame.data_array a q,
        )
  arrives_in a frame q empty window valid = rw (get_function-of q) at (
      process_all-received x laws frame a (Function.code (function_of q)) (head_of q) (rest_of q)
        empty (function_code_is_valid-of q) (rw (get_function-of q) (length-head_of q))
        (rw (get_function-of q) (length-rest_of q)) window.inside
        (omega
          (arith, length-append (head_of q) (rest_of q), length-body_of q valid, window.whole)))

  pub arrives :
      (a : ℕ) (s : RegisterSlave) (q : Request)
      → IsIdle s
      → IsRequest q
      → process_all x s.base.ctx s.base.framein (packet_of x a q)
        ≡ ok (
          record { state = PacketState.done; bytes_to_read = pos 0 },
          frame_of x s.base.framein.data_array a q,
        )
  arrives a s q idle valid =
      rw idle.calm (arrives_in a s.base.framein q idle.empty idle.window valid)

  -- An idle slave that serves at an address, given byte by byte the packet of a request for that
  -- address whose counts and values are within the protocol's limits, takes all of it and processes
  -- it without a fault. It then has the registers that the specification gives, its response is the
  -- specified reply, framed with its CRC, and is valid, and it serves on, its stores within 16-bit
  -- addresses. The request may be one that the specification refuses.
  pub exchange_lem :
      (a : ℕ) (s : RegisterSlave) (q : Request)
      → IsServing a s
      → IsIdle s
      → IsRequest q
      → (t : RegisterSlave) × ((do
        u ← receive x (updating_store x) (register_store x) (packet_of x a q) s
        process_message x (updating_store x) (register_store x) true u)
          ≡ ok t)
        × IsAnswered x a q (registers_of s) t
  exchange_lem a s q h idle valid =
      let (t, eq, answered) =
        answer x laws s.base.framein.data_array idle.window a
          (with_input s (
            record { state = PacketState.done; bytes_to_read = pos 0 },
            frame_of x s.base.framein.data_array a q,
          ))
          (record { store = h.store; reach = h.reach; byte = h.byte; mine = h.mine }) q valid in
      (
        t,
        rw (
          receive_lem x (updating_store x) (register_store x) (packet_of x a q) s,
          arrives a s q idle valid,
          eq,
        ),
        answered,
      )
