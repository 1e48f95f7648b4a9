-- ===== src/Witnesses/Lines.antt =====
-- Concrete runs of the theorems: a slave on a line.
use modbus_basic.Common.{
  ℕ, ◌≡◌, refl, true, List, [], ◌∷◌, ◌++◌, Option, none, some, ok, arith, replicate, ◌>>=◌,
}
use modbus_basic.DataStores.Updating.{updating_store, register_store}
use modbus_basic.ModbusRtu.Slave.{receive, process_message, slave_reset}
use modbus_basic.ModbusRtu.Slave.Validate.{RegisterSlave}
use modbus_basic.Exchange.{Request, read_holding, write_single}
use modbus_basic.Exchange.Serving.{IsServing, IsAnswered, registers_of}
use modbus_basic.Exchange.Session.{IsIdle, calmed, slave_reset-IsIdle, exchange_lem}
use modbus_basic.Linux.Serial.{Device, IsDevice, UartController, is_nil, send_from, read_from}
use modbus_basic.Linux.Serial.Loops.{IsSent, IsFilled, send_from_lem, read_from_lem}
use modbus_basic.Linux.Tools.{Timeval}
use modbus_basic.Linux.Run.{rounds}
use modbus_basic.Linux.Run.Steps.{Machine}
use modbus_basic.Linux.Run.Packets.{packets}
use modbus_basic.Linux.Run.Rounds.{Ends, rounds-replies}
use modbus_basic.ModbusRtu.ReadContext.{packet_received}
use modbus_basic.Linux.Tools.{get_micro_seconds_since}
use modbus_basic.Linux.Snooper.{packet_is_ready, check_for_completed_packet}
use modbus_basic.Linux.Snooper.Discards.{check_for_completed_packet-discards}
use modbus_basic.Witnesses.{slave-IsServing, slave-IsIdle, plain, plain_laws, slave}

-- A port: the bytes that wait and those that were sent.
abbrev pub Port : Type 0
Port = List ℕ × List ℕ

abbrev first_of : List ℕ → ℕ × List ℕ
first_of [] = (0, [])
first_of (b ∷ bs) = (b, bs)

abbrev hear : List ℕ → List ℕ → Option ℕ × Port
hear [] line = (none, ([], line))
hear (b ∷ bs) line = (some b, (bs, line))

-- Lists for the buffers.
abbrev pub wire : Device (List ℕ) Port
wire = record {
  is_empty = is_nil;
  pop = first_of;
  insert = λ b a. b ++ (a ∷ []);
  rx_empty = is_nil;
  read_one = first_of;
  write_all = λ b bs. b ++ bs;
  read_port = λ p. hear p.0 p.1;
  write_port = λ p a. (p.0, p.1 ++ (a ∷ []));
}

pub first_of_lem :
    (b : List ℕ) (a : ℕ) (rest : List ℕ)
    → b ≡ a ∷ rest
    → ((first_of b).0 ≡ a) × ((first_of b).1 ≡ rest)
first_of_lem b a rest h = rw h (refl, refl)

pub hear_silent : (p : Port) → p.0 ≡ [] → hear p.0 p.1 ≡ (none, p)
hear_silent p h = rw h refl

pub hear_heard :
    (p : Port) (a : ℕ) (rest : List ℕ)
    → p.0 ≡ a ∷ rest
    → ((hear p.0 p.1).0 ≡ some a) × ((hear p.0 p.1).1.0 ≡ rest) × ((hear p.0 p.1).1.1 ≡ p.1)
hear_heard p a rest h = rw h (refl, refl, refl)

abbrev pub wire_laws : IsDevice wire
wire_laws = record {
  contents = λ b. b;
  room = 300;
  waiting = λ p. p.0;
  line = λ p. p.1;
  empty = λ b. refl;
  first = first_of_lem;
  last = λ b a h. refl;
  unread = λ b. refl;
  next = first_of_lem;
  queued = λ b bs h. refl;
  silent = hear_silent;
  heard = hear_heard;
  said = λ p a. (refl, refl);
}

abbrev pub two : List Request
two = write_single 1 77 ∷ read_holding 1 2 ∷ []

-- A machine whose line has the packets of a write and of a read of what was written, with one byte yet
-- to send.
abbrev pub machine : Machine plain plain_laws wire wire_laws
machine = record {
  slave = slave;
  iodev = record { connection = (packets plain 9 two, []); rxbuff = []; txbuff = 5 ∷ [] };
  last_character_time = record { tv_sec = 0; tv_usec = 0 };
}

abbrev pub rounds_17 : List Timeval
rounds_17 = replicate 17 (record { tv_sec = 1; tv_usec = 0 })

rounds-replies_example :
    Ends plain plain_laws wire wire_laws 301
      (omega arith)
      9
      (rounds plain (updating_store plain) (register_store plain) wire 301 rounds_17 machine)
      (5 ∷ 9 ∷ 6 ∷ 0 ∷ 1 ∷ 0 ∷ 77 ∷ 0 ∷ 93 ∷ 9 ∷ 3 ∷ 4 ∷ 0 ∷ 77 ∷ 0 ∷ 30 ∷ 0 ∷ 123 ∷ [])
      (record { holding = 10 ∷ 77 ∷ 30 ∷ 40 ∷ []; input = 7 ∷ 800 ∷ [] })
rounds-replies_example =
    rounds-replies plain plain_laws wire wire_laws 301 (omega arith) 9 two (5 ∷ []) rounds_17
      machine (omega arith) slave-IsIdle slave-IsServing
      (record {
        slave = refl;
        input = refl;
        output = refl;
        fits = omega arith;
        small = omega arith;
      })
      ((omega arith, omega arith), ((omega arith, omega arith, omega arith), tt)) refl

exchange_lem_example :
    (t : RegisterSlave) × ((do
      u ←
          receive plain
            (updating_store plain)
            (register_store plain)
            (9 ∷ 6 ∷ 0 ∷ 1 ∷ 0 ∷ 77 ∷ 0 ∷ 93 ∷ [])
            slave
      process_message plain (updating_store plain) (register_store plain) true u)
      ≡ ok t)
    × IsAnswered plain 9 (write_single 1 77) (registers_of slave) t
exchange_lem_example =
    exchange_lem plain plain_laws 9 slave (write_single 1 77) slave-IsServing slave-IsIdle
      (omega arith, omega arith)

slave_reset-IsIdle_example :
    (slave_reset plain (updating_store plain) (register_store plain) slave ≡ ok (calmed slave))
    × IsIdle (calmed slave)
    × IsServing 9 (calmed slave)
slave_reset-IsIdle_example =
    slave_reset-IsIdle plain plain_laws 9 slave slave-IsIdle.window slave-IsServing

send_from_lem_example :
    (u' : UartController (List ℕ) Port) × (send_from wire 301 0 machine.iodev ≡ ok (1, u'))
    × IsSent wire wire_laws machine.iodev u' (5 ∷ [])
send_from_lem_example = send_from_lem wire wire_laws (5 ∷ []) 301 0 machine.iodev refl (omega arith)

read_from_lem_example :
    (u' : UartController (List ℕ) Port) × (read_from wire 301 0 machine.iodev ≡ ok (16, u'))
    × IsFilled wire wire_laws machine.iodev u' (packets plain 9 two)
read_from_lem_example =
    read_from_lem wire wire_laws (packets plain 9 two) 301 0 machine.iodev refl (omega arith)
      (omega arith)

check_for_completed_packet-discards_example :
    (u : RegisterSlave) × (receive plain
        (updating_store plain)
        (register_store plain)
        (9 ∷ 6 ∷ 0 ∷ 1 ∷ 0 ∷ 77 ∷ 0 ∷ 93 ∷ [])
        slave
      ≡ ok u)
    × (packet_received u.base.ctx ≡ true)
    × (check_for_completed_packet plain
          (updating_store plain)
          (register_store plain)
          wire
          (record { tv_sec = 1; tv_usec = 0 })
          (record machine { slave = u })
        ≡ ok (record machine { slave = calmed u }))
    × IsIdle (calmed u)
    × (registers_of (calmed u) ≡ registers_of slave)
unfolding packet_is_ready get_micro_seconds_since
check_for_completed_packet-discards_example =
    check_for_completed_packet-discards plain plain_laws wire 9 machine (write_single 1 77)
      (record { tv_sec = 1; tv_usec = 0 }) slave-IsIdle slave-IsServing (omega arith, omega arith)
      refl
