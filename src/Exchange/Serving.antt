-- ===== src/Exchange/Serving.antt =====
-- include/Modbus/ModbusRtu/ModbusRtuSlave.h: a slave that serves, and what it has made of a request.
use modbus_basic.Common.{
  ℕ, zero, suc, ◌≤◌, ◌≡◌, refl, Bool, true, List, arith, length, set, IsByte, ◌∙◌, length-set,
}
use modbus_basic.External.{External}
use modbus_basic.Modbus.Function.{code}
use modbus_basic.DataStores.Updating.{UpdatingRegisterDataStore}
use modbus_basic.DataStores.Updating.Flags.{flag_run}
use modbus_basic.RegisterControl.HoldingController.Runs.{IsStore}
use modbus_basic.ModbusRtu.Protocol.Reply.{IsFramed}
use modbus_basic.ModbusRtu.Slave.Validate.{RegisterSlave, IsNamed}
use modbus_basic.ModbusRtu.Slave.Errors.{IsSized}
use modbus_basic.Exchange.{
  Request, Registers, function_of, serve, reply_of, read_holding, read_input, write_single,
  write_multiple,
}
use modbus_basic.Exchange.Arrival.{IsWindow}

-- The registers of a slave.
abbrev pub registers_of : RegisterSlave → Registers
registers_of s = record { holding = s.holding.base.registers; input = s.input.registers }

-- A slave that serves at an address: its stores are within the reach of 16-bit addresses, and each
-- holding register has a flag.
pub record IsServing (a : ℕ) (s : RegisterSlave) : Type 0 where
  pub store : IsStore s.holding
  pub reach : length s.input.registers ≤ 65536
  pub byte : IsByte a
  pub mine : s.slave_address ≡ a

-- The slave `t` has answered a request to the given registers as it promises, and serves on.
pub record IsAnswered (x : External) (a : ℕ) (q : Request) (before : Registers) (t : RegisterSlave)
    : Type 0 where
  pub kept : registers_of t ≡ (serve q before).0
  pub ready : t.base.response_valid ≡ true
  pub framed : IsFramed x (reply_of a q (serve q before).1) t.base.response
  pub serving : IsServing a t
  pub window : IsWindow t.base.framein.data_array

pub IsServing-IsSized : {a : ℕ} {s : RegisterSlave} → IsServing a s → IsSized s
IsServing-IsSized h = record {
  holding_size = omega (arith, h.store.reach);
  input_size = omega (arith, h.reach);
}

pub length-flag_run : (flags : List Bool) (a n : ℕ) → length (flag_run flags a n) ≡ length flags
length-flag_run flags a zero = refl
length-flag_run flags a (suc n) =
    length-flag_run (set flags a true) (suc a) n ∙ length-set flags a true

pub function_of-IsNamed : (q : Request) → IsNamed (function_of q)
function_of-IsNamed (read_holding address count) = tt
function_of-IsNamed (read_input address count) = tt
function_of-IsNamed (write_single address value) = tt
function_of-IsNamed (write_multiple address values) = tt

pub function_of-IsByte : (q : Request) → IsByte (code (function_of q))
function_of-IsByte (read_holding address count) = omega arith
function_of-IsByte (read_input address count) = omega arith
function_of-IsByte (write_single address value) = omega arith
function_of-IsByte (write_multiple address values) = omega arith

pub rewritten-IsStore :
    (store : UpdatingRegisterDataStore) (registers : List ℕ) (flags : List Bool)
    → length registers ≡ length store.base.registers
    → length flags ≡ length store.flags
    → IsStore store
    → IsStore (record { base = record { registers = registers }; flags = flags })
rewritten-IsStore store registers flags e f h = record {
  reach = omega (arith, h.reach);
  flagged = omega (arith, h.flagged);
}
