-- ===== src/Linux/Printing.antt =====
-- examples/LinuxSlave/source/LinuxModbusTools.h: what a slave prints of a packet.
use Prim.Native.String.{String}
use modbus_basic.Common.{
  ℕ, zero, suc, ◌+◌, ◌≤◌, ◌≡◌, refl, List, [], ◌∷◌, ◌++◌, Result, ok, ◌>>=◌, range, All, IsByte,
  arith,
}
use modbus_basic.External.{External, IsExternal}
use modbus_basic.View.{View, IsInside, view_get}
use modbus_basic.View.Laws.{view_get_lem, read_uint16_lem}
use modbus_basic.Modbus.Function.{
  Function, code, read_coils, read_discrete_inputs, read_multiple_holding_registers,
  read_input_registers, write_single_coil, write_single_holding_register,
  write_multiple_holding_registers, write_multiple_coils, read_device_identification,
}
use modbus_basic.Modbus.Frame.{Frame}
use modbus_basic.DataCommand.{read_address_start}
use modbus_basic.RegisterControl.ReadMultiple
use modbus_basic.RegisterControl.WriteMultiple
use modbus_basic.RegisterControl.HoldingController.Runs.{word}

-- What `printf` is given: text, and numbers for `%d` and `0x%x`.
pub data Piece : Type 0 where
  text : String → Piece
  decimal : ℕ → Piece
  hexadecimal : ℕ → Piece

-- `GetFunctionName`
unfoldable pub get_function_name : Function → List Piece
get_function_name read_coils = text "Read Coils" ∷ []
get_function_name read_discrete_inputs = text "Read Discrete Inputs" ∷ []
get_function_name read_multiple_holding_registers = text "Read Multiple Holding Registers" ∷ []
get_function_name read_input_registers = text "Read Input Registers" ∷ []
get_function_name write_single_coil = text "Read Single Coil" ∷ []
get_function_name write_single_holding_register = text "Write Single Holding Register" ∷ []
get_function_name write_multiple_holding_registers = text "Write Multiple Holding Registers" ∷ []
get_function_name write_multiple_coils = text "Write Multiple Coils" ∷ []
get_function_name read_device_identification = text "Read Device Information" ∷ []
get_function_name f = text "Unknown Command " ∷ decimal (code f) ∷ []

module _ (x : External) where
  -- The loop over the data, from index `i` on.
  pub print_from : View → ℕ → ℕ → Result (List Piece)
  print_from data_array i zero = ok []
  print_from data_array i (suc n) = do
    byte ← view_get x data_array i
    rest ← print_from data_array (suc i) n
    ok (hexadecimal byte ∷ text " " ∷ rest)

  -- The `switch`.
  unfoldable pub print_operands : Function → View → Result (List Piece)
  print_operands read_multiple_holding_registers data_array = do
    address ← read_address_start x data_array
    register_count ← ReadMultiple.read_register_count x data_array
    ok (text "Address: " ∷ hexadecimal address ∷ text ", Count: " ∷ decimal register_count ∷ [])
  print_operands write_multiple_holding_registers data_array = do
    address ← read_address_start x data_array
    register_count ← WriteMultiple.read_register_count x data_array
    ok (text "Address: " ∷ hexadecimal address ∷ text ", Count: " ∷ decimal register_count ∷ [])
  print_operands f data_array = ok []

  -- `PrintPacketData`
  unfoldable pub print_packet_data : Frame → Result (List Piece)
  print_packet_data frame = do
    operands ← print_operands frame.function frame.data_array
    bytes ← print_from frame.data_array 0 frame.data_length
    ok (
        text "Slave Address "
        ∷ decimal frame.address
        ∷ text ": "
        ∷ (get_function_name frame.function
            ++ (text " " ∷ (operands ++ (text " [" ∷ (bytes ++ (text "]" ∷ [])))))))

-- What is to be seen of the data, and of the operands.
abbrev pub shown : List ℕ → List Piece
shown [] = []
shown (b ∷ bs) = hexadecimal b ∷ text " " ∷ shown bs

abbrev pub operands_of : Function → View → List Piece
operands_of read_multiple_holding_registers v =
    text "Address: " ∷ hexadecimal (word v 0) ∷ text ", Count: " ∷ decimal (word v 2) ∷ []
operands_of write_multiple_holding_registers v =
    text "Address: " ∷ hexadecimal (word v 0) ∷ text ", Count: " ∷ decimal (word v 2) ∷ []
operands_of f v = []

module _ (x : External) (laws : IsExternal x) (v : View) (inside : IsInside v) where
  print_from_lem :
      (i n : ℕ) → i + n ≤ v.size → print_from x v i n ≡ ok (shown (range v.storage (v.start + i) n))
  unfolding print_from
  print_from_lem i zero h = refl
  print_from_lem i (suc n) h =
      let next : v.start + suc i ≡ suc (v.start + i) = omega arith in
      rw
        (view_get_lem x laws v i inside (omega arith), print_from_lem (suc i) n (omega arith), next)
        refl

  print_operands_lem :
      (f : Function)
      → 4 ≤ v.size
      → All IsByte v.storage
      → print_operands x f v ≡ ok (operands_of f v)
  unfolding print_operands read_address_start ReadMultiple.read_register_count
      WriteMultiple.read_register_count
  print_operands_lem read_multiple_holding_registers room bytes =
      rw
        (
          read_uint16_lem x laws v 0 inside (omega arith) bytes,
          read_uint16_lem x laws v 2 inside (omega arith) bytes,
        )
        refl
  print_operands_lem write_multiple_holding_registers room bytes =
      rw
        (
          read_uint16_lem x laws v 0 inside (omega arith) bytes,
          read_uint16_lem x laws v 2 inside (omega arith) bytes,
        )
        refl
  print_operands_lem f room bytes = refl

  -- A packet whose window lies in memory, with at least 4 bytes and room for the data, is printed without a
  -- fault, with all of its bytes.
  pub print_packet_data_lem :
      (a n : ℕ) (f : Function)
      → 4 ≤ v.size
      → n ≤ v.size
      → All IsByte v.storage
      → print_packet_data x (record { address = a; function = f; data_length = n; data_array = v })
        ≡ ok (
            text "Slave Address "
            ∷ decimal a
            ∷ text ": "
            ∷ (get_function_name f
                ++ (text " "
                    ∷ (operands_of f v
                        ++ (text " [" ∷ (shown (range v.storage v.start n) ++ (text "]" ∷ [])))))))
  unfolding print_packet_data
  print_packet_data_lem a n f room fits bytes =
      let start : v.start + 0 ≡ v.start = omega arith in
      rw (print_operands_lem f room bytes, print_from_lem 0 n (omega arith), start) refl
