-- ===== src/Lib.antt =====
-- Verification of ModbusBasic, a Modbus RTU slave in C++ (include/Modbus).
--
-- A byte from the line goes to ProtocolRtuSlave::ProcessCharacter, whose ReadContext puts it into the
-- received Frame and counts down what is left of the packet. When a packet is in, ProcessMessage
-- validates it, compares its address, checks its CRC, and either answers with an exception or lets the
-- controller of the function's address space run it on a data store; the reply is framed with a CRC of
-- its own. The files follow these parts:
--
--   Modbus, Modbus/Function, Modbus/Frame, Modbus/Response: include/Modbus/Modbus.h. `Function` has the
--     enumerators of the enum and `unnamed` for any other value that a cast gives; `Response` keeps its
--     256 bytes, and an index past them is redirected to byte 0, after the assertion that lets 256 pass.
--   DataCommand, RegisterControl/WriteSingle, /ReadMultiple, /WriteMultiple: the readers and writers of
--     payloads of DataCommand.h and RegisterControl.h, one function for each static method; /Values of
--     /WriteMultiple is about the loop over the values.
--   RegisterControl/HoldingController, /InputController: HoldingRegisterController<T> and
--     InputRegisterController<T> of RegisterControl.h; their template parameter is a record of operations
--     on a state (DataStores). /Runs and HoldingController/Reads say what each run does on the stores of the
--     library, HoldingController/Overflow what it does when the response has no room for the registers.
--   DataStores/Registers, DataStores/Updating: DataStores/RegisterDataStore.h. /Access and /Bounds are
--     about reads, writes and valid locations, /Beyond about reads that no memory has room for, /Flags and
--     /NewData about the flags.
--   ModbusRtu/ReadContext: the receiver of ModbusRtu/ModbusRtuProtocol.h, with /Progress on its invariant,
--     /Receive on a whole packet, /Clean on what the frame holds, and /Undone on the build with assertions.
--   ModbusRtu/Protocol: the framing of ModbusRtu/ModbusRtuProtocol.h, with /Crc, /Framing, /Reply,
--     /Received, /Overflow, and /Wire and /RoundTrip on Frame and ReadFrame.
--   ModbusRtu/Slave: ModbusRtu/ModbusRtuSlave.h and InList of Utilities.h, with /Validate, /Errors,
--     /Replies and /Commands on what ProcessMessage does with a request, /Overflow on requests for too many
--     registers, and /Receive on a packet's bytes. /Handled is about ProcessMessage on whatever packet came
--     in, /Sound has the invariant of the slave, and Sound/Reachable the slave as a step relation: bytes,
--     packets and resets in any order that the code's guards allow.
--   MappedStore: MappedRegisterDataStore.h, over an object that keeps the fields, which is a parameter;
--     /Lookup is about the field that an access reaches.
--   ByteFields, ByteFields/Accessor: ByteField.h, ByteFieldController.h, RegisterController.h, Accessor.h;
--     /Blocks is about valid accesses and reads, /Writes about reads after writes, /Sorted about sorted
--     blocks. A block is taken to have its buffer to itself.
--   Exchange: what a slave promises, without bytes: requests, registers, the reply to each request, and
--     both on the wire. /Serving is a slave that keeps the promise, /Arrival a request in its frame,
--     /Answer what ProcessMessage makes of it, /Session a whole exchange, from the first byte to the reset.
--     /Command is the master's side of a request (`FillFrame` of its command), /Reading what the readers of
--     responses find in a reply, and /Call the two together, through the frame of ModbusRtu/Protocol.
--   Linux/Serial: UartController of examples/posix/PosixSerial.h, over the port and the ring buffers, which
--     are parameters (`Device`, with the laws `IsDevice`): a buffer keeps the order of what is put into it
--     as long as it has room, and the port hands over what waits and takes what is sent.
--   Linux/Tools, Linux/Run: examples/LinuxSlave/source: LinuxModbusTools.h, `Run` of LinuxSlave.h and the
--     loop of main.cpp, given the times at which its rounds begin. /Steps are the parts of a round,
--     /Checks what it makes of a packet, /Packets the rounds on one packet, /Rounds on several, and /Endurance
--     on bytes that need not be packets.
--     Linux/Printing has what PrintPacketData hands to printf, which no round depends on.
--   Linux/Snooper: examples/SerialSnooper/source/LinuxSlave.h, with /Discards on whole packets.
--   Maps, Maps/Holding, Maps/Input: the generated maps of examples/ConnectedDevice/common. The switch of
--     SetField and that of GetField are `set_entry` and `get_entry`. An int32_t is kept as its 32 bits,
--     and the offsets are those of fields aligned to their sizes. The conversions of integers from and to
--     bytes are a parameter (`Conversion`). /Bytes, /Access, /Contents and /Fields are about what is read
--     after a write, Input/Bounds about the setters of arrays. /Places makes of a table of fields the lists
--     offsets_ and end_points_ that MappedRegisterDataStore uses and the wrappers lack; with them the maps
--     are mapped stores (Holding/Places, Input/Places).
--   ConnectedDevice: examples/ConnectedDevice/LinuxSlave, the class of Linux/Run over mapped stores on the
--     generated maps, with /Reads and /Settings on what the controllers make of a request to read a field of
--     the input and of the holding map, /Sessions and Settings/Sessions on such a request from its first byte
--     to the reply, and /Refusals on requests that fit no field. The callbacks of a write, which the mapped
--     store lacks, are a parameter.
--   TestMaster: examples/ConnectedDevice/LibmodbusMaster, the test program of that device, over libmodbus,
--     which is a parameter (`Libmodbus`): each call gives its return value, what it puts into the caller's
--     array, and the context afterwards. /Remote has the laws of a libmodbus that reaches a device
--     (`IsLibmodbus`), /Mirror is about main. The holding map that main makes and never uses is left out.
--   Utilities: MakeRegistersToBytes of include/Modbus/Utilities.h.
--   View: memory as a list of bytes, and the windows onto it that the code passes around. A load or a
--     store outside the memory is the fault `out_of_bounds`. /Runs is about several stores in a row, /Beyond about
--     a view that reaches past the memory.
--   External: what the library uses of the submodule external/CppUtilities, as parameters: the element
--     that an index of an ArrayView refers to, GetByte, Make_MSB_uint16_tFromU8Array, crc16, and whether
--     assertions are compiled out. `IsExternal` says what the code relies on; nothing is assumed of an
--     index outside a view, nor of the CRC but that it has 16 bits.
--   Common: lists, results with faults, words, ranges of bytes.
--   Witnesses and the files below it: the theorems at work on a small slave.
--
-- Code that can fail is in `Result`, whose faults are an access outside memory, a failed assertion, a
-- function that ends without a return, and a loop that runs out of fuel. Numbers are natural numbers
-- with the wrap-around of their type written out: `u8`, `u16`, and `add_size`, `sub_size`, `mul_size` for
-- std::size_t of 64 bits. A loop is a recursion on the number of its rounds, where the code fixes it
-- before the loop begins. The two loops of UartController end by a test, and are recursions on fuel: more
-- than what the buffers hold is enough.
--
-- Not modelled: the tests, the programs over libmodbus under examples/libmodbus_tests, and how the other
-- programs under examples set up the port and read their arguments, which is input and
-- output. Classes and headers that the sources name and the repository lacks, as BitControl.h, are left out.
-- What a read leaves in the response is treated up to 125 registers, the limit of the protocol, and from
-- 127 registers on, which the response has no room for. With 126 it has room for them, but not for the CRC.
pub mod ByteFields
pub mod Common
pub mod ConnectedDevice
pub mod DataCommand
pub mod DataStores
pub mod Exchange
pub mod External
pub mod Linux
pub mod MappedStore
pub mod Maps
pub mod Modbus
pub mod ModbusRtu
pub mod RegisterControl
pub mod TestMaster
pub mod Utilities
pub mod View
pub mod Witnesses
