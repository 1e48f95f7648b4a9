-- ===== src/Linux/Serial.antt =====
-- examples/posix/PosixSerial.h: UartController, between the port and two ring buffers.
pub mod Loops
use modbus_basic.Common.{
  ℕ, zero, suc, ◌+◌, ◌≤◌, ◌<◌, ◌≡◌, List, [], ◌∷◌, ◌++◌, Bool, true, false, Option, none, some,
  Result, ok, err, out_of_fuel, length,
}

-- What it uses of RingBuffer and IODevice, submodules whose text is not in the repository, and of the
-- system: `isEmpty`, `pop` and `insert` of a buffer, `rxEmpty`, `read` of one byte and `write` of the
-- device that has the two buffers, and `::read` and `::write` of one byte on the connection.
pub record Device (B P : Type 0) : Type 0 where
  pub is_empty : B → Bool
  pub pop : B → ℕ × B
  pub insert : B → ℕ → B
  pub rx_empty : B → Bool
  pub read_one : B → ℕ × B
  pub write_all : B → List ℕ → B
  pub read_port : P → Option ℕ × P
  pub write_port : P → ℕ → P

abbrev pub is_nil : List ℕ → Bool
is_nil [] = true
is_nil (b ∷ bs) = false

-- What it relies on: a buffer holds bytes in their order, as long as there is room for them, and the port
-- hands over the bytes that wait there and takes those that are sent.
pub record IsDevice {B P : Type 0} (d : Device B P) : Type 0 where
  pub contents : B → List ℕ
  pub room : ℕ
  pub waiting : P → List ℕ
  pub line : P → List ℕ
  pub empty : (b : B) → d.is_empty b ≡ is_nil (contents b)
  pub first :
      (b : B) (a : ℕ) (as' : List ℕ)
      → contents b ≡ a ∷ as'
      → ((d.pop b).0 ≡ a) × (contents (d.pop b).1 ≡ as')
  pub last :
      (b : B) (a : ℕ)
      → length (contents b) < room
      → contents (d.insert b a) ≡ contents b ++ (a ∷ [])
  pub unread : (b : B) → d.rx_empty b ≡ is_nil (contents b)
  pub next :
      (b : B) (a : ℕ) (as' : List ℕ)
      → contents b ≡ a ∷ as'
      → ((d.read_one b).0 ≡ a) × (contents (d.read_one b).1 ≡ as')
  pub queued :
      (b : B) (bs : List ℕ)
      → length (contents b) + length bs ≤ room
      → contents (d.write_all b bs) ≡ contents b ++ bs
  pub silent : (p : P) → waiting p ≡ [] → d.read_port p ≡ (none, p)
  pub heard :
      (p : P) (a : ℕ) (as' : List ℕ)
      → waiting p ≡ a ∷ as'
      → ((d.read_port p).0 ≡ some a)
        × (waiting (d.read_port p).1 ≡ as')
        × (line (d.read_port p).1 ≡ line p)
  pub said :
      (p : P) (a : ℕ)
      → (line (d.write_port p a) ≡ line p ++ (a ∷ [])) × (waiting (d.write_port p a) ≡ waiting p)

-- `class UartController`
pub record UartController (B P : Type 0) : Type 0 where
  pub connection : P
  pub rxbuff : B
  pub txbuff : B

module _ {B P : Type 0} (d : Device B P) where
  -- `SendTxBuff`, with `cnt` bytes sent already. The loop ends by its test, within the fuel.
  unfoldable pub send_from : ℕ → ℕ → UartController B P → Result (ℕ × UartController B P)
  send_from zero cnt u = err out_of_fuel
  send_from (suc fuel) cnt u = elim (d.is_empty u.txbuff) [
    | true ↦ ok (cnt, u)
    | false ↦ send_from fuel (cnt + 1) (record u {
      txbuff = (d.pop u.txbuff).1;
      connection = d.write_port u.connection (d.pop u.txbuff).0;
    })
  ]

  unfoldable pub send_tx_buff : ℕ → UartController B P → Result (ℕ × UartController B P)
  send_tx_buff fuel u = send_from fuel 0 u

  -- `ReadIntoRxBuff`, likewise.
  unfoldable pub read_from : ℕ → ℕ → UartController B P → Result (ℕ × UartController B P)
  read_from zero cnt u = err out_of_fuel
  read_from (suc fuel) cnt u = elim ((d.read_port u.connection).0) [
    | none ↦ ok (cnt, record u { connection = (d.read_port u.connection).1 })
    | some a ↦
        read_from fuel (cnt + 1)
          (record u { connection = (d.read_port u.connection).1; rxbuff = d.insert u.rxbuff a })
  ]

  unfoldable pub read_into_rx_buff : ℕ → UartController B P → Result (ℕ × UartController B P)
  read_into_rx_buff fuel u = read_from fuel 0 u
