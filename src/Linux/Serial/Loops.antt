-- ===== src/Linux/Serial/Loops.antt =====
-- examples/posix/PosixSerial.h: the loops of UartController end, and what they move.
use modbus_basic.Common.{
  ℕ, zero, suc, ◌+◌, ◌≤◌, ◌<◌, ◌≡◌, refl, List, [], ◌∷◌, ◌++◌, ok, arith, length, length-append,
  append_assoc, append-nil, ◌∙◌, ap, sym,
}
use modbus_basic.Linux.Serial.{Device, IsDevice, UartController, send_from, read_from}

module _ {B P : Type 0} (d : Device B P) (laws : IsDevice d) where
  -- The transmit buffer `txs` has gone to the port, and the rest is as before.
  pub record IsSent (u u' : UartController B P) (txs : List ℕ) : Type 0 where
    pub flushed : laws.contents u'.txbuff ≡ []
    pub line : laws.line u'.connection ≡ laws.line u.connection ++ txs
    pub waiting : laws.waiting u'.connection ≡ laws.waiting u.connection
    pub unread : laws.contents u'.rxbuff ≡ laws.contents u.rxbuff

  -- `SendTxBuff` from a count on, with more fuel than there are bytes in the transmit buffer, ends.
  -- It has counted those bytes, sent them in order and left the buffer empty, and the receive
  -- buffer and the bytes that wait at the port are as before.
  pub send_from_lem :
      (txs : List ℕ) (fuel cnt : ℕ) (u : UartController B P)
      → laws.contents u.txbuff ≡ txs
      → length txs < fuel
      → (u' : UartController B P) × (send_from d fuel cnt u ≡ ok (cnt + length txs, u'))
        × IsSent u u' txs
  unfolding send_from
  send_from_lem txs zero cnt u e h = absurd (omega arith)
  send_from_lem [] (suc fuel) cnt u e h = (
    u,
    (let none_sent : cnt + 0 ≡ cnt = omega arith in
        rw (send_from, laws.empty u.txbuff, e, none_sent)),
    record {
      flushed = e;
      line = sym (append-nil (laws.line u.connection));
      waiting = refl;
      unread = refl;
    },
  )
  send_from_lem (a ∷ txs) (suc fuel) cnt u e h =
      let (same, rest) = laws.first u.txbuff a txs e in
      let (u', run, sent) =
        send_from_lem txs fuel (cnt + 1)
          (record u {
            txbuff = (d.pop u.txbuff).1;
            connection = d.write_port u.connection (d.pop u.txbuff).0;
          })
          rest (omega arith) in
      let count : cnt + suc (length txs) ≡ cnt + 1 + length txs = omega arith in
      (
        u',
        rw (send_from, laws.empty u.txbuff, e, count) run,
        record {
          flushed = sent.flushed;
          line =
              sent.line
              ∙ ap (λ l. l ++ txs)
                  ((laws.said u.connection (d.pop u.txbuff).0).0
                    ∙ ap (λ b. laws.line u.connection ++ (b ∷ [])) same)
              ∙ append_assoc (laws.line u.connection) (a ∷ []) txs;
          waiting = sent.waiting ∙ (laws.said u.connection (d.pop u.txbuff).0).1;
          unread = sent.unread;
        },
      )

  -- The bytes `ins` that waited at the port are in the receive buffer, and the rest is as before.
  pub record IsFilled (u u' : UartController B P) (ins : List ℕ) : Type 0 where
    pub filled : laws.contents u'.rxbuff ≡ laws.contents u.rxbuff ++ ins
    pub silent : laws.waiting u'.connection ≡ []
    pub line : laws.line u'.connection ≡ laws.line u.connection
    pub unsent : laws.contents u'.txbuff ≡ laws.contents u.txbuff

  -- `ReadIntoRxBuff` from a count on, with more fuel than there are bytes waiting at the port and
  -- room for them in the receive buffer, ends. It has counted those bytes and put them behind those
  -- in the buffer, none waits any more, and the transmit buffer and what was sent are as before.
  pub read_from_lem :
      (ins : List ℕ) (fuel cnt : ℕ) (u : UartController B P)
      → laws.waiting u.connection ≡ ins
      → length ins < fuel
      → length (laws.contents u.rxbuff) + length ins ≤ laws.room
      → (u' : UartController B P) × (read_from d fuel cnt u ≡ ok (cnt + length ins, u'))
        × IsFilled u u' ins
  unfolding read_from
  read_from_lem ins zero cnt u e h k = absurd (omega arith)
  read_from_lem [] (suc fuel) cnt u e h k = (
    u,
    (let none_read : cnt + 0 ≡ cnt = omega arith in
        rw (read_from, laws.silent u.connection e, none_read, laws.silent u.connection e)),
    record {
      filled = sym (append-nil (laws.contents u.rxbuff));
      silent = e;
      line = refl;
      unsent = refl;
    },
  )
  read_from_lem (a ∷ ins) (suc fuel) cnt u e h k =
      let (same, rest, line) = laws.heard u.connection a ins e in
      let put : laws.contents (d.insert u.rxbuff a) ≡ laws.contents u.rxbuff ++ (a ∷ []) =
        laws.last u.rxbuff a (omega arith) in
      let (u', run, in_rx) =
        read_from_lem ins fuel (cnt + 1)
          (record u { connection = (d.read_port u.connection).1; rxbuff = d.insert u.rxbuff a })
          rest (omega arith)
          (rw put (omega (arith, length-append (laws.contents u.rxbuff) (a ∷ [])))) in
      let count : cnt + suc (length ins) ≡ cnt + 1 + length ins = omega arith in
      (
        u',
        rw (read_from, same, count) run,
        record {
          filled =
              in_rx.filled
              ∙ ap (λ l. l ++ ins) put
              ∙ append_assoc (laws.contents u.rxbuff) (a ∷ []) ins;
          silent = in_rx.silent;
          line = in_rx.line ∙ line;
          unsent = in_rx.unsent;
        },
      )
