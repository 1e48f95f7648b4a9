-- ===== src/Exchange/Reading.antt =====
-- include/Modbus/RegisterControl.h: a slave's reply, as the readers of responses see it on the master's side.
use modbus_basic.Common.{
  ℕ, ◌+◌, ◌*◌, ◌/◌, ◌%◌, ◌≤◌, ◌<◌, ◌≡◌, List, true, ok, length, words_at, All, IsByte, IsWord,
  arith, bytes_of_word, words_at-behind_three, range-append_left, ==_refl, ap, ◌∙◌, subst, sym,
}
use modbus_basic.External.{External, IsExternal}
use modbus_basic.View.{View, view_of, view_get, read_uint16}
use modbus_basic.View.Laws.{view_get_lem, read_uint16_lem}
use modbus_basic.Modbus.Function.{code, exception_code, get_error_function}
use modbus_basic.RegisterControl.WriteSingle
use modbus_basic.RegisterControl.ReadMultiple
use modbus_basic.RegisterControl.WriteMultiple
use modbus_basic.ModbusRtu.Protocol.{view_crc_is_valid}
use modbus_basic.ModbusRtu.Protocol.Crc.{with_crc, view_crc_is_valid_lem}
use modbus_basic.ModbusRtu.Protocol.Received.{trailer_lem, append-IsByte}
use modbus_basic.Exchange.{Request, Reply, refused, values_read, written, reply_of, function_of}

-- What the readers of a response find in a reply: the function with the error bit and the exception, the
-- byte count and the registers behind it, or the address and the value of a write.
abbrev pub Reads : External → Request → Reply → View → Type 0
Reads x q (refused e) v =
    (view_get x v 1 ≡ ok (code (get_error_function (function_of q))))
    × (view_get x v 2 ≡ ok (exception_code e))
Reads x q (values_read values) v =
    (view_get x v 1 ≡ ok (code (function_of q)))
    × (ReadMultiple.read_response_byte_count x v ≡ ok (2 * length values))
    × (words_at v.storage (v.start + 3) (length values) ≡ values)
Reads x q (written address value) v =
    (view_get x v 1 ≡ ok (code (function_of q)))
    × (WriteSingle.read_response_address_start x v ≡ ok address)
    × (WriteSingle.read_response_setting x v ≡ ok value)
    × (WriteMultiple.read_response_address_start x v ≡ ok address)
    × (WriteMultiple.read_response_register_count x v ≡ ok value)

-- A reply whose numbers are 16-bit words and that fits into a packet.
abbrev pub IsReply : Reply → Type 0
IsReply (refused e) = IsByte (exception_code e)
IsReply (values_read values) = All IsWord values × (length values ≤ 125)
IsReply (written address value) = IsWord address × IsWord value

module _ (x : External) (laws : IsExternal x) where
  -- Bytes with their CRC behind them pass the check.
  pub with_crc-valid :
      (bs : List ℕ)
      → All IsByte bs
      → length bs + 2 < 65536
      → view_crc_is_valid x (view_of (with_crc x bs)) ≡ ok true
  with_crc-valid bs bytes small =
      let (count, high, low) =
        trailer_lem bs (x.utilities_crc16 bs / 256 % 256) (x.utilities_crc16 bs % 256) in
      subst
        (λ n.
          view_crc_is_valid x (record { storage = with_crc x bs; start = 0; size = n }) ≡ ok true)
        (sym count)
        (view_crc_is_valid_lem x laws (with_crc x bs) (length bs) (omega (arith, count)) small
            (append-IsByte bs _ _ bytes (omega arith) (omega arith))
          ∙ ap ok (
              rw (
                high,
                low,
                range-append_left bs,
                bytes_of_word (x.utilities_crc16 bs) (laws.crc_word bs),
                ==_refl (x.utilities_crc16 bs),
              )))

  pub reply-Reads :
      (a : ℕ) (q : Request) (reply : Reply)
      → IsReply reply
      → All IsByte (with_crc x (reply_of a q reply))
      → Reads x q reply (view_of (with_crc x (reply_of a q reply)))
  unfolding ReadMultiple.read_response_byte_count WriteSingle.read_response_address_start
      WriteSingle.read_response_setting WriteMultiple.read_response_address_start
      WriteMultiple.read_response_register_count
  reply-Reads a q (refused e) h bytes = (
    view_get_lem x laws (view_of (with_crc x (reply_of a q (refused e)))) 1 (omega arith)
        (omega arith),
    view_get_lem x laws (view_of (with_crc x (reply_of a q (refused e)))) 2 (omega arith)
        (omega arith),
  )
  reply-Reads a q (values_read values) h bytes =
      let v : View = view_of (with_crc x (reply_of a q (values_read values))) in
      (
        view_get_lem x laws v 1 (omega arith) (omega arith),
        view_get_lem x laws v 2 (omega arith) (omega arith),
        words_at-behind_three a (code (function_of q)) (2 * length values) values _ h.0,
      )
  reply-Reads a q (written address value) h bytes =
      let v : View = view_of (with_crc x (reply_of a q (written address value))) in
      let first : read_uint16 x v 2 ≡ ok address =
        read_uint16_lem x laws v 2 (omega arith) (omega arith) bytes
        ∙ ap ok (bytes_of_word address h.0) in
      let second : read_uint16 x v 4 ≡ ok value =
        read_uint16_lem x laws v 4 (omega arith) (omega arith) bytes
        ∙ ap ok (bytes_of_word value h.1) in
      (view_get_lem x laws v 1 (omega arith) (omega arith), first, second, first, second)
