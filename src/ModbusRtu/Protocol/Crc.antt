-- ===== src/ModbusRtu/Protocol/Crc.antt =====
-- include/Modbus/ModbusRtu/ModbusRtuProtocol.h: where the CRC of a packet stands, and what its check
-- compares.
use modbus_basic.Common.{
  ℕ, suc, ◌+◌, ◌*◌, ◌/◌, ◌%◌, ◌≤◌, ◌<◌, ◌≡◌, List, [], ◌∷◌, ◌++◌, true, ok, ◌==◌, arith, length,
  get_or, set, range, IsByte, All, assert-true, le→leb, get_or-set_self, get_or-set_ne,
  range-set_outside, length-set, bytes_of_word, set-IsByte, ap, ◌∙◌, ==_refl, sub_size, range_two,
  inr,
}
use native.Mathlib.Nat.{zero-add}
use modbus_basic.External.{External, IsExternal}
use modbus_basic.View.{View, IsInside}
use modbus_basic.View.Laws.{load_range_lem, read_uint16_lem}
use modbus_basic.ModbusRtu.Protocol.{crc16, view_crc_is_valid}

module _ (x : External) where
  -- A packet on the wire: its bytes, then their CRC, high byte first.
  abbrev pub with_crc : List ℕ → List ℕ
  with_crc bytes =
      bytes ++ (x.utilities_crc16 bytes / 256 % 256 ∷ x.utilities_crc16 bytes % 256 ∷ [])

  pub crc16_lem :
      (v : View) (n : ℕ)
      → IsInside v
      → n ≤ v.size
      → crc16 x v n ≡ ok (x.utilities_crc16 (range v.storage v.start n))
  unfolding crc16
  crc16_lem v n w h =
      rw (le→leb n v.size h, assert-true, load_range_lem v.storage v.start n (omega arith))

  -- The array with the CRC of its first `n` bytes behind them.
  abbrev pub set_crc : List ℕ → ℕ → List ℕ
  set_crc storage n =
      let c = x.utilities_crc16 (range storage 0 n) in
      set (set storage n (c / 256 % 256)) (suc n) (c % 256)

  pub length-set_crc : (storage : List ℕ) (n : ℕ) → length (set_crc storage n) ≡ length storage
  length-set_crc storage n = omega (
    arith,
    length-set {0} storage n (x.utilities_crc16 (range storage 0 n) / 256 % 256),
    length-set {0} (set storage n (x.utilities_crc16 (range storage 0 n) / 256 % 256)) (suc n)
        (x.utilities_crc16 (range storage 0 n) % 256),
  )

  pub range-set_crc_below :
      (storage : List ℕ) (n : ℕ) → range (set_crc storage n) 0 n ≡ range storage 0 n
  range-set_crc_below storage n =
      range-set_outside _ (suc n) _ 0 n (inr (omega arith))
      ∙ range-set_outside storage n _ 0 n (inr (omega arith))

  -- With it the first `n + 2` bytes are a packet on the wire.
  pub range-set_crc :
      (storage : List ℕ) (n : ℕ)
      → n + 2 ≤ length storage
      → range (set_crc storage n) 0 (n + 2) ≡ with_crc (range storage 0 n)
  range-set_crc storage n h =
      range_two (set_crc storage n) n
      ∙ rw (
        range-set_crc_below storage n,
        get_or-set_ne (set storage n (c / 256 % 256)) (suc n) n (c % 256) 0 (omega arith),
        get_or-set_self storage n (c / 256 % 256) 0 (omega arith),
        get_or-set_self (set storage n (c / 256 % 256)) (suc n) (c % 256) 0
            (omega (arith, length-set {0} storage n (c / 256 % 256))),
      )
    where
      c : ℕ
      c = x.utilities_crc16 (range storage 0 n)

  module _ (laws : IsExternal x) where
    -- The check of a packet of at least two bytes compares the word that its last two bytes hold with
    -- the CRC of the bytes before them.
    pub view_crc_is_valid_lem :
        (storage : List ℕ) (n : ℕ)
        → n + 2 ≤ length storage
        → n + 2 < 65536
        → All IsByte storage
        → view_crc_is_valid x (record { storage = storage; start = 0; size = n + 2 })
          ≡ ok (
              get_or storage n 0 * 256 + get_or storage (suc n) 0
              == x.utilities_crc16 (range storage 0 n))
    unfolding view_crc_is_valid
    view_crc_is_valid_lem storage n h small bytes = rw (
      last,
      read_uint16_lem x laws view n (omega arith) (omega arith) bytes,
      crc16_lem view n (omega arith) (omega arith),
      zero-add,
      behind,
    )
      where
        view : View
        view = record { storage = storage; start = 0; size = n + 2 }

        last : sub_size (n + 2) 2 ≡ n
        last = omega arith

        behind : n + 1 ≡ suc n
        behind = omega arith

    -- The check accepts an array whose bytes behind the first `n` were set to the CRC of those.
    pub view_crc_is_valid-set_crc :
        (storage : List ℕ) (n : ℕ)
        → n + 2 ≤ length storage
        → n + 2 < 65536
        → All IsByte storage
        → view_crc_is_valid x (record { storage = set_crc storage n; start = 0; size = n + 2 })
          ≡ ok true
    view_crc_is_valid-set_crc storage n h small bytes =
        view_crc_is_valid_lem (set_crc storage n) n (omega (arith, length-set_crc storage n)) small
          (set-IsByte _ (suc n) _ (set-IsByte storage n _ bytes (omega arith)) (omega arith))
        ∙ ap ok (
            rw (
              get_or-set_ne (set storage n (c / 256 % 256)) (suc n) n (c % 256) 0 (omega arith),
              get_or-set_self storage n (c / 256 % 256) 0 (omega arith),
              get_or-set_self (set storage n (c / 256 % 256)) (suc n) (c % 256) 0
                  (omega (arith, length-set {0} storage n (c / 256 % 256))),
              range-set_crc_below storage n,
              bytes_of_word c (laws.crc_word _),
              ==_refl c,
            ))
      where
        c : ℕ
        c = x.utilities_crc16 (range storage 0 n)
