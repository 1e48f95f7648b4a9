-- ===== src/ModbusRtu/ReadContext/Clean.antt =====
-- include/Modbus/ModbusRtu/ModbusRtuProtocol.h: what the frame holds that the receiver fills, whatever comes in.
use modbus_basic.Common.{
  ℕ, ◌+◌, ◌<◌, ◌≡◌, List, [], ◌∷◌, Result, ok, err, ◌>>=◌, arith, IsByte, set-IsByte, length-set,
  All, Bool-cases, inl, inr, subst, ℤ, nonpos, ◌==◌, pred_ℤ,
}
use modbus_basic.External.{External, IsExternal}
use modbus_basic.Modbus.Function.{
  Function, get_function, first_with_code, get_valid_functions, function_code_is_valid, code,
}
use modbus_basic.Modbus.Frame.{Frame}
use modbus_basic.ModbusRtu.ReadContext.{
  ReadContext, PacketState, start_data, dispatch, process_character, calculate_bytes_remaining,
}
use modbus_basic.ModbusRtu.ReadContext.Receive.{with_byte, push_lem}
use modbus_basic.ModbusRtu.Slave.Validate.{IsNamed}
use modbus_basic.Exchange.Arrival.{IsWindow}

-- A frame that holds bytes, over a window of 256 bytes in memory.
pub record IsClean (frame : Frame) : Type 0 where
  pub window : IsWindow frame.data_array
  pub byte : IsByte frame.address
  pub named : IsNamed frame.function

first_with_code-IsNamed :
    (n : ℕ) (other : Function) (fs : List Function)
    → IsNamed other
    → All IsNamed fs
    → IsNamed (first_with_code n other fs)
unfolding first_with_code
first_with_code-IsNamed n other [] h k = h
first_with_code-IsNamed n other (f ∷ fs) h k = elim (Bool-cases (n == code f)) [
  | inl same ↦ rw same k.0
  | inr next ↦ rw next (first_with_code-IsNamed n other fs h k.1)
]

-- What `GetFunction` finds is an enumerator.
pub get_function-IsNamed : (n : ℕ) → IsNamed (get_function n)
unfolding get_function
get_function-IsNamed n =
    first_with_code-IsNamed n Function.none get_valid_functions tt (omega arith)

with_byte-IsClean :
    (frame : Frame) (pt : ℕ) → IsByte pt → IsClean frame → IsClean (with_byte frame pt)
with_byte-IsClean frame pt b h = record {
  window = record {
    whole = h.window.whole;
    inside = omega (
      arith,
      h.window.inside,
      length-set {0} frame.data_array.storage (frame.data_array.start + frame.data_length) pt,
    );
    bytes =
        set-IsByte frame.data_array.storage (frame.data_array.start + frame.data_length) pt
          h.window.bytes b;
  };
  byte = h.byte;
  named = h.named;
}

-- What holds of the value of a run, if it has one.
abbrev Yields {ℓ κ} : {A : Type ℓ} → (A → Type κ) → Result A → Type κ
Yields P (ok value) = P value
Yields P (err fault) = Unit

yielded {ℓ κ} :
    {A : Type ℓ} (P : A → Type κ) (r : Result A) (value : A) → r ≡ ok value → Yields P r → P value
yielded P r value e h = subst (Yields P) e h

abbrev Cleans : Result (ReadContext × Frame) → Type 0
Cleans r = Yields (λ (next : ReadContext × Frame). IsClean next.1) r

counted-Cleans :
    (r : Result ℕ) (f : ℕ → ReadContext) (frame : Frame)
    → IsClean frame
    → Cleans (do n ← r; ok (f n, frame))
counted-Cleans (ok n) f frame h = h
counted-Cleans (err fault) f frame h = tt

module _ (x : External) (laws : IsExternal x) (frame : Frame) (pt : ℕ) (b : IsByte pt)
    (h : IsClean frame) (room : frame.data_length < frame.data_array.size) where
  dispatch-Cleans : (st : PacketState) (left : ℤ) → Cleans (dispatch x st left frame pt)
  unfolding dispatch
  dispatch-Cleans PacketState.address left = record { window = h.window; byte = b; named = h.named }
  dispatch-Cleans PacketState.function left = elim (Bool-cases (function_code_is_valid pt)) [
    | inl valid ↦
        rw valid (record { window = h.window; byte = h.byte; named = get_function-IsNamed pt })
    | inr bad ↦ rw bad h
  ]
  dispatch-Cleans PacketState.meta left =
      rw (push_lem x laws frame pt h.window.inside room) (elim (Bool-cases (nonpos left)) [
        | inl last ↦ rw last (
            counted-Cleans (calculate_bytes_remaining x (with_byte frame pt))
              (start_data x (with_byte frame pt)) (with_byte frame pt)
              (with_byte-IsClean frame pt b h))
        | inr more ↦ rw more (with_byte-IsClean frame pt b h)
      ])
  dispatch-Cleans PacketState.payload left =
      rw (push_lem x laws frame pt h.window.inside room) (with_byte-IsClean frame pt b h)
  dispatch-Cleans PacketState.done left = elim (Bool-cases x.ndebug) [
    | inl release ↦ rw release h
    | inr debug ↦ rw debug tt
  ]

  -- A byte that is taken leaves a frame of bytes, with the function of a valid code.
  pub process_character-IsClean :
      (ctx : ReadContext) (next : ReadContext × Frame)
      → process_character x ctx frame pt ≡ ok next
      → IsClean next.1
  unfolding process_character
  process_character-IsClean ctx next e =
      yielded (λ (next : ReadContext × Frame). IsClean next.1) _ next e
        (dispatch-Cleans ctx.state (pred_ℤ ctx.bytes_to_read))
