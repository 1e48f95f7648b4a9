-- ===== src/Exchange/Arrival.antt =====
-- include/Modbus/ModbusRtu: a request's packet in the frame that the slave received.
use modbus_basic.Common.{
  ℕ, suc, ◌+◌, ◌*◌, ◌≤◌, ◌<◌, ◌≡◌, refl, List, [], ◌∷◌, ◌++◌, true, arith, length, get_or, words_at,
  words_at-eq, get_or-append_left, get_or-write_at_inside, length-write_at, write_at-IsByte, IsByte,
  IsWord, All, ◌∙◌, ap₂, bytes_of_word, encode_words, encode_words-IsByte, length-encode_words, max,
}
use modbus_basic.External.{External, IsExternal}
use modbus_basic.View.{View, IsInside}
use modbus_basic.Modbus.Function.{
  code, get_function, function_code_is_valid, code_in, first_with_code,
}
use modbus_basic.Modbus.Frame.{Frame}
use modbus_basic.RegisterControl.HoldingController.Runs.{word, IsPayload}
use modbus_basic.ModbusRtu.ReadContext.{calculate_meta_data_bytes_remaining}
use modbus_basic.ModbusRtu.ReadContext.Receive.{bytes_behind}
use modbus_basic.ModbusRtu.Protocol.Received.{with_trailer, received, trailer_lem, append-IsByte}
use modbus_basic.Exchange.{
  Request, IsRequest, function_of, head_of, rest_of, read_holding, read_input, write_single,
  write_multiple,
}

-- A window of 256 bytes in memory.
pub record IsWindow (v : View) : Type 0 where
  pub whole : v.size ≡ 256
  pub inside : IsInside v
  pub bytes : All IsByte v.storage

-- The payload of a request.
abbrev pub body_of : Request → List ℕ
body_of q = head_of q ++ rest_of q

pub function_code_is_valid-of : (q : Request) → function_code_is_valid (code (function_of q)) ≡ true
unfolding function_code_is_valid code_in
function_code_is_valid-of (read_holding address count) = refl
function_code_is_valid-of (read_input address count) = refl
function_code_is_valid-of (write_single address value) = refl
function_code_is_valid-of (write_multiple address values) = refl

pub get_function-of : (q : Request) → get_function (code (function_of q)) ≡ function_of q
unfolding get_function first_with_code
get_function-of (read_holding address count) = refl
get_function-of (read_input address count) = refl
get_function-of (write_single address value) = refl
get_function-of (write_multiple address values) = refl

-- The two parts of the payload have the lengths that the receiver counts on.
pub length-head_of :
    (q : Request) → length (head_of q) ≡ max 1 (calculate_meta_data_bytes_remaining (function_of q))
length-head_of (read_holding address count) = refl
length-head_of (read_input address count) = refl
length-head_of (write_single address value) = refl
length-head_of (write_multiple address values) = refl

pub length-rest_of : (q : Request) → length (rest_of q) ≡ bytes_behind (function_of q) (head_of q)
length-rest_of (read_holding address count) = refl
length-rest_of (read_input address count) = refl
length-rest_of (write_single address value) = refl
length-rest_of (write_multiple address values) = length-encode_words values

pub length-body_of :
    (q : Request) → IsRequest q → (4 ≤ length (body_of q)) × (length (body_of q) ≤ 251)
length-body_of (read_holding address count) h = (omega arith, omega arith)
length-body_of (read_input address count) h = (omega arith, omega arith)
length-body_of (write_single address value) h = (omega arith, omega arith)
length-body_of (write_multiple address values) h =
    (omega (arith, length-encode_words values), omega (arith, length-encode_words values))

pub body_of-IsByte : (q : Request) → IsRequest q → All IsByte (body_of q)
body_of-IsByte (read_holding address count) h = encode_words-IsByte (address ∷ count ∷ [])
body_of-IsByte (read_input address count) h = encode_words-IsByte (address ∷ count ∷ [])
body_of-IsByte (write_single address value) h = encode_words-IsByte (address ∷ value ∷ [])
body_of-IsByte (write_multiple address values) h = (
  omega arith,
  (omega arith, (omega arith, (omega arith, (omega arith, encode_words-IsByte values)))),
)

-- The frame with a request in it, and its window, with the payload and the CRC.
abbrev pub frame_of : External → View → ℕ → Request → Frame
frame_of x w a q = received x w a (function_of q) (body_of q)

abbrev pub arrived : External → View → ℕ → Request → View
arrived x w a q = (frame_of x w a q).data_array

module _ (x : External) (laws : IsExternal x) (w : View) (window : IsWindow w) (a : ℕ)
    (byte : IsByte a) (q : Request) (valid : IsRequest q) where
  packet : List ℕ
  packet = with_trailer x a (function_of q) (body_of q)

  abbrev here : View
  here = arrived x w a q

  length-packet : length packet ≡ length (body_of q) + 2
  unfolding packet
  length-packet = (trailer_lem (body_of q) _ _).0

  pub arrived-byte :
      (i : ℕ)
      → i < length (body_of q)
      → get_or here.storage (w.start + i) 0 ≡ get_or (body_of q) i 0
  unfolding packet
  arrived-byte i h =
      get_or-write_at_inside w.storage w.start packet i (omega (arith, length-packet))
        (omega (arith, length-packet, length-body_of q valid, window.inside, window.whole))
      ∙ get_or-append_left (body_of q) _ i h

  -- Its words are those of the payload.
  pub word-arrived :
      (i : ℕ)
      → i + 1 < length (body_of q)
      → word here i ≡ get_or (body_of q) i 0 * 256 + get_or (body_of q) (suc i) 0
  word-arrived i h =
      ap₂ (λ hi lo. hi * 256 + lo) (arrived-byte i (omega arith))
        (let next : w.start + i + 1 ≡ w.start + suc i = omega arith in
          rw next (arrived-byte (suc i) (omega arith)))

  pub arrived-IsPayload : (n : ℕ) → n ≤ 256 → IsPayload n here
  unfolding packet
  arrived-IsPayload n h = record {
    inside = omega (arith, length-write_at w.storage w.start packet, window.inside);
    room = omega (arith, window.whole);
    bytes =
        write_at-IsByte w.storage w.start packet window.bytes
          (append-IsByte (body_of q) _ _ (body_of-IsByte q valid) (omega arith) (omega arith));
  }

  -- A request of two words has them as the first two of the payload.
  pub two_words :
      (u v : ℕ)
      → IsWord u
      → IsWord v
      → 4 ≤ length (body_of q)
      → ((i : ℕ) → i < 4 → get_or (body_of q) i 0 ≡ get_or (encode_words (u ∷ v ∷ [])) i 0)
      → (word here 0 ≡ u) × (word here 2 ≡ v)
  two_words u v hu hv long same = (
    word-arrived 0 (omega arith)
        ∙ ap₂ (λ hi lo. hi * 256 + lo) (same 0 (omega arith)) (same 1 (omega arith))
        ∙ bytes_of_word u hu,
    word-arrived 2 (omega arith)
        ∙ ap₂ (λ hi lo. hi * 256 + lo) (same 2 (omega arith)) (same 3 (omega arith))
        ∙ bytes_of_word v hv,
  )

  -- The words behind the first five bytes.
  pub words_at-arrived :
      (n : ℕ)
      → 5 + 2 * n ≤ length (body_of q)
      → words_at here.storage (w.start + 5) n ≡ words_at (body_of q) 5 n
  words_at-arrived n h = words_at-eq here.storage (body_of q) (w.start + 5) 5 n λ k p.
      (let place : w.start + 5 + k ≡ w.start + (5 + k) = omega arith in
        rw place (arrived-byte (5 + k) (omega arith)))
