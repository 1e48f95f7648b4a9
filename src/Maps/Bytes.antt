-- ===== src/Maps/Bytes.antt =====
-- examples/ConnectedDevice/common: the bytes of fields, most significant first, and the copying loops.
use modbus_basic.Common.{
  range-whole, ℕ, zero, suc, ◌+◌, ◌*◌, ◌/◌, ◌%◌, ◌≤◌, ◌<◌, ◌≡◌, refl, List, [], ◌∷◌, ◌++◌, ok, err,
  out_of_bounds, length, range, write_at, set, get_or, All, IsByte, arith, min, append-nil,
  Bool-cases, inl, inr, ltb, ltb→lt, lt→ltb, range-IsByte, length-set, length-range,
  length-write_at, ◌∙◌, ap, ap₂, subst, sym, range-write_at,
}
use modbus_basic.View.{View, IsInside}
use modbus_basic.View.Laws.{load_lem, store_lem, store_outside}
use modbus_basic.Maps.{msb_value, msb_bytes, copy_bytes, copy_out, copy_in}

-- The digits of the number that bytes make are the bytes.
msb_bytes-value :
    (bs : List ℕ) (k acc : ℕ) (rest : List ℕ)
    → All IsByte bs
    → msb_bytes (length bs + k) (msb_value acc bs) rest ≡ msb_bytes k acc (bs ++ rest)
msb_bytes-value [] k acc rest h =
    let same : 0 + k ≡ k = omega arith in ap (λ w. msb_bytes w acc rest) same
msb_bytes-value (b ∷ bs) k acc rest h =
    let quotient : (acc * 256 + b) / 256 ≡ acc = omega (arith, h.0) in
    let remainder : (acc * 256 + b) % 256 ≡ b = omega (arith, h.0) in
    subst (λ w. msb_bytes w (msb_value (acc * 256 + b) bs) rest ≡ msb_bytes k acc (b ∷ bs ++ rest))
      more
      (msb_bytes-value bs (suc k) (acc * 256 + b) rest h.1
        ∙ ap₂ (λ q r. msb_bytes k q (r ∷ bs ++ rest)) quotient remainder)
  where
    more : length bs + suc k ≡ suc (length bs) + k
    more = omega arith

msb_bytes-msb_value : (bs : List ℕ) → All IsByte bs → msb_bytes (length bs) (msb_value 0 bs) [] ≡ bs
msb_bytes-msb_value bs h =
    subst (λ w. msb_bytes w (msb_value 0 bs) [] ≡ bs) none_more
      (msb_bytes-value bs 0 0 [] h ∙ append-nil bs)
  where
    none_more : length bs + 0 ≡ length bs
    none_more = omega arith

-- The bytes of a view, through the number that they make.
pub msb_bytes-view :
    (n : ℕ) (v : View)
    → v.size ≡ n
    → All IsByte v.storage
    → msb_bytes n (msb_value 0 (range v.storage v.start v.size)) [] ≡ range v.storage v.start v.size
msb_bytes-view n v e h =
    subst (λ w. msb_bytes w (msb_value 0 bytes) [] ≡ bytes)
      (length-range v.storage v.start v.size ∙ e)
      (msb_bytes-msb_value bytes (range-IsByte v.storage v.start v.size h))
  where
    bytes : List ℕ
    bytes = range v.storage v.start v.size

pub length-msb_bytes : (w n : ℕ) (rest : List ℕ) → length (msb_bytes w n rest) ≡ w + length rest
length-msb_bytes zero n rest = omega arith
length-msb_bytes (suc w) n rest = omega (arith, length-msb_bytes w (n / 256) (n % 256 ∷ rest))

-- A copy within both arrays.
pub copy_bytes_lem :
    (from : List ℕ) (i : ℕ) (to : List ℕ) (j n : ℕ)
    → i + n ≤ length from
    → j + n ≤ length to
    → copy_bytes from i to j n ≡ ok (write_at to j (range from i n))
unfolding copy_bytes
copy_bytes_lem from i to j zero h k = refl
copy_bytes_lem from i to j (suc n) h k =
    rw (load_lem from i (omega arith), store_lem to j (get_or from i 0) (omega arith))
      (copy_bytes_lem from (suc i) (set to j (get_or from i 0)) (suc j) n (omega arith)
        (omega (arith, length-set to j (get_or from i 0))))

-- A copy beyond the target.
pub copy_bytes-beyond :
    (from : List ℕ) (i : ℕ) (to : List ℕ) (j n : ℕ)
    → i + n ≤ length from
    → length to < j + n
    → j ≤ length to
    → copy_bytes from i to j n ≡ err out_of_bounds
unfolding copy_bytes
copy_bytes-beyond from i to j zero h k l = absurd (omega arith)
copy_bytes-beyond from i to j (suc n) h k l =
    rw (load_lem from i (omega arith)) (elim (Bool-cases (ltb j (length to))) [
      | inl inside ↦
          let below : j < length to = ltb→lt j (length to) inside in
          rw (store_lem to j (get_or from i 0) below) (
            copy_bytes-beyond from (suc i) (set to j (get_or from i 0)) (suc j) n (omega arith)
              (omega (arith, length-set to j (get_or from i 0)))
              (omega (arith, length-set to j (get_or from i 0))))
      | inr outside ↦
          rw (store_outside to j (get_or from i 0) (ground (arith, outside, lt→ltb j (length to))))
            refl
    ])

-- The loops on an array of the size that is asked for.
pub copy_out_lem :
    (array : List ℕ) (v : View)
    → IsInside v
    → length array ≤ v.size
    → copy_out array v ≡ ok (record v { storage = write_at v.storage v.start array })
unfolding copy_out
copy_out_lem array v w h =
    rw
      (
        same,
        copy_bytes_lem array 0 v.storage v.start (length array) (omega arith) (omega (arith, w)),
        range-whole array,
      )
      refl
  where
    same : min (length array) v.size ≡ length array
    same = omega (arith, h)

pub copy_in_lem :
    (array : List ℕ) (v : View)
    → IsInside v
    → v.size ≡ length array
    → copy_in array v ≡ ok (range v.storage v.start v.size)
unfolding copy_in
copy_in_lem array v w h =
    rw (same, copy_bytes_lem v.storage v.start array 0 v.size (omega (arith, w)) (omega (arith, h)))
      (ap ok whole)
  where
    bytes : List ℕ
    bytes = range v.storage v.start v.size

    same : min (length array) v.size ≡ v.size
    same = omega (arith, h)

    many : length (write_at array 0 bytes) ≡ length bytes
    many = omega (arith, h, length-write_at array 0 bytes, length-range v.storage v.start v.size)

    whole : write_at array 0 bytes ≡ bytes
    whole =
        sym (range-whole (write_at array 0 bytes))
        ∙ ap (λ n. range (write_at array 0 bytes) 0 n) many
        ∙ range-write_at array 0 bytes (omega (arith, h, length-range v.storage v.start v.size))
