-- ===== src/DataStores/Updating/NewData.antt =====
-- include/Modbus/DataStores/RegisterDataStore.h: what `new_data_available` reports after a write and
-- after `clear_new_data_flags`.
use modbus_basic.Common.{
  ℕ, zero, suc, ◌%◌, ◌-◌, ◌≤◌, ◌<◌, ◌≡◌, refl, Bool, true, false, List, [], ◌∷◌, ◌++◌, ok, ◌>>=◌,
  arith, length, set, take, drop, replicate, length-set, take-set_above,
}
use modbus_basic.View.Laws.{store_lem}
use modbus_basic.DataStores.Updating.{
  UpdatingRegisterDataStore, set_register_callback, new_data_available, clear_new_data_flags,
  any_of, is_true,
}

any_of-set :
    (n : ℕ) (flags : List Bool) (a : ℕ)
    → a < n
    → a < length flags
    → any_of is_true (take n (set flags a true)) ≡ true
unfolding any_of
any_of-set zero flags a h k = absurd (omega arith)
any_of-set (suc n) [] a h k = absurd (omega arith)
any_of-set (suc n) (f ∷ fs) zero h k = refl
any_of-set (suc n) (f ∷ fs) (suc a) h k =
    ground (arith, any_of-set n fs a (omega arith) (omega arith))

any_of-replicate :
    (n : ℕ) (rest : List Bool) → any_of is_true (take n (replicate n false ++ rest)) ≡ false
unfolding any_of
any_of-replicate zero rest = refl
any_of-replicate (suc n) rest = any_of-replicate n rest

length-cleared :
    (n : ℕ) (flags : List Bool)
    → length flags ≡ suc n
    → length (replicate n false ++ drop n flags) ≡ suc n
length-cleared zero flags h = h
length-cleared (suc n) [] h = absurd (omega arith)
length-cleared (suc n) (f ∷ fs) h = omega (arith, length-cleared n fs (omega arith))

-- In a store of `n + 1` flags, all within 16-bit addresses, a single write to one of the first `n`
-- registers is reported as new data, one to the last register leaves what is reported as it was,
-- and after the flags are cleared no new data is reported.
pub new_data_lem :
    (s : UpdatingRegisterDataStore) (n value : ℕ)
    → length s.flags ≡ suc n
    → suc n ≤ 65536
    → ((a : ℕ)
        → a < n
        → (do written ← set_register_callback s a value; new_data_available written) ≡ ok true)
      × ((do written ← set_register_callback s n value; new_data_available written)
          ≡ new_data_available s)
      × ((do cleared ← clear_new_data_flags s; new_data_available cleared) ≡ ok false)
unfolding set_register_callback new_data_available clear_new_data_flags
new_data_lem s n value e w = (
  λ a h.
      (let same : a % 65536 - 0 ≡ a = omega arith in
        rw (
          same,
          store_lem {0} s.flags a true (omega arith),
          length-set {0} s.flags a true,
          e,
          any_of-set n s.flags a h (omega arith),
        )),
  (let same : n % 65536 - 0 ≡ n = omega arith in
      rw (
        same,
        store_lem {0} s.flags n true (omega arith),
        length-set {0} s.flags n true,
        e,
        take-set_above {0} n s.flags n true (omega arith),
      )),
  rw (e, length-cleared n s.flags e, any_of-replicate n (drop n s.flags)),
)
