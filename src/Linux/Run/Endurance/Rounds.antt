-- ===== src/Linux/Run/Endurance/Rounds.antt =====
-- examples/LinuxSlave/source/LinuxSlave.h: rounds of `Run` on whatever bytes come in.
use modbus_basic.Common.{
  ℕ, ◌≤◌, ◌<◌, ◌≡◌, refl, List, [], ◌∷◌, ◌++◌, ok, ap, sym, subst, inl, inr, ◌⊎◌, All, IsByte,
}
use modbus_basic.External.{External, IsExternal}
use modbus_basic.DataStores.Updating.{register_store, updating_store}
use modbus_basic.ModbusRtu.Slave.Validate.{RegisterSlave}
use modbus_basic.ModbusRtu.Slave.Sound.{IsSound, Fits}
use modbus_basic.Linux.Serial.{Device, IsDevice}
use modbus_basic.Linux.Tools.{Timeval}
use modbus_basic.Linux.Run.{run, rounds}
use modbus_basic.Linux.Run.Steps.{io_lem}
use modbus_basic.Linux.Run.Endurance.{
  IsLong, Fits-or_IsLong, left_after, Runs, IsRunning, checked_lem, taken_lem,
}

left_none : (ts : List Timeval) → left_after ts [] ≡ []
left_none [] = refl
left_none (now ∷ ts) = refl

left_after-step :
    (now : Timeval) (ts : List Timeval) (ins : List ℕ)
    → left_after (now ∷ ts) ins ≡ left_after ts (left_after (now ∷ []) ins)
left_after-step now ts [] = sym (left_none ts)
left_after-step now ts (b ∷ ins) = refl

left_bytes :
    (now : Timeval) (ins : List ℕ) → All IsByte ins → All IsByte (left_after (now ∷ []) ins)
left_bytes now [] h = h
left_bytes now (b ∷ ins) h = h.1

module _ {B P : Type 0} (x : External) (laws : IsExternal x) (d : Device B P) (dl : IsDevice d)
    (roomy : 256 ≤ dl.room) (fuel : ℕ) (wide : dl.room < fuel) where
  round_lem :
      (now : Timeval) (l : Runs {B = B} {P = P} x laws d dl) (ins : List ℕ)
      → All IsByte ins
      → IsRunning x laws d dl l ins
      → Fits l.slave.base.ctx.state l.slave.base.framein
      → (l' : Runs {B = B} {P = P} x laws d dl) × (run x
            (updating_store x)
            (register_store x)
            d
            fuel
            now
            l
          ≡ ok l')
        × IsRunning x laws d dl l' (left_after (now ∷ []) ins)
  round_lem now l ins bytes h f =
      let (m, running, same, ready, flushed) =
        io_lem x laws d dl fuel now l l.slave ins h.outs wide h.at_round in
      let (c, checked, waits) =
        checked_lem x laws d dl roomy m ins h.outs (subst IsSound (sym same) h.sound)
          (subst (λ (s : RegisterSlave). Fits s.base.ctx.state s.base.framein) (sym same) f) ready
          flushed in
      let (l', took, runs) = taken_lem x laws d dl roomy now c ins bytes waits in
      (l', rw (running, checked, took) refl, runs)

  -- The rounds end with a sound slave, and each has taken a byte while there were any; or before
  -- one of them the slave has a header that announces too long a packet.
  abbrev pub Endures : List Timeval → Runs {B = B} {P = P} x laws d dl → List ℕ → Type 0
  Endures times l ins =
      ((l' : Runs {B = B} {P = P} x laws d dl) × (rounds x (updating_store x) (register_store x) d
            fuel times l
          ≡ ok l')
        × IsRunning x laws d dl l' (left_after times ins))
      ⊎ ((earlier later : List Timeval) × (l' : Runs {B = B} {P = P} x laws d dl) × (times
            ≡ earlier ++ later)
          × (rounds x (updating_store x) (register_store x) d fuel earlier l ≡ ok l')
          × IsRunning x laws d dl l' (left_after earlier ins)
          × IsLong l'.slave.base.ctx.state l'.slave.base.framein)

  later_lem :
      (now : Timeval) (times : List Timeval) (l l1 : Runs {B = B} {P = P} x laws d dl)
      (ins rest : List ℕ)
      → run x (updating_store x) (register_store x) d fuel now l ≡ ok l1
      → ((ts : List Timeval) → left_after (now ∷ ts) ins ≡ left_after ts rest)
      → Endures times l1 rest
      → Endures (now ∷ times) l ins
  unfolding rounds
  later_lem now times l l1 ins rest eq left (inl (l', ran, runs)) =
      inl (l', rw eq ran, rw (left times) runs)
  later_lem now times l l1 ins rest eq left (inr (earlier, later, l', parts, ran, runs, long)) =
      inr (
        now ∷ earlier,
        later,
        l',
        ap (λ ts. now ∷ ts) parts,
        rw eq ran,
        rw (left earlier) runs,
        long,
      )

  -- Rounds of `Run`, whatever bytes have come and whatever the times at which the rounds begin: either all
  -- of them end without a fault, and each has taken one byte while there were any; or some of them have,
  -- and then the slave holds a packet that announces more than 254 bytes of payload and CRC, or that is
  -- complete and asks to read more than 125 registers. Either way the slave that they leave is sound: its
  -- stores are within 16-bit addresses, with a flag for each holding register, its frame holds bytes and
  -- fits the receiver's state and count, and its response can be sent. It was so before, the buffers hold
  -- at least 256 bytes, the input and the bytes to send fit into them, and the fuel of the loops is more
  -- than what they hold.
  pub rounds-Endures :
      (times : List Timeval) (l : Runs {B = B} {P = P} x laws d dl) (ins : List ℕ)
      → All IsByte ins
      → IsRunning x laws d dl l ins
      → Endures times l ins
  unfolding rounds
  rounds-Endures [] l ins bytes h = inl (l, refl, h)
  rounds-Endures (now ∷ times) l ins bytes h =
      elim (Fits-or_IsLong l.slave.base.ctx.state l.slave.base.framein) [
        | inr long ↦ inr ([], now ∷ times, l, refl, refl, h, long)
        | inl f ↦
            (let (l1, eq, runs) = round_lem now l ins bytes h f in
              later_lem now times l l1 ins (left_after (now ∷ []) ins) eq
                (λ ts. left_after-step now ts ins)
                (rounds-Endures times l1 (left_after (now ∷ []) ins) (left_bytes now ins bytes)
                  runs))
      ]
