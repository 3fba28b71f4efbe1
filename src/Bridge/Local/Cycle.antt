-- ===== src/Bridge/Local/Cycle.antt =====
-- When a bridge on LocalBus takes part in a cycle: receive(UpdateSerial) of src/zerobus/bridge.cpp
-- with set_serial of src/zerobus/local_bus.cpp.
use zerobus.Prelude.{
  ℕ, suc, ◌≡◌, refl, ◌∙◌, Bool, none, not, ◌&&◌, ◌==◌, inl, inr, Bool-cases, arith,
}
use zerobus.Prelude.Keys.{bytes_eq, ◌=?◌, bytes_ltb}
use zerobus.Messages.{ChannelId}
use zerobus.Bus.Routing.{done}
use zerobus.Bus.State.{Bus, lock}
use zerobus.Bus.Delivery.{Reaction}
use zerobus.Bus.Valid.State.{IsValid}
use zerobus.Bus.Serial.{set_serial, set_serial_lk, current_serial}
use zerobus.Bridge.Api.{Bridge, Env}
use zerobus.Bridge.Receive.{receive_update_serial}
use zerobus.Bridge.Cycle.{receive_update_serial-cycle}
use zerobus.Bridge.Local.{on_local, local_laws, open_filter_settles}

-- The network's serial number comes to this bridge although it is not where the bus has it from.
abbrev pub closes_cycle : ℕ → ChannelId → Bus → Bool
closes_cycle l serial s = (current_serial s =? serial) && not (l == s.serial_source)

set_serial_lk-cycle :
    (l : ℕ) (serial : ChannelId) (s : Bus)
    → not (set_serial_lk l serial s).0 ≡ closes_cycle l serial s
set_serial_lk-cycle l serial s = elim (Bool-cases (current_serial s =? serial)) [
  | inl h ↦ rw h refl
  | inr h ↦ rw h (elim (Bool-cases (bytes_ltb serial (current_serial s))) [
    | inl k ↦ rw k refl
    | inr k ↦ rw k refl
  ])
]

set_serial-cycle :
    (l : ℕ) (serial : ChannelId) (s : Bus) → not (set_serial l serial s).0 ≡ closes_cycle l serial s
unfolding set_serial lock current_serial
set_serial-cycle l serial s = set_serial_lk-cycle l serial (lock s)

module _ (react : Reaction) (bound : ℕ) (hash : ChannelId → ℕ) (self : ℕ) where
  abbrev here : Env
  here = on_local react bound hash self

  -- On a well-formed LocalBus, while nobody runs send_mine_channels, receive(UpdateSerial) of a
  -- bridge without a filter returns, and the bridge is in a cycle afterwards exactly if the
  -- serial number is the bus's current one and the bus does not have it from this bridge.
  pub receive_update_serial-closes_cycle :
      (rounds : ℕ) (serial : ChannelId) (b : Bridge Bus Bool)
      → IsValid b.bus
      → b.send_mine_channels_lock ≡ 0
      → b.filter ≡ none
      → (c : Bridge Bus Bool) × (receive_update_serial here (suc rounds) serial b ≡ done c)
        × (c.cycle_detected ≡ closes_cycle self serial b.bus)
  unfolding local_laws
  receive_update_serial-closes_cycle rounds serial b v z h =
      let (c, s, a) =
        receive_update_serial-cycle here (local_laws react bound self) open_filter_settles
          (suc rounds) serial b v z (rw h (omega arith)) in
      (c, s, a ∙ set_serial-cycle self serial b.bus)
