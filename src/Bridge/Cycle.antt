-- ===== src/Bridge/Cycle.antt =====
-- The detection of cycles between buses: receive(UpdateSerial) in src/zerobus/bridge.cpp with
-- set_serial of src/zerobus/local_bus.cpp.
use zerobus.Prelude.{ℕ, ◌<◌, ◌≡◌, refl, ap, ◌∙◌, Bool, true, false, not, inl, inr, Bool-cases}
use zerobus.Prelude.Keys.{bytes_eq}
use zerobus.Messages.{ChannelId}
use zerobus.Bus.Routing.{done, ◌>>=◌}
use zerobus.Bridge.Api.{Env, BridgeOf}
use zerobus.Bridge.Receive.{receive_update_serial, set_cycle, leave_or_join, turn_cycle, same}
use zerobus.Bridge.View.Rules.{BusLaws, Settles, left}
use zerobus.Bridge.View.Rounds.{send_mine_channels_ends}

turned_flag : (a b : Bool) → same a b ≡ true → not b ≡ not a
turned_flag true true h = refl
turned_flag true false h = absurd cc
turned_flag false true h = absurd cc
turned_flag false false h = refl

kept_flag : (a b : Bool) → same a b ≡ false → b ≡ not a
kept_flag true true h = absurd cc
kept_flag true false h = refl
kept_flag false true h = refl
kept_flag false false h = absurd cc

module _ (e : Env) (laws : BusLaws e.api e.self) (settles : Settles e.flt) (rounds : ℕ) where
  leave_or_join-cycle :
      (cycle : Bool) (b : BridgeOf e)
      → (leave_or_join e rounds cycle b).cycle_detected ≡ b.cycle_detected
  leave_or_join-cycle true b = refl
  leave_or_join-cycle false b = refl

  pub receive_update_serial-cycle :
      (serial : ChannelId) (b : BridgeOf e)
      → laws.Ok b.bus
      → b.send_mine_channels_lock ≡ 0
      → left e laws settles b.filter < rounds
      → (c : BridgeOf e) × (receive_update_serial e rounds serial b ≡ done c)
        × (c.cycle_detected ≡ not (e.api.set_serial e.self serial b.bus).0)
  unfolding receive_update_serial
  receive_update_serial-cycle serial b o z h =
      let (state, s) = e.api.set_serial e.self serial b.bus in
      let c = record b { bus = s } in
      let turned = set_cycle (not b.cycle_detected) c in
      elim (Bool-cases (same state b.cycle_detected)) [
        | inl k ↦
            let (d, r, f) =
              send_mine_channels_ends e laws settles rounds false turned
                (laws.set_serial-Ok serial b.bus o) z h in
            (
              leave_or_join e rounds d.cycle_detected d,
              ap (λ x. turn_cycle e rounds x c) k
                  ∙ ap
                      (λ r.
                        r
                        >>= (λ (d : BridgeOf e). done (leave_or_join e rounds d.cycle_detected d)))
                      r,
              leave_or_join-cycle d.cycle_detected d
                  ∙ f.cycle_detected
                  ∙ turned_flag state b.cycle_detected k,
            )
        | inr k ↦ (c, ap (λ x. turn_cycle e rounds x c) k, kept_flag state b.cycle_detected k)
      ]
