-- ===== src/Bridge/Listener.antt =====
-- AbstractBridge as a listener on its bus, its filter and its end, in src/zerobus/bridge.cpp.
use zerobus.Prelude.{ℕ, Bool, true, false, Option, none, some}
use zerobus.Messages.{ChannelId, Message, Msg}
use zerobus.Bus.Routing.{Outcome, done, ◌>>=◌}
use zerobus.Bridge.Api.{Env, Bridge, BridgeOf, send}
use zerobus.Bridge.Channels.{check_rules}
use zerobus.Bridge.Receive.{ask}

-- set_filter: the argument gets the filter that was there.
unfoldable pub set_filter : {S F : Type 0} → Option F → Bridge S F → (Option F) × Bridge S F
set_filter flt b = (b.filter, record b { filter = flt })

module _ (e : Env) (rounds : ℕ) where
  -- A message to a channel that the filter rejects ends the subscription.
  unfoldable pub on_message : Message → Bool → BridgeOf e → Outcome (BridgeOf e)
  on_message msg pm b =
      let (ok, asked) = ask e rounds (e.flt.on_outgoing msg.channel) b in
      elim pm [
        | true ↦ done (send (Msg.message msg) b)
        | false ↦ elim b.cycle_detected [
          | true ↦ done b
          | false ↦ do
            c ← asked
            done (elim ok [
              | true ↦ send (Msg.message msg) c
              | false ↦ record c { bus = e.api.unsubscribe e.self msg.channel c.bus }
            ])
        ]
      ]

  unfoldable pub on_group_empty : ChannelId → BridgeOf e → Outcome (BridgeOf e)
  on_group_empty group b =
      let (ok, asked) = ask e rounds (e.flt.on_incoming_close_group group) b in
      do c ← asked; done (send (Msg.group_empty group) c)

  -- What is done with the filter's answer goes before check_rules.
  unfoldable pub on_close_group : ChannelId → BridgeOf e → Outcome (BridgeOf e)
  on_close_group group b = elim b.filter [
    | none ↦ done (send (Msg.close_group group) b)
    | some f ↦
        let (ok, g) = e.flt.on_outgoing_close_group group f in
        let c = record b { filter = some g } in
        check_rules e rounds (elim ok [ true ↦ send (Msg.close_group group) c | false ↦ c ])
  ]

  unfoldable pub on_no_route : ChannelId → ChannelId → BridgeOf e → BridgeOf e
  on_no_route sender receiver b = send (Msg.no_route sender receiver) b

  unfoldable pub on_add_to_group : ChannelId → ChannelId → BridgeOf e → Outcome (BridgeOf e)
  on_add_to_group group target b = elim b.filter [
    | none ↦ done (send (Msg.add_to_group group target) b)
    | some f ↦
        let (ok, g) = e.flt.on_outgoing_add_to_group group target f in
        let c = record b { filter = some g } in
        check_rules e rounds (elim ok [
          | true ↦ send (Msg.add_to_group group target) c
          | false ↦ record c { bus = e.api.unsubscribe e.self group b.bus }
        ])
  ]

  -- ~AbstractBridge: the state of the bus that it leaves.
  unfoldable pub destroyed : BridgeOf e → e.api.State
  destroyed b = e.api.unsubscribe_all e.self b.bus
