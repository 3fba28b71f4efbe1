-- ===== src/Bridge/Receive.antt =====
-- The overloads of AbstractBridge::receive in src/zerobus/bridge.cpp: what the other side sent.
use zerobus.Prelude.{ℕ, Bool, true, false, not, List, [], ◌∷◌, ◌++◌, none, some}
use zerobus.Messages.{ChannelId, Message, Operation, Msg}
use zerobus.Bus.Routing.{Outcome, done, thrown, unfinished, ◌>>=◌}
use zerobus.Bridge.Api.{Env, Bridge, BridgeOf, send}
use zerobus.Bridge.Channels.{keep_names, check_rules, send_mine_channels}

-- `cycle_detection(cycle)`, after the flag was set to it.
abbrev pub set_cycle : {S F : Type 0} → Bool → Bridge S F → Bridge S F
set_cycle cycle b = record b {
  cycle_detected = cycle;
  cycle_reports = b.cycle_reports ++ (cycle ∷ []);
}

abbrev pub is_erase : Operation → Bool
is_erase Operation.erase = true
is_erase Operation.add = false
is_erase Operation.replace = false

-- `a == b` of two bool values.
abbrev pub same : Bool → Bool → Bool
same true b = b
same false b = not b

module _ (e : Env) (rounds : ℕ) where
  -- A filter is asked, its answer kept, and check_rules called.
  abbrev pub ask : (e.flt.Rules → Bool × e.flt.Rules) → BridgeOf e → Bool × Outcome (BridgeOf e)
  ask question b = elim b.filter [
    | none ↦ (true, done b)
    | some f ↦ ((question f).0, check_rules e rounds (record b { filter = some (question f).1 }))
  ]

  -- receive(const ChannelUpdate &).
  unfoldable pub filter_outgoing :
      List ChannelId → BridgeOf e → (List ChannelId) × Outcome (BridgeOf e)
  filter_outgoing names b = elim b.filter [
    | none ↦ (names, done b)
    | some f ↦ (
      (keep_names e e.flt.on_outgoing names f).0,
      check_rules e rounds (record b { filter = some (keep_names e e.flt.on_outgoing names f).1 }),
    )
  ]

  abbrev pub update_bus : Operation → List ChannelId → BridgeOf e → BridgeOf e
  update_bus op names b = record b { bus = e.api.update_subscription e.self op names b.bus }

  unfoldable pub receive_channel_update :
      List ChannelId → Operation → BridgeOf e → Outcome (BridgeOf e)
  receive_channel_update names op b =
      let (kept, asked) = filter_outgoing names b in
      elim b.cycle_detected [
        | true ↦ done b
        | false ↦ elim (is_erase op) [
          | true ↦ done (update_bus op names b)
          | false ↦ do c ← asked; done (update_bus op kept c)
        ]
      ]

  abbrev pub receive_channel_reset : BridgeOf e → Outcome (BridgeOf e)
  receive_channel_reset b = send_mine_channels e rounds true b

  -- dispatch_message, and on_no_route if there was no way for the message.
  abbrev pub pass_result :
      Message → BridgeOf e → Outcome (Bool × e.api.State) → Outcome (BridgeOf e)
  pass_result msg b (done (true, s)) = done (record b { bus = s })
  pass_result msg b (done (false, s)) =
      done (send (Msg.no_route msg.sender msg.channel) (record b { bus = s }))
  pass_result msg b thrown = thrown
  pass_result msg b unfinished = unfinished

  unfoldable pub pass_message : Message → BridgeOf e → Outcome (BridgeOf e)
  pass_message msg b = pass_result msg b (e.api.dispatch_message e.self msg true b.bus)

  -- receive(const Message &): a message to a public channel is dropped in a cycle, and else the
  -- filter is asked. A rejected message is unsubscribed and passed on.
  unfoldable pub receive_message : Message → BridgeOf e → Outcome (BridgeOf e)
  receive_message msg b =
      let (ok, asked) = ask (e.flt.on_incoming msg.channel) b in
      elim (e.api.is_channel msg.channel b.bus) [
        | false ↦ pass_message msg b
        | true ↦ elim b.cycle_detected [
          | true ↦ done b
          | false ↦ do
            c ← asked
            pass_message msg (elim ok [
              | true ↦ c
              | false ↦ send (Msg.channel_update (msg.channel ∷ []) Operation.erase) c
            ])
        ]
      ]

  unfoldable pub receive_no_route : ChannelId → ChannelId → BridgeOf e → Outcome (BridgeOf e)
  receive_no_route sender receiver b =
      done (record b { bus = (e.api.clear_return_path e.self sender receiver b.bus).1 })

  -- receive(const UpdateSerial &).
  abbrev pub leave_or_join : Bool → BridgeOf e → BridgeOf e
  leave_or_join true b = record b { bus = e.api.unsubscribe_all_channels e.self false b.bus }
  leave_or_join false b = send Msg.channel_reset b

  -- What follows if the bus's answer and the flag are the same value.
  abbrev pub turn_cycle : Bool → BridgeOf e → Outcome (BridgeOf e)
  turn_cycle false b = done b
  turn_cycle true b = do
    c ← send_mine_channels e rounds false (set_cycle (not b.cycle_detected) b)
    done (leave_or_join c.cycle_detected c)

  unfoldable pub receive_update_serial : ChannelId → BridgeOf e → Outcome (BridgeOf e)
  receive_update_serial serial b =
      let (state, s) = e.api.set_serial e.self serial b.bus in
      turn_cycle (same state b.cycle_detected) (record b { bus = s })

  unfoldable pub receive_close_group : ChannelId → BridgeOf e → Outcome (BridgeOf e)
  receive_close_group group b = elim b.filter [
    | none ↦ done (record b { bus = e.api.close_group e.self group b.bus })
    | some f ↦
        let (ok, g) = e.flt.on_incoming_close_group group f in
        let c = record b { filter = some g } in
        elim ok [
          | true ↦ check_rules e rounds (record c { bus = e.api.close_group e.self group b.bus })
          | false ↦ check_rules e rounds c
        ]
  ]

  -- A group that cannot be joined is answered by an update that erases it.
  abbrev pub group_result : ChannelId → BridgeOf e → Bool × e.api.State → BridgeOf e
  group_result group b (true, s) = record b { bus = s }
  group_result group b (false, s) =
      send (Msg.channel_update (group ∷ []) Operation.erase) (record b { bus = s })

  unfoldable pub receive_add_to_group : ChannelId → ChannelId → BridgeOf e → Outcome (BridgeOf e)
  receive_add_to_group group target b = elim b.filter [
    | none ↦ done (group_result group b (e.api.add_to_group e.self group target b.bus))
    | some f ↦
        let (ok, g) = e.flt.on_incoming_add_to_group group target f in
        let c = record b { filter = some g } in
        elim ok [
          | true ↦
              check_rules e rounds
                (group_result group c (e.api.add_to_group e.self group target c.bus))
          | false ↦ check_rules e rounds (send (Msg.channel_update (group ∷ []) Operation.erase) c)
        ]
  ]

  unfoldable pub receive_group_empty : ChannelId → BridgeOf e → Outcome (BridgeOf e)
  receive_group_empty group b =
      let (ok, asked) = ask (e.flt.on_outgoing_close_group group) b in
      do c ← asked; done (record c { bus = e.api.unsubscribe e.self group c.bus })

  -- A new session ends a cycle.
  unfoldable pub receive_new_session : ℕ → BridgeOf e → Outcome (BridgeOf e)
  receive_new_session version b =
      let c = record b {
        version = version;
        bus = e.api.unsubscribe_all_channels e.self true b.bus;
        srl_hash = 0;
      } in
      send_mine_channels e rounds true
        (elim b.cycle_detected [ true ↦ set_cycle false c | false ↦ c ])

  -- Deserialization's result goes to the overload for its type. A user message is not for the
  -- bridge.
  unfoldable pub receive : Msg → BridgeOf e → Outcome (BridgeOf e)
  receive (Msg.user_msg type content) b = done b
  receive (Msg.message msg) b = receive_message msg b
  receive (Msg.channel_update names op) b = receive_channel_update names op b
  receive Msg.channel_reset b = receive_channel_reset b
  receive (Msg.no_route sender receiver) b = receive_no_route sender receiver b
  receive (Msg.add_to_group group target) b = receive_add_to_group group target b
  receive (Msg.close_group group) b = receive_close_group group b
  receive (Msg.group_empty group) b = receive_group_empty group b
  receive (Msg.new_session version) b = receive_new_session version b
  receive (Msg.update_serial serial) b = receive_update_serial serial b
