-- ===== src/Messages.antt =====
-- The data that buses and bridges exchange: src/zerobus/message.h, the operations of
-- src/zerobus/bridge_api.h, and the structures of namespace Msg in src/zerobus/bridge.h.
use zerobus.Prelude.{ℕ, List}

-- A ChannelID or any other string_view, as its bytes.
abbrev pub ChannelId : Type 0
ChannelId = List ℕ

-- The four values that a Message carries. Its buffer only keeps the bytes alive.
pub record Message : Type 0 where
  pub sender : ChannelId
  pub channel : ChannelId
  pub content : List ℕ
  pub conversation : ℕ

-- IBridgeAPI::Operation.
pub data Operation : Type 0 where
  replace add erase : Operation

-- Deserialization::Result: what one bridge sends to the other.
pub data Msg : Type 0 where
  user_msg : ℕ → List ℕ → Msg
  message : Message → Msg
  channel_update : List ChannelId → Operation → Msg
  channel_reset : Msg
  no_route : ChannelId → ChannelId → Msg
  add_to_group : ChannelId → ChannelId → Msg
  close_group : ChannelId → Msg
  group_empty : ChannelId → Msg
  new_session : ℕ → Msg
  update_serial : ChannelId → Msg
