-- ===== src/Wire/Codec.antt =====
-- src/zerobus/serialization.h, Serialization::compose_message, and
-- src/zerobus/serialization.cpp, the overloads of Serialization::operator() and
-- Deserialization::operator().
pub mod RoundTrip
use zerobus.Prelude.{
  ℕ, zero, suc, ◌%◌, ◌^◌, List, [], ◌∷◌, ◌++◌, Option, none, some, length, leb, ◌==◌, if◌then◌else◌,
}
use zerobus.Messages.{Message, Operation, Msg, ChannelId}
use zerobus.Messages.Operation.{replace, add, erase}
use zerobus.Wire.Uint.{Bytes, write_uint, write_string, read_uint, read_string}

pub data MessageType : Type 0 where
  message channels_replace channels_add channels_erase channels_reset no_route : MessageType
  add_to_group close_group group_empty new_session update_serial : MessageType

-- The byte of each value of the enumeration.
abbrev pub type_byte : MessageType → ℕ
type_byte message = 0xff
type_byte channels_replace = 0xfe
type_byte channels_add = 0xfd
type_byte channels_erase = 0xfc
type_byte channels_reset = 0xfb
type_byte no_route = 0xfa
type_byte add_to_group = 0xf9
type_byte close_group = 0xf8
type_byte group_empty = 0xf7
type_byte new_session = 0xf6
type_byte update_serial = 0xf5

-- The switch of Deserialization::operator(): `none` is its `default`.
unfoldable pub message_type : ℕ → Option MessageType
message_type t =
    if t == 0xff
    then some message
    else if t == 0xfe
    then some channels_replace
    else if t == 0xfd
    then some channels_add
    else if t == 0xfc
    then some channels_erase
    else if t == 0xfb
    then some channels_reset
    else if t == 0xfa
    then some no_route
    else if t == 0xf9
    then some add_to_group
    else if t == 0xf8
    then some close_group
    else if t == 0xf7
    then some group_empty
    else if t == 0xf6
    then some new_session
    else if t == 0xf5
    then some update_serial
    else none

-- An argument of compose_message, by the branch of `wr` that its type takes.
pub data Arg : Type 0 where
  enumerator : MessageType → Arg
  unsigned : ℕ → Arg
  text : Bytes → Arg

abbrev pub write_arg : Arg → Bytes
write_arg (enumerator t) = type_byte t ∷ []
write_arg (unsigned n) = write_uint n
write_arg (text s) = write_string s

abbrev pub compose_message : List Arg → Bytes
compose_message [] = []
compose_message (a ∷ args) = write_arg a ++ compose_message args

-- `types[op]` of the overload for ChannelUpdate.
abbrev pub update_type : Operation → MessageType
update_type replace = channels_replace
update_type add = channels_add
update_type erase = channels_erase

-- `for (c: msg.lst) iter = write_string(iter, c)`
unfoldable pub write_channels : List ChannelId → Bytes
write_channels [] = []
write_channels (c ∷ lst) = write_string c ++ write_channels lst

unfoldable pub serialize : Msg → Bytes
serialize (Msg.user_msg type payload) = type ∷ payload
serialize (Msg.message m) = compose_message (
    enumerator message
    ∷ unsigned m.conversation
    ∷ text m.sender
    ∷ text m.channel
    ∷ text m.content
    ∷ [])
serialize (Msg.channel_update lst op) =
    compose_message (enumerator (update_type op) ∷ unsigned (length lst) ∷ []) ++ write_channels lst
serialize Msg.channel_reset = compose_message (enumerator channels_reset ∷ [])
serialize (Msg.no_route sender receiver) =
    compose_message (enumerator no_route ∷ text sender ∷ text receiver ∷ [])
serialize (Msg.add_to_group group target) =
    compose_message (enumerator add_to_group ∷ text group ∷ text target ∷ [])
serialize (Msg.close_group group) = compose_message (enumerator close_group ∷ text group ∷ [])
serialize (Msg.group_empty group) = compose_message (enumerator group_empty ∷ text group ∷ [])
serialize (Msg.new_session version) =
    compose_message (enumerator new_session ∷ unsigned version ∷ [])
serialize (Msg.update_serial serial) = compose_message (enumerator update_serial ∷ text serial ∷ [])

-- `for (i = 0; i < cnt; ++i) _channels[i] = read_string(msgtext)`
unfoldable pub read_channels : ℕ → Bytes → List ChannelId
read_channels zero s = []
read_channels (suc cnt) s = let (c, rest) = read_string s in c ∷ read_channels cnt rest

-- `_channels.resize(cnt)` throws above the vector's max_size, and then the result is `none`.
unfoldable pub read_update : ℕ → Operation → Bytes → Option Msg
read_update max_size op s =
    let (cnt, rest) = read_uint s in
    let update = some (Msg.channel_update (read_channels cnt rest) op) in
    if leb cnt max_size then update else none

-- One string behind the type byte, or two.
abbrev pub read_one : (ChannelId → Msg) → Bytes → Option Msg
read_one make s = some (make (read_string s).0)

abbrev pub read_two : (ChannelId → ChannelId → Msg) → Bytes → Option Msg
read_two make s = let (a, rest) = read_string s in some (make a (read_string rest).0)

-- The conversation id is cast to 32 bits.
unfoldable pub read_message : Bytes → Option Msg
read_message s =
    let (cid, s1) = read_uint s in
    let (sender, s2) = read_string s1 in
    let (channel, s3) = read_string s2 in
    let (content, s4) = read_string s3 in
    some (
      Msg.message (record {
        sender = sender;
        channel = channel;
        content = content;
        conversation = cid % 2 ^ 32;
      }))

-- The cases of the switch. `ops[t - channels_erase]` is the operation.
unfoldable pub read_body : ℕ → ℕ → Option MessageType → Bytes → Option Msg
read_body max_size t none s = some (Msg.user_msg t s)
read_body max_size t (some message) s = read_message s
read_body max_size t (some channels_replace) s = read_update max_size replace s
read_body max_size t (some channels_add) s = read_update max_size add s
read_body max_size t (some channels_erase) s = read_update max_size erase s
read_body max_size t (some no_route) s = read_two Msg.no_route s
read_body max_size t (some add_to_group) s = read_two Msg.add_to_group s
read_body max_size t (some close_group) s = read_one Msg.close_group s
read_body max_size t (some channels_reset) s = some Msg.channel_reset
read_body max_size t (some group_empty) s = read_one Msg.group_empty s
read_body max_size t (some new_session) s = some (Msg.new_session ((read_uint s).0 % 2 ^ 64))
read_body max_size t (some update_serial) s = read_one Msg.update_serial s

-- An empty text gives the default value of the variant, an empty UserMsg.
unfoldable pub deserialize : ℕ → Bytes → Option Msg
deserialize max_size [] = some (Msg.user_msg 0 [])
deserialize max_size (t ∷ s) = read_body max_size t (message_type t) s
