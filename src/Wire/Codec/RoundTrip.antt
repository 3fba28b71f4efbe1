-- ===== src/Wire/Codec/RoundTrip.antt =====
-- Messages that Serialization writes and Deserialization reads.
use zerobus.Prelude.{
  ℕ, ◌^◌, ◌≤◌, ◌<◌, ◌≡◌, refl, ap, List, [], ◌∷◌, ◌++◌, append-nil, none, some, arith, length, All,
}
use zerobus.Messages.{Message, Operation, Msg, ChannelId}
use zerobus.Messages.Operation.{replace, add, erase}
use zerobus.Wire.Uint.{Bytes, write_uint, write_string, read_string}
use zerobus.Wire.Uint.RoundTrip.{read_uint-write_uint, read_string-write_string}
use zerobus.Wire.Codec.{
  write_channels, serialize, read_channels, read_update, read_message, read_body, message_type,
  deserialize,
}

-- The lengths and counts that the number format can hold.
abbrev pub Short : Bytes → Type 0
Short s = length s < 2 ^ 61

-- What can be sent: short strings, a user type below those of the library, a conversation id
-- of 32 bits, and no more channels than the receiver's vector holds.
abbrev pub Fits : ℕ → Msg → Type 0
Fits max_size (Msg.user_msg type payload) = type < 0xf5
Fits max_size (Msg.message m) =
    Short m.sender × Short m.channel × Short m.content × (m.conversation < 2 ^ 32)
Fits max_size (Msg.channel_update lst op) =
    (length lst < 2 ^ 61) × (length lst ≤ max_size) × All Short lst
Fits max_size Msg.channel_reset = Unit {0}
Fits max_size (Msg.no_route sender receiver) = Short sender × Short receiver
Fits max_size (Msg.add_to_group group target) = Short group × Short target
Fits max_size (Msg.close_group group) = Short group
Fits max_size (Msg.group_empty group) = Short group
Fits max_size (Msg.new_session version) = version < 2 ^ 61
Fits max_size (Msg.update_serial serial) = Short serial

read_channels-write_channels :
    (lst : List ChannelId) → All Short lst → read_channels (length lst) (write_channels lst) ≡ lst
unfolding read_channels write_channels
read_channels-write_channels [] h = refl
read_channels-write_channels (c ∷ lst) h =
    rw (read_string-write_string c (write_channels lst) h.0)
      (ap (◌∷◌ c) (read_channels-write_channels lst h.1))

-- A string at the end of the text.
last_string : (s : Bytes) → Short s → read_string (write_string s ++ []) ≡ (s, [])
last_string s h = read_string-write_string s [] h

update_lem :
    (max_size : ℕ) (lst : List ChannelId) (op : Operation)
    → Fits max_size (Msg.channel_update lst op)
    → read_update max_size op ((write_uint (length lst) ++ []) ++ write_channels lst)
      ≡ some (Msg.channel_update lst op)
unfolding read_update
update_lem max_size lst op h =
    rw (append-nil, read_uint-write_uint (length lst) (write_channels lst) h.0)
      (ground (arith, read_channels-write_channels lst h.2))

message_lem :
    (m : Message)
    → Fits 0 (Msg.message m)
    → read_message (
        write_uint m.conversation
        ++ (write_string m.sender ++ (write_string m.channel ++ (write_string m.content ++ []))))
      ≡ some (Msg.message m)
unfolding read_message
message_lem m (hs, hc, ht, hi) =
    rw
      (
        read_uint-write_uint m.conversation _ (omega arith),
        read_string-write_string m.sender _ hs,
        read_string-write_string m.channel _ hc,
        last_string m.content ht,
      )
      (ap (λ (i : ℕ). some (Msg.message (record m { conversation = i }))) (omega arith))

user_type : (t : ℕ) (h : t < 0xf5) → message_type t ≡ none
unfolding message_type
user_type t h = ground arith

-- A message whose strings are shorter than 2 ^ 61 bytes, whose user type is below the library's
-- own, whose conversation id has 32 bits, whose session version has no more than the number
-- format holds and whose list of channels is no longer than 2 ^ 61 and the receiver's vector
-- allow, is deserialized from its serialized form as it was.
pub deserialize-serialize :
    (max_size : ℕ) (m : Msg) → Fits max_size m → deserialize max_size (serialize m) ≡ some m
unfolding deserialize serialize read_body message_type
deserialize-serialize max_size (Msg.user_msg type payload) h =
    rw (user_type type h) (unfold read_body in refl)
deserialize-serialize max_size (Msg.message m) h = message_lem m h
deserialize-serialize max_size (Msg.channel_update lst replace) h =
    update_lem max_size lst replace h
deserialize-serialize max_size (Msg.channel_update lst add) h = update_lem max_size lst add h
deserialize-serialize max_size (Msg.channel_update lst erase) h = update_lem max_size lst erase h
deserialize-serialize max_size Msg.channel_reset h = refl
deserialize-serialize max_size (Msg.no_route sender receiver) h =
    rw (read_string-write_string sender _ h.0, last_string receiver h.1)
deserialize-serialize max_size (Msg.add_to_group group target) h =
    rw (read_string-write_string group _ h.0, last_string target h.1)
deserialize-serialize max_size (Msg.close_group group) h = rw (last_string group h)
deserialize-serialize max_size (Msg.group_empty group) h = rw (last_string group h)
deserialize-serialize max_size (Msg.new_session version) h =
    rw (read_uint-write_uint version [] h) (ap (λ (v : ℕ). some (Msg.new_session v)) (omega arith))
deserialize-serialize max_size (Msg.update_serial serial) h = rw (last_string serial h)
