-- ===== src/Wire/Tests.antt =====
-- The theorems on numbers, strings and messages at concrete inputs.
use zerobus.Prelude.{◌*◌, ◌^◌, ◌≡◌, [], ◌∷◌, ◌++◌, some, arith}
use zerobus.Messages.{Msg}
use zerobus.Messages.Operation.{add}
use zerobus.Wire.Uint.{write_uint, write_tail, read_uint}
use zerobus.Wire.Uint.RoundTrip.{read_uint-write_uint, read_uint-write_uint_large}
use zerobus.Wire.Codec.{serialize, deserialize}
use zerobus.Wire.Codec.RoundTrip.{deserialize-serialize}

read_uint-write_uint_example : read_uint (write_uint 100000 ++ 7 ∷ []) ≡ (100000, 7 ∷ [])
read_uint-write_uint_example = read_uint-write_uint 100000 (7 ∷ []) (omega arith)

read_uint-write_uint_large_example :
    read_uint (write_uint (3 * 2 ^ 61) ++ 7 ∷ []) ≡ (0, write_tail (3 * 2 ^ 61) 8 ++ 7 ∷ [])
read_uint-write_uint_large_example =
    read_uint-write_uint_large (3 * 2 ^ 61) (7 ∷ []) (omega arith) (omega arith)

abbrev two_channels : Msg
two_channels = Msg.channel_update ((97 ∷ []) ∷ (98 ∷ 99 ∷ []) ∷ []) add

deserialize-serialize_example : deserialize 1000 (serialize two_channels) ≡ some two_channels
deserialize-serialize_example =
    deserialize-serialize 1000 two_channels
      (omega arith, omega arith, (omega arith, (omega arith, tt)))
