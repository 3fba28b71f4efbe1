-- ===== src/Bus/Valid/Initial.antt =====
-- A bus that was just made.
use zerobus.Prelude.{ℕ, ◌≡◌, refl, arith}
use zerobus.Messages.{ChannelId}
use zerobus.Prelude.Assoc.{lookup}
use zerobus.Bus.State.{new_bus}
use zerobus.Bus.Valid.State.{IsValid}

-- A new bus is well formed, if the addresses that it will generate for mailboxes are all
-- different.
pub new_bus-IsValid :
    (serial : ChannelId) (names : ℕ → ChannelId)
    → ((i j : ℕ) → names i ≡ names j → i ≡ j)
    → IsValid (new_bus serial names)
unfolding lookup
new_bus-IsValid serial names unique = record {
  channels = record { ordered = tt; named = λ name c e. ground arith; sorted = λ c. tt };
  boxes = record {
    ptr_distinct = tt;
    name_distinct = tt;
    owned = λ l m e. ground arith;
    addressed = λ name m e. ground arith;
    issued = λ name i e h. refl;
    unique = unique;
  };
  paths = record { distinct = tt; bounded = omega arith };
}
