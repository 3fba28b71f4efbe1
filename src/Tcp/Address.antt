-- ===== src/Tcp/Address.antt =====
-- The address and the path in a URL: get_address_from_url and get_path_from_url of
-- src/zerobus/bridge_tcp_common.cpp.
pub mod Visible
use zerobus.Prelude.{ℕ, Bool, true, false, List, [], ◌∷◌, ◌++◌, ◌==◌, if◌then◌else◌, take, drop}
use zerobus.Wire.Uint.{Bytes}
use zerobus.Tcp.Handshake.{same_text}

-- "ws://"
abbrev pub ws_scheme : Bytes
ws_scheme = 119 ∷ 115 ∷ 58 ∷ 47 ∷ 47 ∷ []

abbrev pub is_ws : Bytes → Bool
is_ws url = same_text (take 5 url) ws_scheme

-- Up to the character, or all.
unfoldable pub up_to : ℕ → Bytes → Bytes
up_to s [] = []
up_to s (c ∷ text) = let rest = up_to s text in if c == s then [] else c ∷ rest

unfoldable pub has_char : ℕ → Bytes → Bool
has_char s [] = false
has_char s (c ∷ text) = let rest = has_char s text in if c == s then true else rest

-- The port 80 where none is given.
abbrev pub with_port : Bytes → Bytes
with_port addr = if has_char 58 addr then addr else addr ++ (58 ∷ 56 ∷ 48 ∷ [])

unfoldable pub get_address_from_url : Bytes → Bytes
get_address_from_url url = if is_ws url then with_port (up_to 47 (drop 5 url)) else url

-- From the first slash on, or a slash.
unfoldable pub path_part : Bytes → Bytes
path_part [] = 47 ∷ []
path_part (c ∷ text) = let rest = path_part text in if c == 47 then c ∷ text else rest

unfoldable pub get_path_from_url : Bytes → Bytes
get_path_from_url url = if is_ws url then path_part (drop 5 url) else 47 ∷ []
