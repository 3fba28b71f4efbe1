-- ===== src/Tcp/Address/Visible.antt =====
-- What the parts of a URL are made of (src/zerobus/bridge_tcp_common.cpp), and the characters of a
-- session (src/zerobus/bridge_tcp_client.cpp).
use zerobus.Prelude.{
  ℕ, zero, suc, Bool, true, false, [], ◌∷◌, ◌++◌, arith, All, All-append, ◌==◌, if◌then◌else◌, drop,
}
use zerobus.Wire.Uint.{Bytes}
use zerobus.Tcp.Handshake.Accepted.{Visible}
use zerobus.Tcp.Address.{
  is_ws, up_to, has_char, with_port, get_address_from_url, path_part, get_path_from_url,
}

pub if-Visible :
    (b : Bool) (x y : Bytes) → All Visible x → All Visible y → All Visible (if b then x else y)
if-Visible true x y h k = h
if-Visible false x y h k = k

drop-Visible : (n : ℕ) (text : Bytes) → All Visible text → All Visible (drop n text)
drop-Visible zero text h = h
drop-Visible (suc n) [] h = tt
drop-Visible (suc n) (c ∷ text) h = drop-Visible n text h.1

up_to-Visible : (s : ℕ) (text : Bytes) → All Visible text → All Visible (up_to s text)
unfolding up_to
up_to-Visible s [] h = tt
up_to-Visible s (c ∷ text) h =
    if-Visible (c == s) [] (c ∷ up_to s text) tt (h.0, up_to-Visible s text h.1)

with_port-Visible : (addr : Bytes) → All Visible addr → All Visible (with_port addr)
with_port-Visible addr h =
    if-Visible (has_char 58 addr) addr (addr ++ (58 ∷ 56 ∷ 48 ∷ [])) h (
      All-append Visible addr (58 ∷ 56 ∷ 48 ∷ []) h (omega arith, (omega arith, (omega arith, tt))))

path_part-Visible : (text : Bytes) → All Visible text → All Visible (path_part text)
unfolding path_part
path_part-Visible [] h = (omega arith, tt)
path_part-Visible (c ∷ text) h =
    if-Visible (c == 47) (c ∷ text) (path_part text) h (path_part-Visible text h.1)

pub address-Visible : (url : Bytes) → All Visible url → All Visible (get_address_from_url url)
unfolding get_address_from_url
address-Visible url h =
    if-Visible (is_ws url) _ url
      (with_port-Visible (up_to 47 (drop 5 url))
        (up_to-Visible 47 (drop 5 url) (drop-Visible 5 url h)))
      h

pub path-Visible : (url : Bytes) → All Visible url → All Visible (get_path_from_url url)
unfolding get_path_from_url
path-Visible url h =
    if-Visible (is_ws url) (path_part (drop 5 url)) (47 ∷ [])
      (path_part-Visible (drop 5 url) (drop-Visible 5 url h)) (omega arith, tt)
