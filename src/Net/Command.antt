-- ===== src/Net/Command.antt =====
-- The arguments of a command line: parse_command_line of src/zerobus/network_linux.cpp. The buffer
-- is the list of the bytes that are written to it, and a pointer into it is an index.
pub mod Room
pub mod Quoting
use zerobus.Prelude.{
  ℕ, zero, suc, ◌+◌, Bool, true, false, List, [], ◌∷◌, ◌++◌, map, ◌==◌, if◌then◌else◌, length, drop,
}
use zerobus.Wire.Uint.{Bytes}
use zerobus.Http.{isspace}

pub record CommandState : Type 0 where
  pub written : Bytes
  pub pointers : List ℕ
  pub add_arg : Bool
  pub spec : Bool
  pub dbl : Bool
  pub esc : Bool

abbrev pub new_state : CommandState
new_state = record {
  written = [];
  pointers = [];
  add_arg = true;
  spec = false;
  dbl = false;
  esc = false;
}

abbrev pub put : ℕ → CommandState → CommandState
put c s = record s { written = s.written ++ (c ∷ []) }

abbrev pub begin_arg : CommandState → CommandState
begin_arg s =
    if s.add_arg
    then record s {
      written = s.written ++ (0 ∷ []);
      pointers = s.pointers ++ (suc (length s.written) ∷ []);
      add_arg = false;
      dbl = false;
    }
    else s

-- A quote right after a quoted part is one of the text.
abbrev pub open_quote : CommandState → CommandState
open_quote s = record (if s.dbl then put 34 s else s) { spec = true }

abbrev pub plain_char : ℕ → CommandState → CommandState
plain_char c s = if c == 34 then open_quote s else record (put c s) { dbl = false }

-- A round of the loop.
unfoldable pub take_char : ℕ → CommandState → CommandState
take_char c s =
    if s.esc
    then record (put c s) { esc = false }
    else if c == 92
    then record s { esc = true }
    else if s.spec
    then (if c == 34 then record s { spec = false; dbl = true } else put c s)
    else if isspace c
    then record s { add_arg = true; dbl = false }
    else plain_char c (begin_arg s)

unfoldable pub take_chars : Bytes → CommandState → CommandState
take_chars [] s = s
take_chars (c ∷ text) s = take_chars text (take_char c s)

-- The pointers, without the null pointer behind them, and the bytes with their last zero.
unfoldable pub parse_command_line : Bytes → List ℕ × Bytes
parse_command_line cmdline =
    let s = take_chars cmdline new_state in (s.pointers, s.written ++ (0 ∷ []))

-- The string at a pointer, as execve reads it.
unfoldable pub until_zero : Bytes → Bytes
until_zero [] = []
until_zero (c ∷ text) = let rest = until_zero text in if c == 0 then [] else c ∷ rest

abbrev pub read_arg : Bytes → ℕ → Bytes
read_arg buffer p = until_zero (drop p buffer)

unfoldable pub read_args : List ℕ × Bytes → List Bytes
read_args (pointers, buffer) = map (read_arg buffer) pointers
