-- ===== src/Primitives/Codec.antt =====
-- crates/sena-primitives/src/codec.rs: the canonical binary codec. A `Writer` is the buffer that
-- it appends to; a `Reader` is the input with an offset, and a read is an `Action` on it.
pub mod BigEndian
pub mod Write
pub mod Read
pub mod Reads
use sena.Primitives.Utf8.{from_utf8_lossy}
use sena.Base.Action.{Action, pure, raise, gets, require, ◌>>=◌, ◌>>◌}
use sena.Base.Action.{Action, pure, raise}
use sena.Primitives.Hash256.{Bytes}
use sena.Base.{
  ℕ, Bool, if◌then◌else◌, [], ◌∷◌, ltb, get_elem?, length, Result, ◌*◌, ◌+◌, false, ◌-◌, suc, ◌/◌,
  ◌^◌, u64_mod, true, ◌==◌, ◌%◌, leb, ok, take, err, zero, drop, none, some,
}

pub data DecodeError : Type 0 where
  truncated length_overflow : DecodeError
  unknown_variant : ℕ → DecodeError
  trailing_bytes : ℕ → DecodeError

-- `to_be_bytes` of an integer of `width` bytes.
unfoldable pub to_be_bytes : ℕ → ℕ → Bytes
to_be_bytes zero v = []
to_be_bytes (suc n) v = (v / 256 ^ n % 256) ∷ to_be_bytes n v

-- `from_be_bytes`
unfoldable pub from_be_bytes : Bytes → ℕ
from_be_bytes [] = 0
from_be_bytes (b ∷ bs) = b * 256 ^ length bs + from_be_bytes bs

pub record Reader : Type 0 where
  pub input : Bytes
  pub offset : ℕ

-- `Reader::new`
abbrev pub new_reader : Bytes → Reader
new_reader input = record { input = input; offset = 0 }

abbrev pub Read : Type 0 → Type 0
Read = Action Reader DecodeError

-- `Reader::take`. The offset is a `usize`, of 64 bits.
unfoldable pub take_bytes : ℕ → Read Bytes
take_bytes n r =
    if ltb (r.offset + n) u64_mod
    then (if leb (r.offset + n) (length r.input)
        then (record r { offset = r.offset + n }, ok (take n (drop r.offset r.input)))
        else (r, err DecodeError.truncated))
    else (r, err DecodeError.length_overflow)

-- `Reader::u8`
unfoldable pub read_u8 : Read ℕ
read_u8 r = elim (get_elem? r.input r.offset) [
  | none ↦ (r, err DecodeError.truncated)
  | some byte ↦ (record r { offset = r.offset + 1 }, ok byte)
]

-- `Reader::u32`, `u64` and `u128`: the integer of `width` bytes.
unfoldable pub read_uint : ℕ → Read ℕ
read_uint width = do bytes ← take_bytes width; pure (from_be_bytes bytes)

abbrev pub read_u32 : Read ℕ
read_u32 = read_uint 4

abbrev pub read_u64 : Read ℕ
read_u64 = read_uint 8

abbrev pub read_u128 : Read ℕ
read_u128 = read_uint 16

-- The match on the byte in `Reader::bool`.
unfoldable pub bool_of_byte : ℕ → Read Bool
bool_of_byte zero = pure false
bool_of_byte (suc zero) = pure true
bool_of_byte other = raise (DecodeError.unknown_variant other)

-- `Reader::bool`
unfoldable pub read_bool : Read Bool
unfolding bool_of_byte
read_bool = do byte ← read_u8; bool_of_byte byte

-- `Reader::bytes32` and `Reader::hash`.
abbrev pub read_bytes32 : Read Bytes
read_bytes32 = take_bytes 32

-- `Reader::bytes`
unfoldable pub read_bytes : Read Bytes
read_bytes = do
  len ← read_u32
  r ← gets (λ r. r)
  require (leb len (length r.input - r.offset)) DecodeError.length_overflow
  take_bytes len

-- `Reader::string`
unfoldable pub read_string : Read Bytes
unfolding read_bytes from_utf8_lossy
read_string = do text ← read_bytes; pure (from_utf8_lossy text)

-- `Reader::finish`
unfoldable pub finish : Read (Unit {0})
finish r =
    if length r.input - r.offset == 0
    then (r, ok tt)
    else (r, err (DecodeError.trailing_bytes (length r.input - r.offset)))

-- Runs a reader on an input, as the `decode` functions do.
abbrev pub decode_with : {A : Type 0} → Read A → Bytes → Result DecodeError A
decode_with p input = (p (new_reader input)).1
