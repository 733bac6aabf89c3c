-- ===== src/Primitives/Codec/Write.antt =====
-- crates/sena-primitives/src/codec.rs: what each method of `Writer` appends to the buffer.
use sena.Primitives.Codec.{to_be_bytes}
use sena.Base.{ℕ, Bool, ◌++◌, length, true, ◌∷◌, false, []}
use sena.Primitives.Hash256.{Bytes}

abbrev pub Writer : Type 0
Writer = Bytes

-- `Writer::raw`, and `hash` and `bytes32`, which append their 32 bytes.
abbrev pub raw : Bytes → Writer → Writer
raw value buf = buf ++ value

-- `Writer::u8`
abbrev pub u8 : ℕ → Writer → Writer
u8 value buf = buf ++ value ∷ []

-- `Writer::u32`, `u64`, `u128`
abbrev pub u32 : ℕ → Writer → Writer
u32 value buf = buf ++ to_be_bytes 4 value

abbrev pub u64 : ℕ → Writer → Writer
u64 value buf = buf ++ to_be_bytes 8 value

abbrev pub u128 : ℕ → Writer → Writer
u128 value buf = buf ++ to_be_bytes 16 value

abbrev pub byte_of_bool : Bool → ℕ
byte_of_bool true = 1
byte_of_bool false = 0

-- `Writer::bool`
abbrev pub bool : Bool → Writer → Writer
bool value buf = u8 (byte_of_bool value) buf

-- `Writer::bytes`; the source panics where the length does not fit in 32 bits.
abbrev pub bytes : Bytes → Writer → Writer
bytes value buf = u32 (length value) buf ++ value
