-- ===== src/Primitives/Encoding.antt =====
-- crates/sena-primitives/src/encoding.rs: length-prefixed fields behind a domain tag.
pub mod Framing
use sena.Primitives.Codec.{to_be_bytes}
use sena.Base.{ℕ, [], ◌++◌, ◌∷◌, length}
use sena.Primitives.Hash256.{Bytes}
use Prim.Native.Char.{code}
use Prim.Native.String.{String}

-- The bytes of an ASCII text, as a `b"…"` literal has them.
abbrev pub ascii : String → Bytes
ascii String.[] = []
ascii (String.◌∷◌ c s) = code c ∷ ascii s

-- The module `domain`.
abbrev pub trie_internal : Bytes
trie_internal = ascii "SENA:v1:trie-internal"

abbrev pub trie_leaf : Bytes
trie_leaf = ascii "SENA:v1:trie-leaf"

abbrev pub assertion_domain : Bytes
assertion_domain = ascii "SENA:v1:assertion"

abbrev pub machine_state_domain : Bytes
machine_state_domain = ascii "SENA:v1:machine-state"

-- `CanonicalEncoder::push_framed` appends this; the source panics on a field of 2 ^ 32 bytes.
unfoldable pub push_framed : Bytes → Bytes → Bytes
push_framed bytes buf = buf ++ (to_be_bytes 4 (length bytes) ++ bytes)

-- `CanonicalEncoder::new`
unfoldable pub new_encoder : Bytes → Bytes
unfolding push_framed
new_encoder domain = push_framed domain []

-- `CanonicalEncoder::field`
unfoldable pub field : Bytes → Bytes → Bytes
unfolding push_framed
field bytes buf = push_framed bytes buf

-- `CanonicalEncoder::u64` and `u128`
unfoldable pub u64_field : ℕ → Bytes → Bytes
unfolding field
u64_field value buf = field (to_be_bytes 8 value) buf

unfoldable pub u128_field : ℕ → Bytes → Bytes
unfolding field
u128_field value buf = field (to_be_bytes 16 value) buf

-- `domain::TRANSACTION`
abbrev pub transaction_domain : Bytes
transaction_domain = ascii "SENA:v1:transaction"

-- `domain::BATCH`
abbrev pub batch_domain : Bytes
batch_domain = ascii "SENA:v1:batch"
