-- ===== src/Stf/Social.antt =====
-- crates/sena-stf/src/social.rs: what a hashed identifier resolves to.
pub mod Encoding
use sena.Primitives.Codec.{DecodeError}
use sena.Primitives.Codec
use sena.Base.Action.{Action, pure, raise, gets, require, ◌>>=◌, ◌>>◌}
use sena.Base.{Option, ℕ, some, Result, none, [], map_err, suc, zero}
use sena.Primitives.Hash256.{Bytes}
use sena.Primitives.Codec.Write.{raw, bytes, u8}

pub data SocialBinding : Type 0 where
  bound : (address : Bytes) → SocialBinding
  vacant : SocialBinding

pub data MalformedBinding : Type 0 where
  malformed_binding : MalformedBinding

-- `SocialBinding::address`
unfoldable pub address : SocialBinding → Option Bytes
address (SocialBinding.bound a) = some a
address SocialBinding.vacant = none

-- `SocialBinding::encode`
unfoldable pub encode_binding : SocialBinding → Bytes
encode_binding (SocialBinding.bound a) = raw a (u8 0 [])
encode_binding SocialBinding.vacant = u8 1 []

-- The match on the tag in `decode_inner`.
unfoldable pub read_binding : ℕ → Codec.Read SocialBinding
read_binding zero = do a ← Codec.read_bytes32; pure (SocialBinding.bound a)
read_binding (suc zero) = pure SocialBinding.vacant
read_binding other = raise (DecodeError.unknown_variant other)

-- `SocialBinding::decode_inner`
unfoldable pub decode_binding_inner : Codec.Read SocialBinding
unfolding read_binding
decode_binding_inner = do
  tag ← Codec.read_u8
  binding ← read_binding tag
  Codec.finish
  pure binding

-- `SocialBinding::decode`
unfoldable pub decode_binding : Bytes → Result MalformedBinding SocialBinding
unfolding decode_binding_inner
decode_binding input =
    map_err (λ e. MalformedBinding.malformed_binding) (Codec.decode_with decode_binding_inner input)
