-- ===== src/Stf/Wire/Authenticators.antt =====
-- crates/sena-stf/src/wire.rs: reading back an authenticator.
use mathlib.Core.List.{append_assoc, append-nil}
use sena.Primitives.Codec.Write.{byte_of_bool}
use sena.Primitives.Hash256.{Bytes}
use sena.Primitives.Codec.Reads.{Reads, Front, Reads-uint, Reads-raw, Reads-bool}
use sena.Primitives.Codec
use sena.Base.{
  refl, Option, length, ℕ, ◌≡◌, ◌<◌, Bool, [], ◌++◌, ok, ◌∙◌, some, u64_mod, false, arith, ap, ◌∷◌,
  none, true, sym,
}
use sena.Primitives.Codec.{to_be_bytes}
use sena.Stf.Wire.Read.{read_keyless, read_extra, read_authenticator}
use sena.Stf.Wire.{write_keyless, write_extra, write_authenticator}
use sena.Stf.Transaction.{Authenticator, KeylessSignature}

abbrev pub IsExtra : Option Bytes → Type 0
IsExtra none = Unit
IsExtra (some h) = length h ≡ 32

pub record IsKeyless (sig : KeylessSignature) : Type 0 where
  pub iss_hash_width : length sig.iss_hash ≡ 32
  pub idc_width : length sig.idc ≡ 32
  pub key_width : length sig.ephemeral_public_key ≡ 32
  pub signature_width : length sig.ephemeral_signature ≡ 64
  pub date_fits : sig.exp_date_secs < u64_mod
  pub horizon_fits : sig.exp_horizon_secs < u64_mod
  pub header_width : length sig.jwt_header_hash ≡ 32
  pub jwk_width : length sig.jwk_hash ≡ 32
  pub extra_width : IsExtra sig.extra_field_hash
  pub proof_width : length sig.proof ≡ 128

abbrev pub IsAuthenticator : Authenticator → Type 0
IsAuthenticator (Authenticator.ed25519 public_key signature) =
    (length public_key ≡ 32) × (length signature ≡ 64)
IsAuthenticator (Authenticator.keyless sig) = IsKeyless sig

abbrev reveals : Option Bytes → Bool
reveals none = false
reveals (some h) = true

abbrev extra_bytes : Option Bytes → Bytes
extra_bytes none = []
extra_bytes (some h) = h

write_extra-eq :
    (x : Option Bytes) (w : Bytes)
    → write_extra x w ≡ w ++ ((byte_of_bool (reveals x) ∷ []) ++ extra_bytes x)
unfolding write_extra
write_extra-eq none w = refl
write_extra-eq (some h) w = append_assoc w (1 ∷ []) h

Reads-extra : (x : Option Bytes) → IsExtra x → Reads (read_extra (reveals x)) (extra_bytes x) x
unfolding read_extra
Reads-extra none h = record { run = λ r ys f. (r, refl, f) }
Reads-extra (some x) h = record {
  run = λ r ys f. let (r1, e1, f1) = (Reads-raw 32 x h).run r ys f in (r1, ground (arith, e1), f1);
}

abbrev keyless_fields : KeylessSignature → Bytes → Bytes
keyless_fields sig ys =
    sig.iss_hash
    ++ (sig.idc
        ++ (sig.ephemeral_public_key
            ++ (sig.ephemeral_signature
                ++ (to_be_bytes 8 sig.exp_date_secs
                    ++ (to_be_bytes 8 sig.exp_horizon_secs
                        ++ (sig.jwt_header_hash
                            ++ (sig.jwk_hash
                                ++ ((byte_of_bool (reveals sig.extra_field_hash) ∷ [])
                                    ++ (extra_bytes sig.extra_field_hash
                                        ++ (sig.proof ++ ys))))))))))

write_keyless-eq :
    (sig : KeylessSignature) (w ys : Bytes) → write_keyless sig w ++ ys ≡ w ++ keyless_fields sig ys
unfolding write_keyless
write_keyless-eq sig w ys =
    ap (λ t. (t ++ sig.proof) ++ ys) (write_extra-eq sig.extra_field_hash _) ∙ simp append_assoc

read_keyless-Front :
    (sig : KeylessSignature) (ys : Bytes) (r : Codec.Reader)
    → IsKeyless sig
    → Front r (keyless_fields sig ys)
    → (r' : Codec.Reader) × (read_keyless r ≡ (r', ok sig)) × Front r' ys
unfolding read_keyless
read_keyless-Front sig ys r w f =
    let (r1, e1, f1) = (Reads-raw 32 sig.iss_hash w.iss_hash_width).run r _ f in
    let (r2, e2, f2) = (Reads-raw 32 sig.idc w.idc_width).run r1 _ f1 in
    let (r3, e3, f3) = (Reads-raw 32 sig.ephemeral_public_key w.key_width).run r2 _ f2 in
    let (r4, e4, f4) = (Reads-raw 64 sig.ephemeral_signature w.signature_width).run r3 _ f3 in
    let (r5, e5, f5) = (Reads-uint 8 sig.exp_date_secs w.date_fits).run r4 _ f4 in
    let (r6, e6, f6) = (Reads-uint 8 sig.exp_horizon_secs w.horizon_fits).run r5 _ f5 in
    let (r7, e7, f7) = (Reads-raw 32 sig.jwt_header_hash w.header_width).run r6 _ f6 in
    let (r8, e8, f8) = (Reads-raw 32 sig.jwk_hash w.jwk_width).run r7 _ f7 in
    let (r9, e9, f9) = (Reads-bool (reveals sig.extra_field_hash)).run r8 _ f8 in
    let (r10, e10, f10) = (Reads-extra sig.extra_field_hash w.extra_width).run r9 _ f9 in
    let (r11, e11, f11) = (Reads-raw 128 sig.proof w.proof_width).run r10 _ f10 in
    (r11, ground (arith, e1, e2, e3, e4, e5, e6, e7, e8, e9, e10, e11), f11)

abbrev pub authenticator_tag : Authenticator → ℕ
authenticator_tag (Authenticator.ed25519 public_key signature) = 0
authenticator_tag (Authenticator.keyless sig) = 1

abbrev pub authenticator_fields : Authenticator → Bytes
authenticator_fields (Authenticator.ed25519 public_key signature) = public_key ++ (signature ++ [])
authenticator_fields (Authenticator.keyless sig) = keyless_fields sig []

pub write_authenticator-eq :
    (a : Authenticator) (w : Bytes)
    → write_authenticator a w ≡ w ++ ((authenticator_tag a ∷ []) ++ authenticator_fields a)
unfolding write_authenticator
write_authenticator-eq (Authenticator.ed25519 public_key signature) w =
    simp (append_assoc, append-nil)
write_authenticator-eq (Authenticator.keyless sig) w =
    sym (append-nil _)
    ∙ write_keyless-eq sig (w ++ 1 ∷ []) []
    ∙ append_assoc w (1 ∷ []) (keyless_fields sig [])

pub read_authenticator-Front :
    (a : Authenticator) (r : Codec.Reader)
    → IsAuthenticator a
    → Front r (authenticator_fields a)
    → (r' : Codec.Reader) × (read_authenticator (authenticator_tag a) r ≡ (r', ok a)) × Front r' []
unfolding read_authenticator
read_authenticator-Front (Authenticator.ed25519 public_key signature) r (k, s) f =
    let (r1, e1, f1) = (Reads-raw 32 public_key k).run r _ f in
    let (r2, e2, f2) = (Reads-raw 64 signature s).run r1 _ f1 in (r2, ground (arith, e1, e2), f2)
read_authenticator-Front (Authenticator.keyless sig) r w f =
    let (r1, e1, f1) = read_keyless-Front sig [] r w f in (r1, ground (arith, e1), f1)
