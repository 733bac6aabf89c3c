-- ===== src/Stf/Machine.antt =====
-- crates/sena-stf/src/instruction.rs and execute.rs: the machine state between two instructions,
-- and the states of a batch's execution.
use mathlib.Core.Path.{ap₂}
use sena.Primitives.Codec.BigEndian.{length-to_be_bytes, from-to_be_bytes}
use sena.Primitives.Codec.{to_be_bytes, from_be_bytes}
use sena.Primitives.Encoding.Framing.{push_all, push_all-inj}
use sena.Base.{
  ◌≡◌, length, ℕ, ◌<◌, u64_mod, ◌∷◌, All, u32_mod, [], arith, refl, sym, ◌∙◌, ap, get_or, List,
}
use sena.Primitives.Encoding.{new_encoder, field, u64_field, machine_state_domain}
use sena.Primitives.Hash256.{Hash256, Bytes}

pub record MachineState : Type 0 where
  pub state_root : Hash256
  pub pc : ℕ

-- `MachineState::start`
abbrev pub machine_start : Hash256 → MachineState
machine_start state_root = record { state_root = state_root; pc = 0 }

-- The bytes that a machine state's commitment is taken of.
unfoldable pub machine_preimage : MachineState → Bytes
unfolding new_encoder field u64_field
machine_preimage s = u64_field s.pc (field s.state_root (new_encoder machine_state_domain))

-- `MachineState::commitment`
unfoldable pub commitment : (Bytes → Hash256) → MachineState → Hash256
unfolding machine_preimage
commitment digest s = digest (machine_preimage s)

abbrev machine_fields : MachineState → List Bytes
machine_fields s = machine_state_domain ∷ s.state_root ∷ to_be_bytes 8 s.pc ∷ []

machine_preimage-eq : (s : MachineState) → machine_preimage s ≡ push_all (machine_fields s) []
unfolding machine_preimage
machine_preimage-eq s = refl

-- Two machine states with 32-byte roots and u64 counters that are committed from the same bytes
-- are the same state.
pub machine_preimage-inj :
    (s t : MachineState)
    → length s.state_root ≡ 32
    → length t.state_root ≡ 32
    → s.pc < u64_mod
    → t.pc < u64_mod
    → machine_preimage s ≡ machine_preimage t
    → s ≡ t
machine_preimage-inj s t hs ht ps pt e =
    let short : (u : MachineState)
        → length u.state_root ≡ 32
        → All (λ x. length x < u32_mod) (machine_fields u) =
      λ u h. (omega arith, (omega arith, (omega (arith, length-to_be_bytes 8 u.pc), tt))) in
    let fields =
      push_all-inj (machine_fields s) (machine_fields t) (short s hs) (short t ht)
        (sym (machine_preimage-eq s) ∙ e ∙ machine_preimage-eq t) in
    let roots : s.state_root ≡ t.state_root = ap (λ x. get_or x 1 []) fields in
    let pcs : s.pc ≡ t.pc =
      sym (from-to_be_bytes 8 s.pc ps)
      ∙ ap (λ x. from_be_bytes (get_or x 2 [])) fields
      ∙ from-to_be_bytes 8 t.pc pt in
    ap₂ (λ r p. record { state_root = r; pc = p }) roots pcs
