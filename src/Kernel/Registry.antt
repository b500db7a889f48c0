-- ===== src/Kernel/Registry.antt =====
-- crates/lib_kernel/src/api/mod.rs: kernel objects behind handles, and the capabilities of processes.
-- Handles and process identifiers are numbers; the counter that makes handles is part of the state.
pub mod Authority
pub mod Steps
pub mod Confinement
pub mod Rights
use prisma_os.Base.{
  ℕ, ◌+◌, ◌-◌, ◌^◌, Bool, true, false, not, List, [], ◌∷◌, ◌++◌, Option, none, some, ◌==◌,
  if◌then◌else◌, bit_and, bit_or,
}
use prisma_os.Base.Words.{add64}
use prisma_os.Base.Maps.{lookup, insert}

-- `Rights`
abbrev pub read_right : ℕ
read_right = 1

abbrev pub write_right : ℕ
write_right = 2

abbrev pub share_right : ℕ
share_right = 16

abbrev pub all_rights : ℕ
all_rights = 2 ^ 64 - 1

abbrev pub has : ℕ → ℕ → Bool
has rights right = not (bit_and rights right == 0)

pub record Capability : Type 0 where
  pub handle : ℕ
  pub rights : ℕ
  pub owner : ℕ

pub data RegistryError : Type 0 where
  registry_full process_not_found handle_not_found object_not_found : RegistryError
  insufficient_rights : RegistryError

pub data RegistryResult {ℓ} (A : Type ℓ) : Type ℓ where
  ok : A → RegistryResult A
  err : RegistryError → RegistryResult A

pub record ObjectRegistry (Object : Type 0) : Type 0 where
  pub objects : List (ℕ × Object)
  pub capabilities : List (ℕ × List Capability)
  pub next_handle : ℕ

-- The first capability for the handle.
unfoldable pub find_capability : ℕ → List Capability → Option Capability
find_capability h [] = none
find_capability h (c ∷ cs) = if c.handle == h then some c else find_capability h cs

-- `position` and `remove`.
unfoldable pub remove_capability : ℕ → List Capability → List Capability
remove_capability h [] = []
remove_capability h (c ∷ cs) = if c.handle == h then cs else c ∷ remove_capability h cs

abbrev pub or_empty : Option (List Capability) → List Capability
or_empty none = []
or_empty (some cs) = cs

module _ {Object : Type 0} where
  unfoldable pub new : ObjectRegistry Object
  new = record { objects = []; capabilities = []; next_handle = 1 }

  -- `capabilities.entry(process)`, and the push.
  unfoldable pub push_capability : ℕ → Capability → ObjectRegistry Object → ObjectRegistry Object
  push_capability process c r = record r {
    capabilities =
        insert process (or_empty (lookup process r.capabilities) ++ (c ∷ [])) r.capabilities;
  }

  unfoldable pub register_object :
      Object → ℕ → ℕ → ObjectRegistry Object → ObjectRegistry Object × RegistryResult ℕ
  unfolding push_capability
  register_object object owner rights r =
      let handle = r.next_handle in
      let c : Capability = record { handle = handle; rights = rights; owner = owner } in
      (
        push_capability owner c
            (record r { next_handle = add64 handle 1; objects = insert handle object r.objects }),
        ok handle,
      )

  unfoldable pub get_object : ℕ → ℕ → ℕ → ObjectRegistry Object → RegistryResult Object
  unfolding find_capability
  get_object handle process required_rights r = elim (lookup process r.capabilities) [
    | none ↦ err process_not_found
    | some cs ↦ elim (find_capability handle cs) [
      | none ↦ err handle_not_found
      | some c ↦
          if not (has c.rights required_rights)
          then err insufficient_rights
          else elim (lookup handle r.objects) [
            | none ↦ err object_not_found
            | some object ↦ ok object
          ]
    ]
  ]

  unfoldable pub transfer_capability :
      ℕ → ℕ → ℕ → ℕ → ObjectRegistry Object → ObjectRegistry Object × RegistryResult (Unit {0})
  unfolding find_capability push_capability
  transfer_capability handle from to rights r = elim (lookup from r.capabilities) [
    | none ↦ (r, err process_not_found)
    | some cs ↦ elim (find_capability handle cs) [
      | none ↦ (r, err handle_not_found)
      | some c ↦ if not (has c.rights share_right) then (r, err insufficient_rights) else (
        push_capability to (record { handle = handle; rights = rights; owner = to }) r,
        ok tt,
      )
    ]
  ]

  unfoldable pub revoke_capability :
      ℕ → ℕ → ObjectRegistry Object → ObjectRegistry Object × RegistryResult (Unit {0})
  unfolding find_capability remove_capability
  revoke_capability handle process r = elim (lookup process r.capabilities) [
    | none ↦ (r, err process_not_found)
    | some cs ↦ elim (find_capability handle cs) [
      | none ↦ (r, err handle_not_found)
      | some c ↦ (
        record r { capabilities = insert process (remove_capability handle cs) r.capabilities },
        ok tt,
      )
    ]
  ]
