-- ===== src/Kernel/Registry/Confinement.antt =====
-- A handle that nobody may share stays with those who hold it.
use prisma_os.Base.{ℕ, ◌<◌, ◌≡◌, ◌⊎◌, inl, inr, Bool, true, false, ◌==◌, arith, subst}
use prisma_os.Base.Words.{add64, add64_lem}
use prisma_os.Base.Maps.{insert}
use prisma_os.Kernel.Registry.{
  share_right, has, Capability, ObjectRegistry, push_capability, register_object,
  transfer_capability,
}
use prisma_os.Kernel.Registry.Authority.{
  Everywhere, push_capability-Everywhere, revoke_capability-Everywhere,
  transfer_capability-Everywhere,
}
use prisma_os.Kernel.Registry.Steps.{
  Step, register, transfer, revoke, Reach, here, later, transfer_capability-kept,
  revoke_capability-kept,
}

-- The capability does not let its holder share the handle, and only a process that `allowed` admits
-- has one for the handle.
abbrev Confined : ℕ → (ℕ → Bool) → ℕ → Capability → Type 0
Confined handle allowed p c =
    ((c.handle == handle) ≡ false) ⊎ ((has c.rights share_right ≡ false) × (allowed p ≡ true))

-- Nobody may share the handle, and whoever holds a capability for it is allowed to.
abbrev pub IsConfined : {Object : Type 0} → ℕ → (ℕ → Bool) → ObjectRegistry Object → Type 0
IsConfined handle allowed r = Everywhere (Confined handle allowed) r

module _ {Object : Type 0} (handle : ℕ) (allowed : ℕ → Bool) where
  register_object-IsConfined :
      (object : Object) (owner rights : ℕ) (r : ObjectRegistry Object)
      → handle < r.next_handle
      → IsConfined handle allowed r
      → IsConfined handle allowed (register_object object owner rights r).0
  unfolding register_object
  register_object-IsConfined object owner rights r old v =
      push_capability-Everywhere (Confined handle allowed)
        (record r {
          next_handle = add64 r.next_handle 1;
          objects = insert r.next_handle object r.objects;
        })
        owner (record { handle = r.next_handle; rights = rights; owner = owner })
        (inl (ground arith)) v

  transfer_capability-IsConfined :
      (h from to rights : ℕ) (r : ObjectRegistry Object)
      → IsConfined handle allowed r
      → IsConfined handle allowed (transfer_capability h from to rights r).0
  transfer_capability-IsConfined h from to rights r v =
      transfer_capability-Everywhere (Confined handle allowed) r h from to rights
        (λ c confined same sharable. elim confined [
          | inl other ↦ inl (subst (λ k. (k == handle) ≡ false) same other)
          | inr (private, holder) ↦ cc
        ])
        v

  Step-IsConfined :
      {r s : ObjectRegistry Object}
      → Step r s
      → handle < r.next_handle
      → IsConfined handle allowed r
      → IsConfined handle allowed s × (handle < s.next_handle)
  unfolding register_object push_capability
  Step-IsConfined (register object owner rights r small) old v = (
    register_object-IsConfined object owner rights r old v,
    rw (add64_lem r.next_handle 1 small) (omega arith),
  )
  Step-IsConfined (transfer h from to rights r) old v = (
    transfer_capability-IsConfined h from to rights r v,
    rw (transfer_capability-kept h from to rights r).1 old,
  )
  Step-IsConfined (revoke h p r) old v = (
    revoke_capability-Everywhere (Confined handle allowed) r h p v,
    rw (revoke_capability-kept h p r).1 old,
  )

  -- While the handle is one that was given out, nobody may share it, and only allowed processes
  -- hold a capability for it, no sequence of calls changes that: no process gains one.
  pub Reach-IsConfined :
      {r s : ObjectRegistry Object}
      → Reach r s
      → handle < r.next_handle
      → IsConfined handle allowed r
      → IsConfined handle allowed s × (handle < s.next_handle)
  Reach-IsConfined here old v = (v, old)
  Reach-IsConfined (later path step) old v =
      let (w, next) = Reach-IsConfined path old v in Step-IsConfined step next w
