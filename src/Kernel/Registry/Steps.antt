-- ===== src/Kernel/Registry/Steps.antt =====
-- The registry as a step relation, and what holds in every state that it reaches.
use prisma_os.Base.{
  ℕ, ◌+◌, ◌<◌, ◌^◌, ◌≡◌, ◌≢◌, refl, inl, inr, true, List, [], ◌∷◌, none, ◌==◌, arith, Bool-cases,
  Option-cases, All, subst,
}
use prisma_os.Base.Words.{add64}
use prisma_os.Base.Maps.{lookup, insert, lookup-insert}
use prisma_os.Kernel.Registry.{
  has, Capability, err, object_not_found, ObjectRegistry, new, find_capability, or_empty,
  push_capability, register_object, get_object, transfer_capability, revoke_capability,
}
use prisma_os.Kernel.Registry.Authority.{
  capabilities_of, Everywhere, push_capability-Everywhere, revoke_capability-Everywhere,
  transfer_capability-Everywhere, find_capability-All,
}

-- One call of a process. The counter of handles does not wrap.
pub data Step {Object : Type 0} : ObjectRegistry Object → ObjectRegistry Object → Type 0 where
  register :
      (object : Object) (owner rights : ℕ) (r : ObjectRegistry Object)
      → r.next_handle + 1 < 2 ^ 64
      → Step r (register_object object owner rights r).0
  transfer :
      (handle from to rights : ℕ) (r : ObjectRegistry Object)
      → Step r (transfer_capability handle from to rights r).0
  revoke :
      (handle process : ℕ) (r : ObjectRegistry Object)
      → Step r (revoke_capability handle process r).0

pub data Reach {Object : Type 0} (r : ObjectRegistry Object) : ObjectRegistry Object → Type 0 where
  here : Reach r r
  later : {s t : ObjectRegistry Object} → Reach r s → Step s t → Reach r t

-- A capability names its owner, and an object that the registry has.
abbrev Proper : {Object : Type 0} → List (ℕ × Object) → ℕ → Capability → Type 0
Proper objects p c = (c.owner ≡ p) × (lookup c.handle objects ≢ none)

abbrev pub IsRegistry : {Object : Type 0} → ObjectRegistry Object → Type 0
IsRegistry r = Everywhere (Proper r.objects) r

new-IsRegistry : (Object : Type 0) → IsRegistry (new {Object = Object})
unfolding new lookup
new-IsRegistry Object p = tt

module _ {Object : Type 0} where
  lookup-insert_kept :
      (h k : ℕ) (object : Object) (objects : List (ℕ × Object))
      → lookup h objects ≢ none
      → lookup h (insert k object objects) ≢ none
  lookup-insert_kept h k object objects there = elim (Bool-cases (k == h)) [
    | inl same ↦ rw (lookup-insert k h object objects, same) (λ e. cc)
    | inr other ↦ rw (lookup-insert k h object objects, other) there
  ]

  All-Proper :
      (k p : ℕ) (object : Object) (objects : List (ℕ × Object)) (cs : List Capability)
      → All (Proper objects p) cs
      → All (Proper (insert k object objects) p) cs
  All-Proper k p object objects [] a = a
  All-Proper k p object objects (c ∷ cs) a = (
    (a.0.0, lookup-insert_kept c.handle k object objects a.0.1),
    All-Proper k p object objects cs a.1,
  )

  lookup-insert_self :
      (k : ℕ) (object : Object) (objects : List (ℕ × Object))
      → lookup k (insert k object objects) ≢ none
  lookup-insert_self k object objects =
      let here : (k == k) ≡ true = ground arith in
      rw (lookup-insert k k object objects, here) (λ e. cc)

  register_object-IsRegistry :
      (object : Object) (owner rights : ℕ) (r : ObjectRegistry Object)
      → IsRegistry r
      → IsRegistry (register_object object owner rights r).0
  unfolding register_object
  register_object-IsRegistry object owner rights r v =
      push_capability-Everywhere (Proper (insert r.next_handle object r.objects))
        (record r {
          next_handle = add64 r.next_handle 1;
          objects = insert r.next_handle object r.objects;
        })
        owner _ (refl, lookup-insert_self r.next_handle object r.objects)
        (λ p. All-Proper r.next_handle p object r.objects (capabilities_of r p) (v p))

  -- Transferring and revoking leave the objects and the counter alone.
  pub transfer_capability-kept :
      (h from to rights : ℕ) (r : ObjectRegistry Object)
      → ((transfer_capability h from to rights r).0.objects ≡ r.objects)
        × ((transfer_capability h from to rights r).0.next_handle ≡ r.next_handle)
  unfolding transfer_capability push_capability
  transfer_capability-kept h from to rights r = ground arith

  pub revoke_capability-kept :
      (h p : ℕ) (r : ObjectRegistry Object)
      → ((revoke_capability h p r).0.objects ≡ r.objects)
        × ((revoke_capability h p r).0.next_handle ≡ r.next_handle)
  unfolding revoke_capability
  revoke_capability-kept h p r = ground arith

  transfer_capability-IsRegistry :
      (h from to rights : ℕ) (r : ObjectRegistry Object)
      → IsRegistry r
      → IsRegistry (transfer_capability h from to rights r).0
  transfer_capability-IsRegistry h from to rights r v =
      rw (transfer_capability-kept h from to rights r).0 (
        transfer_capability-Everywhere (Proper r.objects) r h from to rights
          (λ c proper same sharable. (refl, subst (λ k. lookup k r.objects ≢ none) same proper.1))
          v)

  Step-IsRegistry : {r s : ObjectRegistry Object} → Step r s → IsRegistry r → IsRegistry s
  Step-IsRegistry (register object owner rights r small) v =
      register_object-IsRegistry object owner rights r v
  Step-IsRegistry (transfer h from to rights r) v =
      transfer_capability-IsRegistry h from to rights r v
  Step-IsRegistry (revoke h p r) v =
      rw (revoke_capability-kept h p r).0 (revoke_capability-Everywhere (Proper r.objects) r h p v)

  Reach-IsRegistry : {r s : ObjectRegistry Object} → Reach r s → IsRegistry r → IsRegistry s
  Reach-IsRegistry here v = v
  Reach-IsRegistry (later path step) v = Step-IsRegistry step (Reach-IsRegistry path v)

  -- In every state that a new registry reaches, a lookup that passes the checks finds its object: a
  -- capability never outlives what it names.
  pub Reach-get_object :
      (s : ObjectRegistry Object) (handle process rights : ℕ)
      → Reach new s
      → get_object handle process rights s ≢ err object_not_found
  unfolding get_object
  Reach-get_object s handle process rights path =
      let v : IsRegistry s = Reach-IsRegistry path (new-IsRegistry Object) in
      elim (Option-cases (lookup process s.capabilities)) [
        | inl absent ↦ rw (absent, get_object) (λ e. cc)
        | inr (cs, present) ↦
            let mine : All (Proper s.objects process) cs =
              subst (λ o. All (Proper s.objects process) (or_empty o)) present (v process) in
            elim (Option-cases (find_capability handle cs)) [
              | inl none_there ↦ rw (present, none_there, get_object) (λ e. cc)
              | inr (c, found) ↦
                  let (proper, same) =
                    find_capability-All (Proper s.objects process) handle cs c mine found in
                  let there : lookup handle s.objects ≢ none =
                    subst (λ k. lookup k s.objects ≢ none) same proper.1 in
                  elim (Option-cases (lookup handle s.objects)) [
                    | inl missing ↦ absurd (there missing)
                    | inr (object, known) ↦ elim (Bool-cases (has c.rights rights)) [
                      | inl allowed ↦ rw (present, found, allowed, known, get_object) (λ e. cc)
                      | inr refused ↦ rw (present, found, refused, get_object) (λ e. cc)
                    ]
                  ]
            ]
      ]
