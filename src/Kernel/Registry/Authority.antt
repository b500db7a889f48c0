-- ===== src/Kernel/Registry/Authority.antt =====
-- What holds of every capability, and who can come to hold one: no process gains a capability for
-- a handle that nobody may share.
use prisma_os.Base.{
  ℕ, ◌≡◌, inl, inr, true, List, [], ◌∷◌, ◌++◌, some, ◌==◌, arith, Bool-cases, Option-cases, All,
  All-append, subst,
}
use prisma_os.Base.Maps.{lookup, insert, lookup-insert}
use prisma_os.Kernel.Registry.{
  share_right, has, Capability, ObjectRegistry, find_capability, remove_capability, or_empty,
  push_capability, transfer_capability, revoke_capability,
}

-- The capabilities of a process.
abbrev pub capabilities_of : {Object : Type 0} → ObjectRegistry Object → ℕ → List Capability
capabilities_of r p = or_empty (lookup p r.capabilities)

==→eq : (a b : ℕ) → (a == b) ≡ true → a ≡ b
==→eq a b e = ground arith

pub find_capability-All :
    (P : Capability → Type 0) (h : ℕ) (cs : List Capability) (c : Capability)
    → All P cs
    → find_capability h cs ≡ some c
    → P c × (c.handle ≡ h)
unfolding find_capability
find_capability-All P h [] c a e = cc
find_capability-All P h (d ∷ cs) c a e = elim (Bool-cases (d.handle == h)) [
  | inl here ↦ let same : d ≡ c = ground arith in (subst P same a.0, ground arith)
  | inr other ↦ find_capability-All P h cs c a.1 (rw other at e)
]

remove_capability-All :
    (P : Capability → Type 0) (h : ℕ) (cs : List Capability)
    → All P cs
    → All P (remove_capability h cs)
unfolding remove_capability
remove_capability-All P h [] a = a
remove_capability-All P h (c ∷ cs) a = elim (Bool-cases (c.handle == h)) [
  | inl here ↦ rw here a.1
  | inr other ↦ rw other (a.0, remove_capability-All P h cs a.1)
]

-- A property of every capability that a process holds.
module _ {Object : Type 0} (P : ℕ → Capability → Type 0) where
  abbrev pub Everywhere : ObjectRegistry Object → Type 0
  Everywhere r = (p : ℕ) → All (P p) (capabilities_of r p)

  Everywhere-insert :
      (r : ObjectRegistry Object) (p : ℕ) (cs : List Capability)
      → All (P p) cs
      → Everywhere r
      → Everywhere (record r { capabilities = insert p cs r.capabilities })
  Everywhere-insert r p cs new old q = elim (Bool-cases (p == q)) [
    | inl same ↦
        rw (lookup-insert p q cs r.capabilities, same)
          (subst (λ x. All (P x) cs) (==→eq p q same) new)
    | inr other ↦ rw (lookup-insert p q cs r.capabilities, other) (old q)
  ]

  pub push_capability-Everywhere :
      (r : ObjectRegistry Object) (p : ℕ) (c : Capability)
      → P p c
      → Everywhere r
      → Everywhere (push_capability p c r)
  unfolding push_capability
  push_capability-Everywhere r p c new old =
      Everywhere-insert r p (capabilities_of r p ++ (c ∷ []))
        (All-append (P p) (capabilities_of r p) (c ∷ []) (old p) (new, tt)) old

  pub revoke_capability-Everywhere :
      (r : ObjectRegistry Object) (h p : ℕ) → Everywhere r → Everywhere (revoke_capability h p r).0
  unfolding revoke_capability
  revoke_capability-Everywhere r h p old = elim (Option-cases (lookup p r.capabilities)) [
    | inl absent ↦ rw (absent, revoke_capability) old
    | inr (cs, present) ↦
        let mine : All (P p) cs = subst (λ o. All (P p) (or_empty o)) present (old p) in
        elim (Option-cases (find_capability h cs)) [
          | inl none_there ↦ rw (present, none_there, revoke_capability) old
          | inr (c, found) ↦
              rw (present, found, revoke_capability)
                (Everywhere-insert r p (remove_capability h cs)
                  (remove_capability-All (P p) h cs mine) old)
        ]
  ]

  pub transfer_capability-Everywhere :
      (r : ObjectRegistry Object) (h from to rights : ℕ)
      → ((c : Capability)
          → P from c
          → c.handle ≡ h
          → has c.rights share_right ≡ true
          → P to (record { handle = h; rights = rights; owner = to }))
      → Everywhere r
      → Everywhere (transfer_capability h from to rights r).0
  unfolding transfer_capability
  transfer_capability-Everywhere r h from to rights step old =
      elim (Option-cases (lookup from r.capabilities)) [
        | inl absent ↦ rw (absent, transfer_capability) old
        | inr (cs, present) ↦
            let mine : All (P from) cs =
              subst (λ o. All (P from) (or_empty o)) present (old from) in
            elim (Option-cases (find_capability h cs)) [
              | inl none_there ↦ rw (present, none_there, transfer_capability) old
              | inr (c, found) ↦
                  let (holds_p, same) = find_capability-All (P from) h cs c mine found in
                  elim (Bool-cases (has c.rights share_right)) [
                    | inl sharable ↦
                        rw (present, found, sharable, transfer_capability)
                          (push_capability-Everywhere r to _ (step c holds_p same sharable) old)
                    | inr private ↦ rw (present, found, private, transfer_capability) old
                  ]
            ]
      ]
