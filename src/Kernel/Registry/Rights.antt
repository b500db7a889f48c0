-- ===== src/Kernel/Registry/Rights.antt =====
-- What a transferred capability allows, and what is left after it is revoked.
use prisma_os.Base.{
  ℕ, ◌≡◌, refl, inl, inr, true, List, [], ◌∷◌, ◌++◌, none, some, ◌==◌, if◌then◌else◌, arith,
  Bool-cases, ==_refl,
}
use prisma_os.Base.Maps.{lookup, insert, lookup-insert}
use prisma_os.Kernel.Registry.{
  share_right, has, Capability, ok, err, handle_not_found, insufficient_rights, ObjectRegistry,
  find_capability, remove_capability, push_capability, get_object, transfer_capability,
  revoke_capability,
}
use prisma_os.Kernel.Registry.Authority.{capabilities_of}

find_capability-append :
    (h : ℕ) (cs : List Capability) (c : Capability)
    → find_capability h cs ≡ none
    → c.handle ≡ h
    → find_capability h (cs ++ (c ∷ [])) ≡ some c
unfolding find_capability
find_capability-append h [] c e same = let here : (c.handle == h) ≡ true = ground arith in rw here
find_capability-append h (d ∷ cs) c e same = elim (Bool-cases (d.handle == h)) [
  | inl here ↦ let never : some d ≡ none = rw here at e in cc
  | inr other ↦ rw other (find_capability-append h cs c (rw other at e) same)
]

remove_capability-append :
    (h : ℕ) (cs : List Capability) (c : Capability)
    → find_capability h cs ≡ none
    → c.handle ≡ h
    → find_capability h (remove_capability h (cs ++ (c ∷ []))) ≡ none
unfolding find_capability remove_capability
remove_capability-append h [] c e same = let here : (c.handle == h) ≡ true = ground arith in rw here
remove_capability-append h (d ∷ cs) c e same = elim (Bool-cases (d.handle == h)) [
  | inl here ↦ let never : some d ≡ none = rw here at e in cc
  | inr other ↦ rw (other, other) (remove_capability-append h cs c (rw other at e) same)
]

module _ {Object : Type 0} (r : ObjectRegistry Object) (h from to rights : ℕ) (cs : List Capability)
    (c : Capability) (object : Object) (present : lookup from r.capabilities ≡ some cs)
    (found : find_capability h cs ≡ some c) (sharable : has c.rights share_right ≡ true)
    (fresh : find_capability h (capabilities_of r to) ≡ none)
    (known : lookup h r.objects ≡ some object) where
  given : Capability
  given = record { handle = h; rights = rights; owner = to }

  transferred : transfer_capability h from to rights r ≡ (push_capability to given r, ok tt)
  unfolding transfer_capability given
  transferred = rw (present, found, sharable, transfer_capability)

  abbrev after : List Capability
  after = capabilities_of r to ++ (given ∷ [])

  stored : lookup to (push_capability to given r).capabilities ≡ some after
  unfolding push_capability given
  stored = rw (lookup-insert to to after r.capabilities, ==_refl to)

  -- When the capability that a process has for a registered object allows sharing, it can give any
  -- rights to it, whatever other rights it has itself, to a process that has no capability for the
  -- object: that process then passes exactly the checks for the rights that it was given.
  pub get_object-transfer_capability :
      (required : ℕ)
      → get_object h to required (transfer_capability h from to rights r).0
        ≡ (if has rights required then ok object else err insufficient_rights)
  unfolding push_capability given get_object
  get_object-transfer_capability required =
      let first = find_capability-append h (capabilities_of r to) given fresh refl in
      rw transferred (elim (Bool-cases (has rights required)) [
        | inl allowed ↦ rw (stored, first, allowed, known, get_object)
        | inr refused ↦ rw (stored, first, refused, get_object)
      ])

  -- Revoking what was transferred takes the access away again.
  pub get_object-revoke_capability :
      (required : ℕ)
      → get_object h to required
          (revoke_capability h to (transfer_capability h from to rights r).0).0
        ≡ err handle_not_found
  unfolding push_capability given revoke_capability insert get_object
  get_object-revoke_capability required =
      let first = find_capability-append h (capabilities_of r to) given fresh refl in
      let gone = remove_capability-append h (capabilities_of r to) given fresh refl in
      let revoked : revoke_capability h to (push_capability to given r) ≡ (
        record (push_capability to given r) {
          capabilities =
              insert to (remove_capability h after) (push_capability to given r).capabilities;
        },
        ok tt,
      ) =
        rw (stored, first, revoke_capability) in
      rw (transferred, revoked)
        (rw (
          lookup-insert to to (remove_capability h after) (push_capability to given r).capabilities,
          ==_refl to,
          gone,
          get_object,
        ))
