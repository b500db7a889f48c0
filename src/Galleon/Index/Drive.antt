-- ===== src/Galleon/Index/Drive.antt =====
-- The sectors of an index node: `BTreeManager` of crates/galleon2/src/btree.rs with its `read_node`
-- and `write_node`, over the sectors of the IDE driver.
use prisma_os.Base.{
  Bool, ℕ, ◌/◌, ◌%◌, ◌^◌, ◌≡◌, refl, true, false, List, [], ◌++◌, Option, none, some, ltb, length,
  drop, replicate, ◌⊎◌, inl, inr,
}
use prisma_os.Base.Words.{add64, mul64}
use prisma_os.Galleon.Error.{FilesystemError, IdeError, FilesystemResult, ok, err, from_ide}
use prisma_os.Galleon.Volume.{Ide, Read, bytes, failed}
use prisma_os.Galleon.Index.{
  IndexHeader, index_node_size, Result, read, refused, panic, header_deserialize,
}
use prisma_os.Galleon.Index.Node.{IndexNode}
use prisma_os.Galleon.Index.Bytes.{
  Entries, entries, bad, panicked, out_of_fuel, read_entries, node_serialize, node_deserialize,
}

pub record BTreeManager : Type 0 where
  pub drive : ℕ
  pub root_vcn : ℕ
  pub index_allocation_start : ℕ
  pub cluster_size : ℕ

abbrev btree_manager_new : ℕ → ℕ → ℕ → ℕ → BTreeManager
btree_manager_new drive root_vcn index_allocation_start cluster_size = record {
  drive = drive;
  root_vcn = root_vcn;
  index_allocation_start = index_allocation_start;
  cluster_size = cluster_size;
}

abbrev sectors_per_node : ℕ
sectors_per_node = index_node_size / 512

unfoldable node_sector : BTreeManager → ℕ → ℕ
node_sector m vcn = mul64 (add64 m.index_allocation_start vcn) (m.cluster_size / 512)

module _ {Disk : Type 0} (device : Ide Disk) (lossy : List ℕ → List ℕ) where
  -- The right side of the sum is the end of the fuel.
  unfoldable read_node : ℕ → BTreeManager → Disk → ℕ → Result IndexNode ⊎ Unit {0}
  unfolding node_sector node_deserialize
  read_node fuel m disk vcn =
      elim (device.read_sectors disk m.drive (sectors_per_node % 2 ^ 8)
        (node_sector m vcn % 2 ^ 32)) [
          | failed e ↦ inl (refused (from_ide e))
          | bytes sectors ↦
              node_deserialize lossy fuel
                (sectors ++ drop (length sectors) (replicate index_node_size 0)) vcn
        ]

  abbrev after_write : Disk × Option IdeError → Disk × Option FilesystemError
  after_write (disk, none) = (disk, none)
  after_write (disk, some e) = (disk, some (from_ide e))

  unfoldable write_node : BTreeManager → IndexNode → Disk → Disk × Option FilesystemError
  unfolding node_sector node_serialize
  write_node m n disk = after_write (
      device.write_sectors disk m.drive (sectors_per_node % 2 ^ 8) (node_sector m n.vcn % 2 ^ 32)
        (node_serialize n))

abbrev Numbered : ℕ → Result IndexNode ⊎ Unit {0} → Type 0
Numbered vcn (inl (read n)) = n.vcn ≡ vcn
Numbered vcn (inl (refused e)) = Unit
Numbered vcn (inl panic) = Unit
Numbered vcn (inr u) = Unit

node_deserialize-Numbered :
    (lossy : List ℕ → List ℕ) (fuel : ℕ) (input : List ℕ) (vcn : ℕ)
    → Numbered vcn (node_deserialize lossy fuel input vcn)
unfolding node_deserialize
node_deserialize-Numbered lossy fuel input vcn =
    go (ltb (length input) index_node_size) (header_deserialize input) refl refl
  where
    go :
        (short : Bool) (found : FilesystemResult IndexHeader)
        → ltb (length input) index_node_size ≡ short
        → header_deserialize input ≡ found
        → Numbered vcn (node_deserialize lossy fuel input vcn)
    go true found e e' = rw e tt
    go false (err x) e e' = rw (e, e') tt
    go false (ok header) e e' =
        body (read_entries lossy fuel header.entries_offset header.index_length input []) refl
      where
        body :
            (es : Entries)
            → read_entries lossy fuel header.entries_offset header.index_length input [] ≡ es
            → Numbered vcn (node_deserialize lossy fuel input vcn)
        body (entries es) e'' = rw (e, e', e'') refl
        body (bad x) e'' = rw (e, e', e'') tt
        body panicked e'' = rw (e, e', e'') tt
        body out_of_fuel e'' = rw (e, e', e'') tt

-- A node that is read from the drive has the number that it is read under.
read_node-Numbered :
    {Disk : Type 0}
    → (device : Ide Disk) (lossy : List ℕ → List ℕ) (fuel : ℕ) (m : BTreeManager) (disk : Disk)
      (vcn : ℕ)
    → Numbered vcn (read_node device lossy fuel m disk vcn)
unfolding read_node
read_node-Numbered device lossy fuel m disk vcn =
    go (device.read_sectors disk m.drive (sectors_per_node % 2 ^ 8) (node_sector m vcn % 2 ^ 32))
      refl
  where
    go :
        (found : Read)
        → device.read_sectors disk m.drive (sectors_per_node % 2 ^ 8) (node_sector m vcn % 2 ^ 32)
          ≡ found
        → Numbered vcn (read_node device lossy fuel m disk vcn)
    go (failed e) h = rw (h, read_node) tt
    go (bytes sectors) h =
        rw (h, read_node)
          (node_deserialize-Numbered lossy fuel
            (sectors ++ drop (length sectors) (replicate index_node_size 0)) vcn)
