-- ===== src/Statue/Error.antt =====
-- crates/Statue/src/error.rs.

pub data ElfError : Type 0 where
  invalid_magic unsupported_class unsupported_encoding unsupported_version : ElfError
  unsupported_architecture invalid_header invalid_program_header : ElfError
  invalid_section_header invalid_symbol invalid_relocation buffer_too_small : ElfError
  invalid_offset invalid_address invalid_alignment allocation_failed mapping_failed : ElfError
  permission_denied unsupported_relocation missing_section missing_symbol : ElfError
  circular_dependency dynamic_linking_failed execution_setup_failed : ElfError
  unsupported_operation invalid_string_table string_not_found index_out_of_bounds : ElfError
  arithmetic_overflow parse_error : ElfError

pub data Result {ℓ} (A : Type ℓ) : Type ℓ where
  ok : A → Result A
  err : ElfError → Result A
