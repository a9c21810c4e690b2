-- ===== src/Types.antt =====
-- types/types.go.
pub mod Constraints
pub mod Domains
pub mod StatusCodes
