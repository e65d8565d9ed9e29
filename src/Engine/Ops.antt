-- ===== src/Engine/Ops.antt =====
-- pkg/engine: what each operation of a plan does.
pub mod Fields
pub mod Metadata
pub mod Values
pub mod Maps
pub mod External
pub mod Apply
pub mod RoundTrip
pub mod Renames
pub mod Lists
pub mod Elements
pub mod Unions
