-- ===== src/Engine.antt =====
-- The conversion engine, pkg/engine: values, field paths, coercions, operations, conversion.
pub mod Schema
pub mod Json
pub mod Failure
pub mod Path
pub mod Kind
pub mod Runtime
pub mod Coerce
pub mod Equal
pub mod Known
pub mod Op
pub mod Ops
pub mod Rule
pub mod Problem
pub mod Diagnostics
pub mod Platform
pub mod Required
pub mod Compile
pub mod Analyze
pub mod Convert
