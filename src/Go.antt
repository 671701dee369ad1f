-- ===== src/Go.antt =====
-- How Go code is translated: error values, code that returns one (`Exec`), code that may panic
-- (`Act`).
mod Errors
pub mod Exec
pub mod Act
pub mod Hoare
pub mod Returns
pub mod Total
pub mod Panics
pub use Errors.*
