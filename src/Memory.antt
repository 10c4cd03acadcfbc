-- ===== src/Memory.antt =====
-- C objects of bytes: the parts of <string.h> that the programs use.
mod Strings
mod Laws
mod Inverse
mod Ends
pub use Laws.*
pub use Inverse.*
pub use Ends.*
unfoldable pub use Strings.*
