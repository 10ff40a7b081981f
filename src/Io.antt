-- ===== src/Io.antt =====
-- System calls. Each may succeed, fail with an error that the code handles, or be the point at which
-- the process is killed; which it is comes from a schedule that the caller does not choose.
mod Monad
mod Hoare
mod Frame
mod Files
mod Zoom
pub use Monad.*
pub use Hoare.*
pub use Frame.*
unfoldable pub use Files.*
unfoldable pub use Zoom.*
