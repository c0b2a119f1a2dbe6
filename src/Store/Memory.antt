-- ===== src/Store/Memory.antt =====
-- internal/store/memory.go: the repository behind a mutex. Each method is one atomic step, so a
-- concurrent history is a sequence of calls; a method that writes returns the new repository
-- beside its result. The clones that keep callers from aliasing the maps are values here.
mod Repository
mod Create
mod Leases
mod Writes
unfoldable pub use Repository.*
unfoldable pub use Create.*
unfoldable pub use Leases.*
unfoldable pub use Writes.*
