-- ===== src/Prelude/Js.antt =====
-- JavaScript's `Map` and `Set`, in insertion order, over keys with a decided equality.
mod Keys
mod Sets
mod Maps
unfoldable pub use Keys.*
unfoldable pub use Sets.*
unfoldable pub use Maps.*
