-- ===== src/Prelude/Lists.antt =====
-- Lists measured by native numbers, and the array methods of the source as recursive functions.
mod Search
mod Sort
pub use Search.*
pub use Sort.*
unfoldable pub use Sort.{sort, insert_sorted}
