-- ===== src/OrderedMap.antt =====
-- std::map, of the language's library, as the list of its entries in the order of its comparator:
-- a search goes to the first key that does not come before the one sought.
mod Defs
mod Laws
unfoldable pub use Defs.*
pub use Laws.*
