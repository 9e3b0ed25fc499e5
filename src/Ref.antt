-- ===== src/Ref.antt =====
-- proxystore/store/ref.py and the out-of-scope handling of proxystore/store/scopes.py.
pub mod Heap
pub mod Scope
pub mod Borrow
pub mod Counts
pub mod Invariant
pub mod Attach
pub mod Endings
pub mod Rules
pub mod Lending
pub mod Runs
mod Tests
