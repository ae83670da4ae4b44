-- ===== src/Outcome.antt =====
-- protocol/outcome.py: the immutable results of a session. A frozen dataclass whose `__post_init__`
-- may raise has a constructor function `make_…` that returns the record or raises; `replace` runs it
-- again, as `dataclasses.replace` does.
mod Tests
mod Data
mod Reports
pub mod Validity
pub mod Failures
unfoldable pub use Data.*
unfoldable pub use Reports.*
