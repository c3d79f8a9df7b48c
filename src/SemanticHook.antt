-- ===== src/SemanticHook.antt =====
-- cmd/gt-pipeline/semantic_hook.go, which writes to events what the rules of Rule find: the pairing of
-- requests and responses (`Pool`, with `Linking` and `Order`), and the names, labels and roles of the meta
-- values (`Labels`, with `Roles` and `Defaults`, and `Shapes` for the values that hold labels).
pub mod Pool
pub mod Linking
pub mod Order
pub mod Labels
pub mod Roles
pub mod Shapes
pub mod Defaults
mod Tests
