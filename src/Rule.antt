-- ===== src/Rule.antt =====
-- sdk/rule: protocol semantic rules. `Predicate` judges an event, `Validity` checks predicates,
-- `Semantic` has rules and their validation, `Declared` the rules that it accepts, with the form of ids in
-- `Ids`, `Evaluation` runs rules over an event, and `Effects` and `Partition` are about what that finds.
pub mod Json
pub mod Issue
pub mod Predicate
pub mod Meaning
pub mod Validity
pub mod Report
pub mod Semantic
pub mod Ids
pub mod Declared
pub mod Evaluation
pub mod Effects
pub mod Partition
pub mod Sample
pub mod Tests
