-- ===== src/Executor/Join.antt =====
-- executor/hash_join.rs, nested_loop_join.rs and merge_join.rs. A row is the list of its values, of any
-- type with a null; `pad types` is a null for each column.
pub mod Hash
pub mod NestedLoop
pub mod Merge
pub mod Agree
pub mod Semi
mod Tests
use risinglight.Prelude.{Bool, true, false, List, map}

pub data JoinType : Type 0 where
  inner : JoinType
  left_outer : JoinType
  right_outer : JoinType
  full_outer : JoinType

-- `T == JoinType::LeftOuter || T == JoinType::FullOuter`
abbrev pub keeps_left : JoinType → Bool
keeps_left JoinType.left_outer = true
keeps_left JoinType.full_outer = true
keeps_left _ = false

-- `T == JoinType::RightOuter || T == JoinType::FullOuter`
abbrev pub keeps_right : JoinType → Bool
keeps_right JoinType.right_outer = true
keeps_right JoinType.full_outer = true
keeps_right _ = false

-- `types.iter().map(|_| DataValue::Null)`
abbrev pub pad : {D V : Type 0} → V → List D → List V
pad null types = map (λ _. null) types
