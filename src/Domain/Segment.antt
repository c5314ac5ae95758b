-- ===== src/Domain/Segment.antt =====
-- crates/flaps-domain/src/segment.rs.
use flaps.Prelude.{String, List}
use flaps.Json.{Value}

pub data MatchOperator : Type 0 where
  equals not_equals in_list not_in_list starts_with ends_with contains : MatchOperator
  sem_ver_eq sem_ver_neq sem_ver_lt sem_ver_lte : MatchOperator
  sem_ver_gt sem_ver_gte sem_ver_caret sem_ver_tilde : MatchOperator

pub record Predicate (N : Type 0) : Type 0 where
  pub attribute : String
  pub operator : MatchOperator
  pub values : List (Value N)

-- `SegmentMatches` is `Vec<SegmentMatch>`.
mutual
  pub data SegmentMatch (N : Type 0) : Type 0 where
    and or : SegmentMatches N → SegmentMatch N
    not : SegmentMatch N → SegmentMatch N
    predicate : Predicate N → SegmentMatch N

  pub data SegmentMatches (N : Type 0) : Type 0 where
    nil : SegmentMatches N
    cons : SegmentMatch N → SegmentMatches N → SegmentMatches N
