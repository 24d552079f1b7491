-- ===== src/Elector.antt =====
-- internal/elector: the election of a Primary.
pub mod Election
pub mod ElectionLaws
pub mod MajorityLaws
pub mod Tests
