-- ===== src/Base/Results.antt =====
-- `enum nova_result` of kernel/core/include/nova_core.h.
pub data Status : Type 0 where
  ok err full empty not_found : Status
