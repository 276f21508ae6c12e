-- ===== src/Common/Executive.antt =====
-- What the applications share of the executive: CFE_ES_RunStatus, and the file operations of a
-- save.

pub data RunStatus : Type 0 where
  app_run app_error : RunStatus

-- How far the SaveState of an application gets: the calls of open, write and rename.
pub data SaveOutcome : Type 0 where
  open_failed write_failed rename_failed saved : SaveOutcome
