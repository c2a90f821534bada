-- ===== src/Approval/Store.antt =====
-- agent/approval_workflow/store.py: the append-only JSONL store of approval events. The file is the
-- list of the values of its lines; whether the environment allows writes is part of the state.
pub mod Appended
use ai_native_governed_data.Prelude.{
  String, Bool, not, List, [], ◌∷◌, ◌++◌, if◌then◌else◌, ◌==◌, length,
}
use ai_native_governed_data.Prelude.Json.{Json, text, dict}
use ai_native_governed_data.Approval.{
  ApprovalAuditEvent, ApprovalCase, request_fields, event_fields,
}
use ai_native_governed_data.Approval.Chain.{same}

pub record JsonlApprovalAuditStore : Type 0 where
  pub is_allowed : Bool
  pub lines : List Json

-- How a call ends: it has written its line, or it raises `ValueError` or `ApprovalAuditWriteRefused`.
pub data Ending : Type 0 where
  stored : Ending
  value_error : Ending
  write_refused : Ending

abbrev pub write_line : JsonlApprovalAuditStore → Json → JsonlApprovalAuditStore
write_line store payload = record store { lines = store.lines ++ payload ∷ [] }

abbrev pub case_line : ApprovalCase → ApprovalAuditEvent → Json
case_line c e = dict (
    ("record_type", text "APPROVAL_REQUEST")
    ∷ ("request", dict (request_fields c.request))
    ∷ ("event", dict (event_fields e))
    ∷ [])

unfoldable pub append_new_case :
    JsonlApprovalAuditStore → ApprovalCase → JsonlApprovalAuditStore × Ending
append_new_case store c = elim c.events [
  | [] ↦ (store, value_error)
  | e ∷ es ↦
      if not (length es == 0)
      then (store, value_error)
      else if not store.is_allowed
      then (store, write_refused)
      else (write_line store (case_line c e), stored)
]

abbrev pub event_line : String → ApprovalAuditEvent → Json
event_line request_hash e = dict (
    ("record_type", text "APPROVAL_EVENT")
    ∷ ("request_hash", text request_hash)
    ∷ ("event", dict (event_fields e))
    ∷ [])

unfoldable pub append_event_line :
    JsonlApprovalAuditStore → String → ApprovalAuditEvent → JsonlApprovalAuditStore × Ending
append_event_line store request_hash e =
    if not store.is_allowed
    then (store, write_refused)
    else if not (same e.request_hash request_hash)
    then (store, value_error)
    else (write_line store (event_line request_hash e), stored)
