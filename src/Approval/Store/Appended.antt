-- ===== src/Approval/Store/Appended.antt =====
-- What any calls of the store leave in its file.
use ai_native_governed_data.Prelude.{
  ℕ, suc, String, true, List, [], ◌∷◌, ◌⊎◌, ◌++◌, ◌≡◌, length, All,
}
use ai_native_governed_data.Prelude.Json.{Json, text, dict}
use ai_native_governed_data.Approval.{
  ApprovalAuditEvent, ApprovalCase, request_fields, event_fields,
}
use ai_native_governed_data.Approval.Store.{
  JsonlApprovalAuditStore, Ending, stored, append_new_case, append_event_line,
}

-- A call of one of the store's two methods.
pub data Call : Type 0 where
  new_case : ApprovalCase → Call
  event_of : String → ApprovalAuditEvent → Call

unfoldable pub call : JsonlApprovalAuditStore → Call → JsonlApprovalAuditStore × Ending
call store (new_case c) = append_new_case store c
call store (event_of request_hash e) = append_event_line store request_hash e

-- Calls one after the other, each of which may raise, and how each ended.
unfoldable pub calls : JsonlApprovalAuditStore → List Call → JsonlApprovalAuditStore × List Ending
calls store [] = (store, [])
calls store (x ∷ xs) =
    let first = call store x in let rest = calls first.0 xs in (rest.0, first.1 ∷ rest.1)

abbrev pub stored_count : List Ending → ℕ
stored_count [] = 0
stored_count (stored ∷ endings) = suc (stored_count endings)
stored_count (_ ∷ endings) = stored_count endings

-- A line that may be in the file: a request with its only event, or an event under the request hash
-- that the event itself carries.
pub data Written : Json → Type 0 where
  of_case :
      (c : ApprovalCase) (e : ApprovalAuditEvent)
      → c.events ≡ e ∷ []
      → Written (
          dict (
            ("record_type", text "APPROVAL_REQUEST")
            ∷ ("request", dict (request_fields c.request))
            ∷ ("event", dict (event_fields e))
            ∷ []))
  of_event :
      (e : ApprovalAuditEvent)
      → Written (
          dict (
            ("record_type", text "APPROVAL_EVENT")
            ∷ ("request_hash", text e.request_hash)
            ∷ ("event", dict (event_fields e))
            ∷ []))

-- From a store to a later one and how the calls between them ended.
pub record Appended (store later : JsonlApprovalAuditStore) (endings : List Ending) : Type 0 where
  pub added : List Json
  pub kept : later.lines ≡ store.lines ++ added
  pub written : All Written added
  pub counted : length added ≡ stored_count endings
  pub permitted : (store.is_allowed ≡ true) ⊎ (added ≡ [])
  pub same_gate : later.is_allowed ≡ store.is_allowed

abbrev Kept : JsonlApprovalAuditStore → JsonlApprovalAuditStore × Ending → Type 0
Kept store outcome = Appended store outcome.0 (outcome.1 ∷ [])
