-- ===== src/Application/Pages.antt =====
-- application/list_platform_connections_use_case.py and
-- list_organization_audit_events_use_case.py: listings by pages, each with a cursor to the next.
-- Logging is left out.
pub mod Order
pub mod Entries
pub mod Listing
use muxivo_console.Shared.{
  ℕ, ◌+◌, Bool, not, ◌&&◌, Option, none, some, List, [], ◌∷◌, length, take, leb, ltb, Result, ok,
  err, if◌then◌else◌,
}
use muxivo_console.Domain.Activity.{Uuid}
use muxivo_console.Domain.Audit.{AuditLogEntry, AuditError}
use muxivo_console.Domain.Authorization.{
  AuthorizationRequest, AuthorizationResource, AuthorizationAction,
}
use muxivo_console.Domain.Connections.{PlatformConnection}
use muxivo_console.Persistence.Database.{Database}
use muxivo_console.Persistence.Connections.{list_for_organization}
use muxivo_console.Persistence.Organizations.{list_audit_events}
use muxivo_console.Application.Authorizer.{authorize}

-- The `ValueError` of a page size, `AccessDeniedError`, and the `ValueError` of an entry.
pub data PageError : Type 0 where
  invalid_limit access_denied : PageError
  invalid_entry : AuditError → PageError

-- `PlatformConnectionPage` and `AuditEventPage`
pub record Page (A : Type 0) : Type 0 where
  pub items : List A
  pub next_cursor : Option Uuid

-- `items[-1].id if items else None`
abbrev pub last_id : {A : Type 0} → (A → Uuid) → List A → Option Uuid
last_id id_of [] = none
last_id id_of (x ∷ []) = some (id_of x)
last_id id_of (x ∷ y ∷ ys) = last_id id_of (y ∷ ys)

-- A page of what was read, of which there is one more than the limit if there is a next page.
abbrev pub page_of : {A : Type 0} → (A → Uuid) → ℕ → List A → Page A
page_of id_of limit results = record {
  items = take limit results;
  next_cursor = if ltb limit (length results) then last_id id_of (take limit results) else none;
}

abbrev pub list_request : AuthorizationResource → Uuid → Uuid → AuthorizationRequest
list_request resource actor o = record {
  actor_id = actor;
  organization_id = o;
  resource = resource;
  action = AuthorizationAction.read;
}

abbrev pub is_page_size : ℕ → Bool
is_page_size limit = leb 1 limit && leb limit 100

-- `ListPlatformConnections.execute`
unfoldable pub list_platform_connections :
    Uuid → Uuid → Option Uuid → ℕ → Database → Result PageError (Page PlatformConnection)
list_platform_connections actor o after limit db =
    if not (is_page_size limit)
    then err PageError.invalid_limit
    else if not
        (authorize (list_request AuthorizationResource.platform_connections actor o) db).allowed
    then err PageError.access_denied
    else ok (page_of (λ c. c.id) limit (list_for_organization o after (limit + 1) db))

-- `ListOrganizationAuditEvents.execute`
unfoldable pub list_organization_audit_events :
    (Uuid → ℕ) → Uuid → Uuid → Option Uuid → ℕ → Database → Result PageError (Page AuditLogEntry)
list_organization_audit_events created_at actor o after limit db =
    if not (is_page_size limit)
    then err PageError.invalid_limit
    else if not (authorize (list_request AuthorizationResource.audit_events actor o) db).allowed
    then err PageError.access_denied
    else elim (list_audit_events created_at o after (limit + 1) db) [
      | err e ↦ err (PageError.invalid_entry e)
      | ok entries ↦ ok (page_of (λ e. e.id) limit entries)
    ]
