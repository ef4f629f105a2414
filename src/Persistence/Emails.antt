-- ===== src/Persistence/Emails.antt =====
-- infrastructure/persistence/identity_repository.py: the lookup of a user by e-mail.
use muxivo_console.Shared.{Bool, ◌&&◌, Option, some, find, any, Text, text_eq, ◌==◌}
use text.Mathlib.Text.{◌==◌ as str_eq}
use muxivo_console.Domain.Activity.{Uuid}
use muxivo_console.Persistence.Database.{Database}
use muxivo_console.Persistence.Connections.{and_then}

abbrev pub is_active_user : Uuid → Database → Bool
is_active_user u db = any (λ r. r.id == u && str_eq r.status "active") db.users

-- `find_active_user_id_by_email_lookup_hash`, a join of the users and their e-mails.
unfoldable pub find_active_user_id_by_email_lookup_hash : Text → Database → Option Uuid
find_active_user_id_by_email_lookup_hash hash db =
    and_then (find (λ e. text_eq e.email_lookup_hash hash && is_active_user e.user_id db) db.emails)
      (λ e. some e.user_id)
