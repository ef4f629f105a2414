-- ===== src/Tests/Fixtures.antt =====
-- A small deployment: organization 1 with its owner 10, admin 11 and viewer 12, and organization 2
-- with connection 60; user 13 is a member of neither.
use muxivo_console.Persistence.Members.Writes.{IsConsistent}
use muxivo_console.Shared.{Bool, true, false, List, [], ◌∷◌, none, some, Text, codes, refl}
use muxivo_console.Domain.Activity.{Platform}
use muxivo_console.Domain.Audit.{AuditEvent}
use muxivo_console.Domain.Authorization.{AuthorizationAction, AuthorizationResource}
use muxivo_console.Domain.Organizations.{
  OrganizationRole, MembershipResourceScope, OrganizationMembership,
}
use muxivo_console.Domain.Connections.{PlatformConnection, ConnectionStatus, ConnectionStatusReason}
use muxivo_console.Persistence.Database.{Database, ConnectionRow, object}

-- A JSON column that gives the first two entries of a dictionary back in the other order.
abbrev pub reordering : List (Text × Bool) → List (Text × Bool)
reordering [] = []
reordering (e ∷ []) = e ∷ []
reordering (e ∷ f ∷ d) = f ∷ e ∷ d

abbrev pub guild : ConnectionRow
guild = record {
  id = 50;
  organization_id = 1;
  platform = "discord";
  external_resource_id = codes "guild-7";
  status = "active";
  status_reason = some "healthy";
  granted_capabilities = object ((codes "discord.guild.read", true) ∷ []);
}

abbrev pub guild_connection : PlatformConnection
guild_connection = record {
  id = 50;
  organization_id = 1;
  platform = Platform.discord;
  external_resource_id = codes "guild-7";
  status = ConnectionStatus.active;
  status_reason = some ConnectionStatusReason.healthy;
  granted_capabilities = codes "discord.guild.read" ∷ [];
}

abbrev pub foreign : ConnectionRow
foreign = record guild { id = 60; organization_id = 2; external_resource_id = codes "guild-8" }

abbrev pub admin_scope : MembershipResourceScope
admin_scope = record {
  resource = AuthorizationResource.platform_connections;
  action = AuthorizationAction.manage;
  id = some 31;
}

abbrev pub admin : OrganizationMembership
admin = record {
  actor_id = 11;
  organization_id = 1;
  role = OrganizationRole.admin;
  resource_scopes = admin_scope ∷ [];
  id = some 21;
}

abbrev pub base : Database
base = record {
  organizations =
      record { id = 1; name = codes "One"; slug = codes "one" }
      ∷ record { id = 2; name = codes "Two"; slug = codes "two" }
      ∷ [];
  users =
      record { id = 10; status = "active"; display_name = codes "user" }
      ∷ record { id = 11; status = "active"; display_name = codes "user" }
      ∷ record { id = 12; status = "suspended"; display_name = codes "user" }
      ∷ record { id = 13; status = "active"; display_name = codes "user" }
      ∷ [];
  emails =
      record {
        id = 41;
        user_id = 13;
        email_ciphertext = codes "y";
        email_lookup_hash = codes "13@example.org";
        is_primary = false;
      }
      ∷ record {
        id = 42;
        user_id = 13;
        email_ciphertext = codes "z";
        is_primary = true;
        email_lookup_hash =
            codes "1111111111111111111111111111111111111111111111111111111111111111";
      }
      ∷ [];
  memberships =
      record { id = 20; organization_id = 1; user_id = 10; role = "owner" }
      ∷ record { id = 21; organization_id = 1; user_id = 11; role = "admin" }
      ∷ record { id = 22; organization_id = 1; user_id = 12; role = "viewer" }
      ∷ [];
  scopes =
      record {
        id = 31;
        membership_id = 21;
        resource = "console.platform_connections";
        action = "manage";
      }
      ∷ [];
  connections = guild ∷ foreign ∷ [];
  idempotency = [];
  audit_events = [];
  sessions =
      record {
        id = 70;
        user_id = 11;
        token_hash = codes "7777777777777777777777777777777777777777777777777777777777777777";
        expires_at = 9000;
        revoked_at = none;
        assurance_level = "password";
        ip_hash = none;
        user_agent_hash = none;
        last_seen_at = some 100;
        created_at = 50;
      }
      ∷ [];
  invitations =
      record {
        id = 80;
        organization_id = 1;
        invited_by_user_id = some 10;
        email_ciphertext = codes "x";
        email_lookup_hash =
            codes "1111111111111111111111111111111111111111111111111111111111111111";
        email_hint = codes "1*@example.org";
        token_hash = codes "8888888888888888888888888888888888888888888888888888888888888888";
        role = "analyst";
        delivery_status = none;
        expires_at = 9000;
        accepted_at = none;
        revoked_at = none;
        created_at = 50;
      }
      ∷ [];
  invitation_scopes = [];
  login_identities =
      record {
        id = 50;
        user_id = 11;
        provider = "email";
        provider_subject = codes "hash";
        linked_at = 1;
        last_used_at = none;
      }
      ∷ record {
        id = 51;
        user_id = 11;
        provider = "discord";
        provider_subject = codes "123";
        linked_at = 2;
        last_used_at = some 5;
      }
      ∷ [];
  credentials =
      record {
        user_id = 11;
        password_hash = codes "$argon2id$old";
        password_changed_at = 1;
        failed_attempts = 0;
        locked_until = none;
      }
      ∷ [];
  link_transactions = [];
  login_transactions = [];
  recovery_transactions =
      record {
        id = 60;
        user_id = 11;
        token_hash = codes "9999999999999999999999999999999999999999999999999999999999999999";
        expires_at = 5000;
        consumed_at = none;
      }
      ∷ [];
}

abbrev pub event : AuditEvent
event = record {
  id = 90;
  correlation_id = 91;
  actor_id = some 11;
  organization_id = some 1;
  action = "test";
  resource_type = "test";
  resource_id = none;
  result = "succeeded";
}

pub base-IsConsistent : IsConsistent base
base-IsConsistent = record {
  unique_ids = (refl, (refl, (refl, tt)));
  members_once = (refl, (refl, (refl, tt)));
  owned = (refl, tt);
}
