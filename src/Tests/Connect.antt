-- ===== src/Tests/Connect.antt =====
-- A run of the connection of a resource.
use mathlib.Core.List.Perm
use muxivo_console.Application.Identifiers.{Supply}
use muxivo_console.Shared.{◌+◌, true, ◌≡◌, refl, ◌⊎◌, some, codes, ok, is_blank, strip, is_space}
use muxivo_console.Domain.Activity.{Platform}
use muxivo_console.Domain.Connections.{platform_connection}
use muxivo_console.Domain.Organizations.{allows, role_supports, scope_allows}
use muxivo_console.Persistence.Values.{to_role, to_resource, to_action}
use muxivo_console.Persistence.Members.{get_membership, membership_from_record}
use muxivo_console.Persistence.Connections.{create}
use muxivo_console.Application.Authorizer.{authorize}
use muxivo_console.Application.Connect.{
  ConnectCommand, Verifier, connect, create_connection, new_connection,
}
use muxivo_console.Application.Connect.Outcomes.{Rejects, Connects, connect_lem}
use muxivo_console.Tests.Fixtures.{base, reordering}

abbrev connect_channel : ConnectCommand
connect_channel = record {
  actor_id = 11;
  organization_id = 1;
  platform = Platform.twitch;
  external_resource_id = codes " channel-3 ";
  correlation_id = 70;
}

abbrev owned : Verifier
owned cmd resource = some true

abbrev ids : Supply
ids n = 100 + n

channel_connected :
    (connect owned reordering ids connect_channel base).0 ≡ ok (new_connection 100 connect_channel)
unfolding connect create_connection authorize allows role_supports scope_allows get_membership
    membership_from_record to_role to_resource to_action platform_connection create is_blank strip
    is_space
channel_connected = refl

connect_lem_example :
    let run = connect owned reordering ids connect_channel base in
    Rejects owned reordering ids connect_channel base run
    ⊎ Connects owned reordering ids connect_channel base run
connect_lem_example = connect_lem owned reordering ids connect_channel base (Perm.swap _ _ _)
