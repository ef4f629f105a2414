-- ===== src/Domain/Capabilities.antt =====
-- domain/platform_connection_capabilities.py: the capability keys of each platform.
use muxivo_console.Shared.{List, [], ◌∷◌, Text, codes}
use muxivo_console.Domain.Activity.{Platform}

-- `_CAPABILITY_KEYS`, which names every platform.
abbrev pub capability_keys_for_platform : Platform → List Text
capability_keys_for_platform Platform.discord =
    codes "discord.guild.read" ∷ codes "discord.guild.manage" ∷ []
capability_keys_for_platform Platform.twitch =
    codes "twitch.channel.read" ∷ codes "twitch.channel.manage" ∷ []
capability_keys_for_platform Platform.telegram =
    codes "telegram.chat.read" ∷ codes "telegram.chat.manage" ∷ []
