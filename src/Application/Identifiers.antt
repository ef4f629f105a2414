-- ===== src/Application/Identifiers.antt =====
-- The generator of identifiers, as the use cases draw from it.
use muxivo_console.Shared.{ℕ, suc}
use muxivo_console.Domain.Activity.{Uuid}

-- What the generator returns, call by call.
abbrev pub Supply : Type 0
Supply = ℕ → Uuid

-- A call returns the first identifier and leaves the others.
abbrev pub rest_of : Supply → Supply
rest_of ids n = ids (suc n)
