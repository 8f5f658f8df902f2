-- ===== src/Core/Memory/Tests.antt =====
-- core/sabo.c: a node of two sockets and three processes.
use sabo.Core.Memory.Program.{Program}
