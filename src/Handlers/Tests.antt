-- ===== src/Handlers/Tests.antt =====
-- src/handlers: runs of the input checks.
use ait.Base.{ℕ, Text, codes}

abbrev decimal : ℕ → Text
decimal n = codes "128"
