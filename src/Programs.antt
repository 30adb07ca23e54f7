-- ===== src/Programs.antt =====
-- The programs under src/bin: from their arguments, as they are parsed, to the library.
pub mod Aitftp
pub mod Aitftpd
use atftp.Common.{ℕ, suc, zero, Bytes, codes}

-- The default of `init_tracing`, which both programs have alike.
unfoldable pub default_filter : ℕ → Bytes
default_filter zero = codes "aitftp=warn"
default_filter (suc zero) = codes "aitftp=info"
default_filter (suc (suc zero)) = codes "aitftp=debug"
default_filter (suc (suc (suc verbose))) = codes "aitftp=trace"
