-- ===== src/Api.antt =====
-- api/v1: the two custom resources and the constants of their package.
pub mod Replica
pub mod Restore
use sqlite_operator.Base.{String}

-- `LitestreamDefaultImage` of groupversion_info.go
abbrev pub litestream_default_image : String
litestream_default_image = "litestream/litestream:0.5.14"
