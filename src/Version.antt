-- ===== src/Version.antt =====
-- internal/version/version.go: the build's versions. A release build sets them by the linker.
use nanok8s.Base.{String}

abbrev pub kubernetes_version : String
kubernetes_version = "v1.35.0"

abbrev pub git_commit : String
git_commit = "unknown"

abbrev pub build_date : String
build_date = "unknown"
