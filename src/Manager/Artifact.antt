-- ===== src/Manager/Artifact.antt =====
-- manager/artifact/registry.go: the builds of an artifact, and the part of `ArtifactRegistry` that
-- the dispatcher and the handlers call. An error is `none`.
use workforce.Prelude.{String, List, Option}
use workforce.Prelude.Int.{ℤ}

pub record ArtifactPlatform : Type 0 where
  pub artifact : String
  pub version : String
  pub os : String
  pub arch : String
  pub hash : String
  pub size : ℤ
  pub dependencies : List String
  pub url : String

-- The arguments are those of the source: the artifact, then its version, then the platform.
pub record ArtifactRegistry : Type 0 where
  pub resolve : String → String → String → Option ArtifactPlatform
  pub resolve_version : String → String → String → String → Option ArtifactPlatform
  pub list_platforms : String → String → Option (List ArtifactPlatform)
