-- ===== src/Version.antt =====
-- `Version` of version.go: the revision of a build, which opens every connection. What
-- debug.ReadBuildInfo gives is a parameter: nothing, or the settings of the build, each with its key.
mod Examples
use hauntty.Prelude.{
  ℕ, ◌+◌, ◌≤◌, ltb, Bool, true, false, List, [], ◌∷◌, ◌++◌, Option, none, some, Text, text_eq,
  codes, length, take, length-append, length-take, arith, if◌then◌else◌, Bool-cases, inl, inr,
}
use hauntty.Client.Attach.{is_nil}

abbrev pub BuildSettings : Type 0
BuildSettings = List (Text × Text)

-- The revision and whether the tree was modified, after the settings so far.
unfoldable pub read_settings : Text → Bool → BuildSettings → Text × Bool
read_settings revision dirty [] = (revision, dirty)
read_settings revision dirty ((key, value) ∷ rest) =
    if text_eq key (codes "vcs.revision")
    then read_settings value dirty rest
    else if text_eq key (codes "vcs.modified")
    then read_settings revision (text_eq value (codes "true")) rest
    else read_settings revision dirty rest

abbrev pub shortened : Text → Text
shortened revision = if ltb 12 (length revision) then take 12 revision else revision

abbrev pub marked : Bool → Text → Text
marked dirty revision = if dirty then revision ++ codes "-dirty" else revision

abbrev pub named : Text × Bool → Text
named (revision, dirty) =
    if is_nil revision then codes "unknown" else marked dirty (shortened revision)

unfoldable pub version : Option BuildSettings → Text
version none = codes "unknown"
version (some settings) = named (read_settings [] false settings)

shortened-length : (revision : Text) → length (shortened revision) ≤ 12
shortened-length revision = ground (arith, length-take 12 revision)

marked-length :
    (dirty : Bool) (revision : Text) → length (marked dirty revision) ≤ length revision + 6
marked-length true revision = omega (arith, length-append revision (codes "-dirty"))
marked-length false revision = omega arith

named-length : (read : Text × Bool) → length (named read) ≤ 18
named-length ([], dirty) = omega arith
named-length (b ∷ bs, dirty) =
    omega (arith, shortened-length (b ∷ bs), marked-length dirty (shortened (b ∷ bs)))

pub version-length : (info : Option BuildSettings) → length (version info) ≤ 18
unfolding version
version-length none = omega arith
version-length (some settings) = named-length (read_settings [] false settings)
