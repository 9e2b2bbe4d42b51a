-- ===== src/Entry/Kind.antt =====
-- src/domain/entry.rs: the classification of entries.
use silicon_briefcase.Prelude.{Bool, true, false, Option, none, some}
use silicon_briefcase.Text.{Str}

pub data EntryKind : Type 0 where
  file folder : EntryKind

unfoldable pub can_contain_children : EntryKind → Bool
can_contain_children file = false
can_contain_children folder = true

pub data RootType : Type 0 where
  public private tag : RootType

pub data EntryBoundary : Type 0 where
  public private : EntryBoundary
  tag : Str → EntryBoundary

-- `EntryBoundary::root_type`.
unfoldable boundary_root_type : EntryBoundary → RootType
boundary_root_type EntryBoundary.public = RootType.public
boundary_root_type EntryBoundary.private = RootType.private
boundary_root_type (EntryBoundary.tag name) = RootType.tag

-- `EntryBoundary::tag`.
unfoldable boundary_tag : EntryBoundary → Option Str
boundary_tag (EntryBoundary.tag name) = some name
boundary_tag _ = none

pub data SystemEntryKind : Type 0 where
  drive_root application_container application_folder : SystemEntryKind
  public_container private_container tag_root private_actor_folder : SystemEntryKind

-- `SystemEntryKind::root_type`.
unfoldable system_root_type : SystemEntryKind → RootType
system_root_type public_container = RootType.public
system_root_type tag_root = RootType.tag
system_root_type _ = RootType.private
